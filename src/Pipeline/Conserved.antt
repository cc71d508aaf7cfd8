-- ===== src/Pipeline/Conserved.antt =====
-- Where the clients of the pipeline are: none is lost, and none is there twice.
pub mod Counting
pub mod Steps
use technopark_highload.Client.{
  HttpClient, Connection, new_client, recv_header_async, recv_body_async, split_message,
  parse_buffer, find_header_end,
}
use technopark_highload.Http.Request.{HttpRequest, parse, get_content_length}
use technopark_highload.Pipeline.Invariant.{keys, keys-write_task}
use technopark_highload.Pipeline.Reachability.{Step, accepted, created, fired, taken}
use technopark_highload.Pipeline.{
  Sd, same_sd, Pipeline, empty, find_task, erase, write_task, emplace, free_event, get_sd,
  accept_client, create_task, Arrival, receive_client, received, pass_on, remove_task, move_task,
  take_task,
}
use technopark_highload.Prelude.Int.{ℤ}
use technopark_highload.Prelude.{
  ℕ, ◌+◌, ◌≡◌, refl, sym, ap, ◌∙◌, ◌⊎◌, inl, inr, arith, Bool, true, false, List, [], ◌∷◌, ◌++◌,
  Option, none, some, if◌then◌else◌, All, Bool-cases, Option-cases,
}
use technopark_highload.Result.{
  Error, Result, ok, err, out_of_range, undefined_behaviour, out_of_fuel, Result-cases,
}
use technopark_highload.Socket.Receive.{Answer, recv_vector}
use technopark_highload.Worker.{Task, new_task}

-- what the handler does with the task of an event
pub data Fate : Type 0 where
  passes removes waits : Fate

abbrev pub fate_of : Result (HttpClient × Bool) → Fate
fate_of (ok (c, true)) = passes
fate_of (ok (c, false)) = waits
fate_of (err e) = removes

-- An event without a task does nothing.
abbrev pub fate : Sd → Bool → Arrival → Pipeline → Fate
fate sd timed_out a p = elim (find_task sd p.have_no_data) [
  | err e ↦ waits
  | ok task ↦ if timed_out then removes else fate_of (receive_client task.input a)
]

-- the descriptors of the clients that have been accepted, taken by a worker, and removed
pub record Log : Type 0 where
  pub accepted_clients : List Sd
  pub taken_tasks : List Sd
  pub removed_tasks : List Sd

abbrev pub log_fate : Fate → Sd → Log → Log
log_fate removes sd l = record l { removed_tasks = sd ∷ l.removed_tasks }
log_fate _ sd l = l

abbrev pub log_taken : Option Task → Log → Log
log_taken none l = l
log_taken (some t) l = record l { taken_tasks = get_sd t.input ∷ l.taken_tasks }

-- What a step adds to the log.
unfoldable pub log_step : {p p' : Pipeline} → Step p p' → Log → Log
log_step (accepted s p) l = record l {
  accepted_clients = get_sd (new_client s) ∷ l.accepted_clients;
}
log_step (created p c rest e fresh) l = l
log_step (fired {p = p} sd timed_out a e) l = log_fate (fate sd timed_out a p) sd l
log_step (taken p) l = log_taken (take_task p).0 l

pub data Logged : Log → Pipeline → Type 0 where
  begun : Logged (record { accepted_clients = []; taken_tasks = []; removed_tasks = [] }) empty
  next : {l : Log} {p p' : Pipeline} → Logged l p → (step : Step p p') → Logged (log_step step l) p'
