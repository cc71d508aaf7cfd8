-- ===== src/Pipeline/Reachability.antt =====
-- The states that the pipeline can reach, by steps of the listener, the builder, the controller and
-- the workers in any order.
use technopark_highload.Client.{HttpClient, Connection, new_client}
use technopark_highload.Pipeline.Invariant.{IsSound, move_task-IsSound}
use technopark_highload.Pipeline.Received.{IsReady}
use technopark_highload.Pipeline.{
  Sd, Pipeline, empty, find_task, emplace, accept_client, create_task, get_sd, Arrival, move_task,
  take_task,
}
use technopark_highload.Prelude.{
  List-cases, ◌≡◌, refl, ap, inl, inr, Bool, false, List, ◌∷◌, arith, All, All-append, Option, some,
}
use technopark_highload.Result.{ok, err, out_of_range}
use technopark_highload.Tasks.Process.{pre_process, request_headers}
use technopark_highload.Dict.{Dict}
use technopark_highload.Worker.{Task, new_task}

-- A step of one of the threads. A client is created under a descriptor that no task waits under:
-- the system opens no descriptor that is open already, and of clients without a socket there is one
-- at a time. An event may fire for any descriptor.
pub data Step : Pipeline → Pipeline → Type 0 where
  accepted : (s : Option Connection) (p : Pipeline) → Step p (accept_client s p)
  created :
      (p : Pipeline) (c : HttpClient) (rest : List HttpClient)
      → p.unprocessed_clients ≡ c ∷ rest
      → find_task (get_sd c) p.have_no_data ≡ err out_of_range
      → Step p (create_task p)
  fired :
      {p p' : Pipeline} (sd : Sd) (timed_out : Bool) (a : Arrival)
      → move_task sd timed_out a p ≡ ok p'
      → Step p p'
  taken : (p : Pipeline) → Step p (take_task p).1

pub data Reachable : Pipeline → Type 0 where
  started : Reachable empty
  stepped : {p p' : Pipeline} → Reachable p → Step p p' → Reachable p'

accept_client-IsSound :
    (s : Option Connection) (p : Pipeline) → IsSound p → IsSound (accept_client s p)
unfolding accept_client new_client
accept_client-IsSound s p sound = record {
  keyed = sound.keyed;
  new = All-append (λ c. c.received_header ≡ false) p.unprocessed_clients _ sound.new (refl, tt);
  waiting = sound.waiting;
  ready = sound.ready;
}

-- A new client under a descriptor that is no key keeps the pipeline sound.
create_task-IsSound :
    (p : Pipeline) (c : HttpClient) (rest : List HttpClient)
    → IsSound p
    → p.unprocessed_clients ≡ c ∷ rest
    → find_task (get_sd c) p.have_no_data ≡ err out_of_range
    → IsSound (create_task p)
unfolding create_task emplace
create_task-IsSound p c rest sound front fresh =
    let fronts : All (λ c. c.received_header ≡ false) (c ∷ rest) = rw front at sound.new in
    let added : IsSound (record p {
      unprocessed_clients = rest;
      have_no_data = (get_sd c, new_task c) ∷ p.have_no_data;
      events = get_sd c ∷ p.events;
    }) =
      record {
        keyed = ap (λ ks. get_sd c ∷ ks) sound.keyed;
        new = fronts.1;
        waiting = (inl fronts.0, sound.waiting);
        ready = sound.ready;
      } in
    let same : record p {
      unprocessed_clients = rest;
      have_no_data = (get_sd c, new_task c) ∷ p.have_no_data;
      events = get_sd c ∷ p.events;
    }
        ≡ create_task p =
      ground arith in
    rw same at added

take_task-IsSound : (p : Pipeline) → IsSound p → IsSound (take_task p).1
unfolding take_task
take_task-IsSound p sound = elim (List-cases p.have_data) [
  | inl none_left ↦ let same : (take_task p).1 ≡ p = ground arith in rw same sound
  | inr (task, rest, front) ↦
      let ready : All (λ t. IsReady t.input) (task ∷ rest) = rw front at sound.ready in
      let kept : IsSound (record p { have_data = rest }) = record {
        keyed = sound.keyed;
        new = sound.new;
        waiting = sound.waiting;
        ready = ready.1;
      } in
      rw front kept
]

-- Every step keeps the pipeline sound.
pub Step-IsSound : {p p' : Pipeline} → IsSound p → Step p p' → IsSound p'
Step-IsSound sound (accepted s p) = accept_client-IsSound s p sound
Step-IsSound sound (created p c rest front fresh) = create_task-IsSound p c rest sound front fresh
Step-IsSound {p = p} sound (fired sd timed_out a e) = move_task-IsSound sd p sound timed_out a e
Step-IsSound sound (taken p) = take_task-IsSound p sound

-- In every state that can be reached, by clients created under descriptors that no task waits under,
-- the events are those of the waiting tasks; and each task in the queue of the workers has a header that
-- `HttpRequest` parses, and a body of at least as many bytes as the Content-Length of this request. The
-- steps are those that are defined: a first read without a blank line is not.
pub Reachable-IsSound : {p : Pipeline} → Reachable p → IsSound p
Reachable-IsSound started = record { keyed = refl; new = tt; waiting = tt; ready = tt }
Reachable-IsSound (stepped before step) = Step-IsSound (Reachable-IsSound before) step

-- What a worker takes from the queue of a state that can be reached, by clients created under
-- descriptors that no task waits under, has a header for which `PreProcess` does not throw.
Reachable-parses :
    {p p' : Pipeline} {task : Task}
    → Reachable p
    → take_task p ≡ (some task, p')
    → (headers : Dict) × (pre_process task.input.header ≡ ok headers)
unfolding take_task pre_process
Reachable-parses {p = p} {task = task} reached took = elim (List-cases p.have_data) [
  | inl none_left ↦ ground arith
  | inr (front, rest, e) ↦
      let ready : All (λ t. IsReady t.input) (front ∷ rest) =
        rw e at (Reachable-IsSound reached).ready in
      let same : front ≡ task = ground arith in
      let (r, n, parsed, _, _) = ready.0 in (request_headers r, rw (← same) (rw parsed refl))
]
