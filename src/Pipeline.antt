-- ===== src/Pipeline.antt =====
-- async/src/Listener.cpp, TaskBuilder.cpp and TasksController.cpp: the way of a client from the
-- socket that accepts it to the queue of the workers. The mutexes and queues make each of the
-- operations here one step; the events are those that are added to the event loop
-- (async/include/EventLoop.hpp), each named by its descriptor.
pub mod Received
pub mod Entries
pub mod Bodies
pub mod Gone
pub mod Handled
pub mod Threads
pub mod Conserved
pub mod Everywhere
pub mod Invariant
pub mod Reachability
use technopark_highload.Client.{
  HttpClient, Connection, new_client, recv_header_async, recv_body_async,
}
use technopark_highload.Http.Request.{HttpRequest, parse, get_content_length}
use technopark_highload.Prelude.Int.{ℤ}
use technopark_highload.Prelude.{
  ℕ, Bool, true, false, ◌==◌, Option, none, some, List, [], ◌∷◌, ◌++◌, if◌then◌else◌,
}
use technopark_highload.Result.{
  Error, Result, ok, err, ◌>>=◌, out_of_range, undefined_behaviour, out_of_fuel,
}
use technopark_highload.Socket.Receive.{Answer}
use technopark_highload.Worker.{Task, new_task}

-- A descriptor, with `none` for the -1 that `GetSd` returns of a client without a socket.
abbrev pub Sd : Type 0
Sd = Option ℕ

abbrev pub get_sd : HttpClient → Sd
get_sd c = elim c.socket [ none ↦ none | some s ↦ some s.sd ]

-- `operator==` of two descriptors
unfoldable pub same_sd : Sd → Sd → Bool
same_sd none none = true
same_sd none (some _) = false
same_sd (some _) none = false
same_sd (some m) (some n) = m == n

pub record Pipeline : Type 0 where
  pub unprocessed_clients : List HttpClient
  pub have_no_data : List (Sd × Task)
  pub events : List Sd
  pub have_data : List Task

abbrev pub empty : Pipeline
empty = record { unprocessed_clients = []; have_no_data = []; events = []; have_data = [] }

-- `haveNoData.at(sd)`
unfoldable pub find_task : Sd → List (Sd × Task) → Result Task
find_task sd [] = err out_of_range
find_task sd ((k, t) ∷ m) = let rest = find_task sd m in if same_sd k sd then ok t else rest

-- `haveNoData.erase(sd)`
unfoldable pub erase : Sd → List (Sd × Task) → List (Sd × Task)
erase sd [] = []
erase sd ((k, t) ∷ m) = let rest = (k, t) ∷ erase sd m in if same_sd k sd then m else rest

-- a write to the task through the reference that `at` has returned
unfoldable pub write_task : Sd → Task → List (Sd × Task) → List (Sd × Task)
write_task sd new [] = []
write_task sd new ((k, t) ∷ m) =
    let rest = (k, t) ∷ write_task sd new m in if same_sd k sd then (k, new) ∷ m else rest

-- `haveNoData.emplace(sd, task)` leaves a key alone that is there already
unfoldable pub emplace : Sd → Task → List (Sd × Task) → List (Sd × Task)
unfolding find_task
emplace sd task m = elim (find_task sd m) [ ok _ ↦ m | err _ ↦ (sd, task) ∷ m ]

-- `EventLoop::FreeEvent`, of the event for `sd`
unfoldable pub free_event : Sd → List Sd → List Sd
free_event sd [] = []
free_event sd (k ∷ ks) = let rest = k ∷ free_event sd ks in if same_sd k sd then ks else rest

-- A round of `Listener::Loop`, with what `accept` returns: a null pointer where it fails.
unfoldable pub accept_client : Option Connection → Pipeline → Pipeline
accept_client s p = record p { unprocessed_clients = p.unprocessed_clients ++ new_client s ∷ [] }

-- A round of `TaskBuilder::CreateTasks`, with the client at the front of the queue; nothing happens
-- where `wait_dequeue_timed` finds none.
unfoldable pub create_task : Pipeline → Pipeline
unfolding emplace
create_task p = elim p.unprocessed_clients [
  | [] ↦ p
  | client ∷ rest ↦ record p {
    unprocessed_clients = rest;
    have_no_data = emplace (get_sd client) (new_task client) p.have_no_data;
    events = get_sd client ∷ p.events;
  }
]

-- What the system answers while an event is handled: to the read of the header, to `FIONREAD`, and
-- to the reads of the body.
pub record Arrival : Type 0 where
  pub first : Answer
  pub count : ℤ
  pub more : List Answer

-- `ReceiveInput`, on the client of the task
unfoldable pub receive_client : HttpClient → Arrival → Result (HttpClient × Bool)
receive_client c a = if c.received_header then recv_body_async c a.count a.more else (do
  c' ← recv_header_async c a.first
  if c'.received_header
      then (do
        request ← parse c'.header
        n ← get_content_length request
        recv_body_async (record c' { content_length = n }) a.count a.more)
      else ok (c', false))

-- `TimeoutTaskRemove`, behind `FreeEvent`
unfoldable pub remove_task : Sd → Pipeline → Pipeline
unfolding erase free_event
remove_task sd p = record p {
  have_no_data = erase sd p.have_no_data;
  events = free_event sd p.events;
}

-- `MoveTask(sd)`, behind `FreeEvent`
unfoldable pub pass_on : Sd → Task → Pipeline → Pipeline
unfolding erase free_event
pass_on sd task p = record p {
  have_no_data = erase sd p.have_no_data;
  events = free_event sd p.events;
  have_data = p.have_data ++ task ∷ [];
}

-- what `MoveTask` makes of what `ReceiveInput` returns or throws; undefined behaviour is not caught
unfoldable pub received : Sd → Task → Pipeline → Result (HttpClient × Bool) → Result Pipeline
unfolding pass_on remove_task write_task
received sd task p (ok (c, true)) = ok (pass_on sd (record task { input = c }) p)
received sd task p (ok (c, false)) =
    ok (record p { have_no_data = write_task sd (record task { input = c }) p.have_no_data })
received sd task p (err undefined_behaviour) = err undefined_behaviour
received sd task p (err out_of_fuel) = err out_of_fuel
received sd task p (err e) = ok (remove_task sd p)

-- `MoveTask(fd, events, ev)`, by whether the event is `EV_TIMEOUT`. Without a task `at` throws while
-- the mutex is locked, and the handler locks it again in the same thread: undefined behaviour.
unfoldable pub move_task : Sd → Bool → Arrival → Pipeline → Result Pipeline
unfolding received remove_task find_task
move_task sd timed_out a p =
    if timed_out then ok (remove_task sd p) else (elim (find_task sd p.have_no_data) [
      | ok task ↦ received sd task p (receive_client task.input a)
      | err e ↦ err undefined_behaviour
    ])

-- what a worker takes from the queue
unfoldable pub take_task : Pipeline → Option Task × Pipeline
take_task p = elim p.have_data [
  | [] ↦ (none, p)
  | task ∷ rest ↦ (some task, record p { have_data = rest })
]
