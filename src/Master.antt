-- ===== src/Master.antt =====
-- async/src/Master.cpp: the threads of the server, started and stopped in order. `Stop` is one step
-- for each statement of its body, between which the other threads go on. A component's flag is set
-- and its thread joined in one step, since a round that has begun before the join is a step before
-- it; a join that never returns is a step that is not taken, nor is one that ends the program, as
-- where a worker that waits for a task is stopped. `size_approx` of a queue is its size.
pub mod Stopping
pub mod Drained
use technopark_highload.Client.{HttpClient, Connection}
use technopark_highload.Listener.{Listener, new_listener, start_listener, stop_listener}
use technopark_highload.Pipeline.{
  Sd, Pipeline, empty, find_task, get_sd, accept_client, create_task, Arrival, move_task, take_task,
}
use technopark_highload.Prelude.{
  ℕ, zero, suc, ◌≡◌, Bool, true, false, ◌||◌, not, Option, none, some, List, [], ◌∷◌, ◌++◌, is_nil,
  if◌then◌else◌, Bytes, codes,
}
use technopark_highload.Result.{
  Result, ok, err, ◌>>=◌, out_of_range, runtime_error, undefined_behaviour,
}
use technopark_highload.Socket.Open.{Socket}
use technopark_highload.Text.{equal}
use technopark_highload.Worker
use technopark_highload.Worker.{Worker, new_worker, stopped_worker}

-- Where `Stop` stands: not called, or before one of its loops and calls in their order.
pub data StopPc : Type 0 where
  at_rest stopping_listeners waiting_clients stopping_builder waiting_tasks : StopPc
  stopping_controller waiting_again stopping_workers : StopPc

-- The queues and the map are `pipeline`; `builder_stop` is `TaskBuilder::stop`, and
-- `controller_stop` the flag of the event loop.
pub record Master : Type 0 where
  pub pipeline : Pipeline
  pub listeners : List Listener
  pub builder_stop : Bool
  pub controller_stop : Bool
  pub workers : List Worker
  pub stop : Bool
  pub stop_at : StopPc

abbrev pub has_port : Bytes → List (Bytes × ℕ) → Bool
has_port name [] = false
has_port name ((key, port) ∷ ports) = equal name key || has_port name ports

unfoldable pub create_listeners : (ℕ → Result Socket) → List (Bytes × ℕ) → Result (List Listener)
unfolding new_listener
create_listeners listen [] = ok []
create_listeners listen ((name, port) ∷ ports) = do
  l ← new_listener (listen port)
  ls ← create_listeners listen ports
  ok (l ∷ ls)

unfoldable pub create_workers : ℕ → List Worker
unfolding new_worker
create_workers zero = []
create_workers (suc n) = new_worker ∷ create_workers n

-- The constructor; `listen` is `createServerSocket` by the port. With no workers it throws behind
-- `SetCallbackArgument`, and the shared pointer there deletes a member. That a vector moves its
-- listeners when it grows is left out: `main` has one port.
unfoldable pub new_master : (ℕ → Result Socket) → List (Bytes × ℕ) → ℕ → Result Master
unfolding create_listeners create_workers equal
new_master listen ports amount =
    if not (has_port (codes "external") ports) then err runtime_error else (do
      ls ← create_listeners listen ports
      let workers = create_workers amount
      if is_nil workers
          then err undefined_behaviour
          else ok (record {
            pipeline = empty;
            listeners = ls;
            builder_stop = true;
            controller_stop = true;
            workers = workers;
            stop = true;
            stop_at = at_rest;
          }))

abbrev pub start_listeners : List Listener → List Listener
unfolding start_listener
start_listeners [] = []
start_listeners (l ∷ ls) = start_listener l ∷ start_listeners ls

abbrev pub stop_listeners : List Listener → List Listener
unfolding stop_listener
stop_listeners [] = []
stop_listeners (l ∷ ls) = stop_listener l ∷ stop_listeners ls

abbrev pub start_workers : List Worker → List Worker
start_workers [] = []
start_workers (w ∷ ws) = Worker.start w ∷ start_workers ws

abbrev pub stop_workers : List Worker → List Worker
stop_workers [] = []
stop_workers (w ∷ ws) = stopped_worker w ∷ stop_workers ws

-- `TaskBuilder::Start` and `Stop`, and those of `TasksController`, which are `EventLoop::StartLoop`
-- and `StopLoop`, without the threads
unfoldable pub start_builder : Master → Master
start_builder m = if m.builder_stop then record m { builder_stop = false } else m

unfoldable pub stop_builder : Master → Master
stop_builder m = if m.builder_stop then m else record m { builder_stop = true }

unfoldable pub start_controller : Master → Master
start_controller m = if m.controller_stop then record m { controller_stop = false } else m

unfoldable pub stop_controller : Master → Master
stop_controller m = if m.controller_stop then m else record m { controller_stop = true }

-- `Start`
unfoldable pub start : Master → Master
unfolding Worker.start start_listener start_builder start_controller
start m =
    let working = record m { stop = false; workers = start_workers m.workers } in
    let building = start_builder (start_controller working) in
    if m.stop then record building { listeners = start_listeners m.listeners } else m

-- `Stop` is called.
unfoldable pub call_stop : Master → Master
call_stop m = if m.stop then m else record m { stop = true; stop_at = stopping_listeners }

-- The next step of `Stop`; `none` while it sleeps in a loop, or where it has not been called.
unfoldable pub stop_step : StopPc → Master → Option Master
unfolding stopped_worker stop_listener stop_builder stop_controller
stop_step at_rest m = none
stop_step stopping_listeners m =
    some (record m { listeners = stop_listeners m.listeners; stop_at = waiting_clients })
stop_step waiting_clients m =
    if is_nil m.pipeline.unprocessed_clients
    then some (record m { stop_at = stopping_builder })
    else none
stop_step stopping_builder m = some (record (stop_builder m) { stop_at = waiting_tasks })
stop_step waiting_tasks m =
    if is_nil m.pipeline.have_no_data
    then some (record m { stop_at = stopping_controller })
    else none
stop_step stopping_controller m = some (record (stop_controller m) { stop_at = waiting_again })
stop_step waiting_again m =
    if is_nil m.pipeline.unprocessed_clients
    then some (record m { stop_at = stopping_workers })
    else none
stop_step stopping_workers m =
    some (record m { workers = stop_workers m.workers; stop_at = at_rest })

abbrev pub any_listens : List Listener → Bool
any_listens [] = false
any_listens (l ∷ ls) = not l.stop || any_listens ls

-- A step of one of the threads, as in `Pipeline.Reachability.Step`, where its component runs; of a
-- worker it is a whole round, with what that makes of the worker. One thread calls `Start` and
-- `Stop`.
pub data Step (m : Master) : Master → Type 0 where
  accepted :
      any_listens m.listeners ≡ true
      → (s : Option Connection) → Step m (record m { pipeline = accept_client s m.pipeline })
  created :
      m.builder_stop ≡ false
      → (c : HttpClient) (rest : List HttpClient) → m.pipeline.unprocessed_clients ≡ c ∷ rest
      → find_task (get_sd c) m.pipeline.have_no_data ≡ err out_of_range
      → Step m (record m { pipeline = create_task m.pipeline })
  fired :
      m.controller_stop ≡ false
      → (sd : Sd) (timed_out : Bool) (a : Arrival) {p : Pipeline}
      → move_task sd timed_out a m.pipeline ≡ ok p
      → Step m (record m { pipeline = p })
  worked :
      (before after : List Worker) (w w' : Worker)
      → m.workers ≡ before ++ w ∷ after
      → w.stop ≡ false
      → Step m (record m { workers = before ++ w' ∷ after; pipeline = (take_task m.pipeline).1 })
  started : m.stop_at ≡ at_rest → Step m (start m)
  stop_called : m.stop_at ≡ at_rest → Step m (call_stop m)
  stopping : {m' : Master} → stop_step m.stop_at m ≡ some m' → Step m m'

pub data Reachable (listen : ℕ → Result Socket) (ports : List (Bytes × ℕ)) (amount : ℕ)
    : Master → Type 0 where
  made : {m : Master} → new_master listen ports amount ≡ ok m → Reachable listen ports amount m
  next :
      {m m' : Master}
      → Reachable listen ports amount m
      → Step m m'
      → Reachable listen ports amount m'
