-- ===== src/Pipeline/Threads.antt =====
-- async/src/TaskBuilder.cpp and TasksController.cpp, one step for each statement that touches what the
-- threads share: the builder's round, and the controller's handler of an event, as they run at once.
-- That the input of a task is found under the mutex and read behind it is one step, since only the
-- controller's thread reads a task that waits.
pub mod Entries
pub mod Views
pub mod Commuting
pub mod Atomic
pub mod Handling
pub mod Interleaved
use technopark_highload.Client.{HttpClient, Connection}
use technopark_highload.Pipeline.Handled.{has_event}
use technopark_highload.Pipeline.{
  Sd, Pipeline, empty, find_task, erase, write_task, emplace, free_event, get_sd, accept_client,
  Arrival, receive_client, take_task,
}
use technopark_highload.Prelude.{◌≡◌, Bool, true, false, List, [], ◌∷◌, ◌++◌, if◌then◌else◌, Option}
use technopark_highload.Result.{Result, ok, err, out_of_range, undefined_behaviour, out_of_fuel}
use technopark_highload.Worker.{Task, new_task}

-- Where `CreateTasks` stands: in `wait_dequeue_timed`, before the `emplace`, and before `AddEvent`.
pub data BuilderPc : Type 0 where
  waiting : BuilderPc
  dequeued emplaced : HttpClient → BuilderPc

-- Where the event loop stands: outside the handler, before `ReceiveInput`, before the `FreeEvent` and
-- the erasing in `MoveTask(fd)` for an input that is complete, before its `enqueue`, and before the
-- `FreeEvent` and the erasing in `TimeoutTaskRemove`.
pub data ControllerPc : Type 0 where
  idle : ControllerPc
  reading freeing_moved moving : Sd → ControllerPc
  enqueueing : Task → ControllerPc
  freeing_removed removing : Sd → ControllerPc

pub record Threads : Type 0 where
  pub pipeline : Pipeline
  pub builder : BuilderPc
  pub controller : ControllerPc

-- `wait_dequeue_timed`; where no client waits the builder goes on waiting
unfoldable pub dequeue_client : List HttpClient → Threads → Threads
dequeue_client [] f = f
dequeue_client (c ∷ rest) f = record f {
  pipeline = record f.pipeline { unprocessed_clients = rest };
  builder = dequeued c;
}

-- `haveNoData.emplace`, between `lock` and `unlock`
unfoldable pub emplace_task : HttpClient → Threads → Threads
unfolding emplace
emplace_task c f = record f {
  pipeline = record f.pipeline {
    have_no_data = emplace (get_sd c) (new_task c) f.pipeline.have_no_data;
  };
  builder = emplaced c;
}

-- `haveNoDataEvents.AddEvent`
unfoldable pub add_event : HttpClient → Threads → Threads
add_event c f = record f {
  pipeline = record f.pipeline { events = get_sd c ∷ f.pipeline.events };
  builder = waiting;
}

-- The next step of `CreateTasks`.
unfoldable pub build_step : BuilderPc → Threads → Threads
unfolding dequeue_client emplace_task add_event
build_step waiting f = dequeue_client f.pipeline.unprocessed_clients f
build_step (dequeued c) f = emplace_task c f
build_step (emplaced c) f = add_event c f

-- The handler is called.
unfoldable pub call_handler : Sd → Bool → Threads → Threads
call_handler sd timed_out f = record f {
  controller = if timed_out then freeing_removed sd else reading sd;
}

-- behind `ReceiveInput`, which reads into the task in the map
unfoldable pub read_input : Sd → Task → Threads → Result (HttpClient × Bool) → Result Threads
unfolding write_task
read_input sd task f (ok (c, done)) = ok (record f {
  pipeline = record f.pipeline {
    have_no_data = write_task sd (record task { input = c }) f.pipeline.have_no_data;
  };
  controller = if done then freeing_moved sd else idle;
})
read_input sd task f (err undefined_behaviour) = err undefined_behaviour
read_input sd task f (err out_of_fuel) = err out_of_fuel
read_input sd task f (err e) = ok (record f { controller = freeing_removed sd })

-- `haveNoData.at(sd)` and `erase`, between `lock` and `unlock`
unfoldable pub erase_moved : Sd → Threads → Result Task → Result Threads
unfolding erase
erase_moved sd f (err e) = err undefined_behaviour
erase_moved sd f (ok task) = ok (record f {
  pipeline = record f.pipeline { have_no_data = erase sd f.pipeline.have_no_data };
  controller = enqueueing task;
})

-- The next step of the handler, with what the system answers to its reads. Where `at` throws, the
-- mutex stays locked, and the handler locks it again: undefined behaviour.
unfoldable pub control_step : Arrival → ControllerPc → Threads → Result Threads
unfolding read_input erase_moved find_task erase free_event
control_step a idle f = ok f
control_step a (reading sd) f = elim (find_task sd f.pipeline.have_no_data) [
  | ok task ↦ read_input sd task f (receive_client task.input a)
  | err e ↦ err undefined_behaviour
]
control_step a (freeing_moved sd) f = ok (record f {
  pipeline = record f.pipeline { events = free_event sd f.pipeline.events };
  controller = moving sd;
})
control_step a (moving sd) f = erase_moved sd f (find_task sd f.pipeline.have_no_data)
control_step a (enqueueing task) f = ok (record f {
  pipeline = record f.pipeline { have_data = f.pipeline.have_data ++ task ∷ [] };
  controller = idle;
})
control_step a (freeing_removed sd) f = ok (record f {
  pipeline = record f.pipeline { events = free_event sd f.pipeline.events };
  controller = removing sd;
})
control_step a (removing sd) f = ok (record f {
  pipeline = record f.pipeline { have_no_data = erase sd f.pipeline.have_no_data };
  controller = idle;
})

-- No task waits under the descriptor of a client that is about to be emplaced.
abbrev pub IsFresh : BuilderPc → List (Sd × Task) → Type 0
IsFresh (dequeued c) m = find_task (get_sd c) m ≡ err out_of_range
IsFresh _ m = Unit

-- A step of one of the threads. Only an event that has been added fires.
pub data Step (f : Threads) : Threads → Type 0 where
  accepted : (s : Option Connection) → Step f (record f { pipeline = accept_client s f.pipeline })
  built : IsFresh f.builder f.pipeline.have_no_data → Step f (build_step f.builder f)
  called :
      (sd : Sd) (timed_out : Bool)
      → f.controller ≡ idle
      → has_event sd f.pipeline.events ≡ true
      → Step f (call_handler sd timed_out f)
  handled : {f' : Threads} (a : Arrival) → control_step a f.controller f ≡ ok f' → Step f f'
  taken :
      (task : Task) (rest : List Task)
      → f.pipeline.have_data ≡ task ∷ rest
      → Step f (record f { pipeline = (take_task f.pipeline).1 })

abbrev pub at_start : Threads
at_start = record { pipeline = empty; builder = waiting; controller = idle }

pub data Reachable : Threads → Type 0 where
  started : {f : Threads} → f ≡ at_start → Reachable f
  stepped : {f f' : Threads} → Reachable f → Step f f' → Reachable f'
