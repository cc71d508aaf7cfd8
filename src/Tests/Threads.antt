-- ===== src/Tests/Threads.antt =====
-- A handler that has read its input while the builder brings a second client.
use technopark_highload.Client.{HttpClient, new_client}
use technopark_highload.Pipeline.Handled.{has_event}
use technopark_highload.Pipeline.Threads.Atomic.{Refines}
use technopark_highload.Pipeline.Threads.Handling.{IsHandled}
use technopark_highload.Pipeline.Threads.Interleaved.{Reachable-Refines, Reachable-IsHandled}
use technopark_highload.Pipeline.Threads.{
  Threads, Reachable, started, stepped, accepted, built, called, handled, at_start, build_step,
  dequeue_client, emplace_task, add_event, call_handler, erase_moved, read_input, control_step,
  waiting, emplaced, idle, reading, freeing_moved,
}
use technopark_highload.Pipeline.Received.{IsReady}
use technopark_highload.Pipeline.{
  same_sd, find_task, emplace, erase, free_event, write_task, accept_client,
}
use technopark_highload.Prelude.{◌≡◌, refl, false, some, [], ◌∷◌, All}
use technopark_highload.Result.{ok}
use technopark_highload.Tests.Pipeline.{peer, request, done, receive_run}
use technopark_highload.Worker.{new_task}

abbrev pub second : HttpClient
unfolding new_client
second = new_client (some (record { sd = 8; port = 80 }))

-- behind the first client's event, with the second client in the queue
abbrev waits : Threads
unfolding new_client
waits = record {
  pipeline = record {
    unprocessed_clients = second ∷ [];
    have_no_data = (some 7, new_task (new_client (some peer))) ∷ [];
    events = some 7 ∷ [];
    have_data = [];
  };
  builder = waiting;
  controller = idle;
}

waits_Reachable : Reachable waits
unfolding accept_client new_client build_step dequeue_client emplace_task add_event emplace
    find_task
waits_Reachable =
    stepped
      (stepped
        (stepped (stepped (stepped (started {f = at_start} refl) (accepted (some peer))) (built tt))
          (built refl))
        (built tt))
      (accepted (some (record { sd = 8; port = 80 })))

abbrev called_state : Threads
called_state = record waits { controller = reading (some 7) }

read_run :
    control_step request (reading (some 7)) called_state
    ≡ ok (record called_state {
      pipeline = record called_state.pipeline { have_no_data = (some 7, done) ∷ [] };
      controller = freeing_moved (some 7);
    })
unfolding control_step read_input find_task write_task same_sd new_client
read_run = rw (control_step, receive_run) refl

-- The input is complete but still in the map, and the second client has no event yet.
abbrev both : Threads
both = record {
  pipeline = record {
    unprocessed_clients = [];
    have_no_data = (some 8, new_task second) ∷ (some 7, done) ∷ [];
    events = some 7 ∷ [];
    have_data = [];
  };
  builder = emplaced second;
  controller = freeing_moved (some 7);
}

both_Reachable : Reachable both
unfolding new_client build_step dequeue_client emplace_task emplace find_task same_sd has_event
    call_handler
both_Reachable =
    stepped
      (stepped
        (stepped (stepped waits_Reachable (called (some 7) false refl refl))
          (handled request read_run))
        (built tt))
      (built refl)

Reachable-Refines_example : Refines both
Reachable-Refines_example = Reachable-Refines both_Reachable

Reachable-IsHandled_example :
    IsHandled request both × All (λ t. IsReady t.input) both.pipeline.have_data
Reachable-IsHandled_example = Reachable-IsHandled request both_Reachable

-- The handler has passed the first client on; the second has its event.
abbrev pub queued : Threads
queued = record {
  pipeline = record {
    unprocessed_clients = [];
    have_no_data = (some 8, new_task second) ∷ [];
    events = some 8 ∷ [];
    have_data = done ∷ [];
  };
  builder = waiting;
  controller = idle;
}

pub queued_Reachable : Reachable queued
unfolding new_client build_step add_event control_step erase_moved erase find_task free_event
    same_sd
queued_Reachable =
    stepped
      (stepped (stepped (stepped both_Reachable (handled request refl)) (built tt))
        (handled request refl))
      (handled request refl)
