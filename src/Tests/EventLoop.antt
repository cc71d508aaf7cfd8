-- ===== src/Tests/EventLoop.antt =====
-- The event loop over a base that remembers whether it has been asked to return.
use technopark_highload.EventLoop
use technopark_highload.EventLoop.Exclusion.{event_add_excludes_loop, loop_running}
use technopark_highload.EventLoop.Progress.{
  Work, here, then_works, add_works, rank, with_added, Works-end,
}
use technopark_highload.EventLoop.Stopping
use technopark_highload.EventLoop.Stopping.{Quiet, then_freed, then_stopped, Quiet-loops}
use technopark_highload.EventLoop.{
  EventBase, LoopPc, looping, locking_running, AddPc, idle, locking_first, holding_both, Step,
  loop_runs, add_runs, called, started, Reachable, made, next, run_loop, run_loop_at, add_event,
  add_event_at, new_event_loop, start_loop, stop_loop, free_event,
}
use technopark_highload.Pipeline
use technopark_highload.Pipeline.{Sd, same_sd}
use technopark_highload.Prelude.{◌≡◌, ◌≤◌, ◌⊎◌, refl, Bool, true, false, some, List, [], ◌∷◌}

abbrev pub remembering : EventBase
remembering = record {
  Base = Bool × List Sd;
  exiting = λ b. b.0;
  loop_exit = λ b. (true, b.1);
  loop_return = λ b. (false, b.1);
  add = λ sd b. (b.0, sd ∷ b.1);
  free = λ sd b. (b.0, Pipeline.free_event sd b.1);
  events = λ b. b.1;
  exiting-loop_exit = λ b. refl;
  exiting-loop_return = λ b. refl;
  exiting-add = λ sd b. refl;
  exiting-free = λ sd b. refl;
  events-loop_exit = λ b. refl;
  events-loop_return = λ b. refl;
  events-add = λ sd b. refl;
}

abbrev State : Type 0
State = EventLoop.EventLoop remembering

-- the loop runs, and a call for descriptor 7 has been made
abbrev calling : State
calling = record {
  base = (false, some 5 ∷ []);
  stop = false;
  running = true;
  adding = false;
  loop = looping;
  adder = locking_first (some 7);
}

abbrev start_base : Bool × List Sd
start_base = (false, some 5 ∷ [])

calling-Reachable : Reachable remembering start_base calling
unfolding run_loop start_loop new_event_loop
calling-Reachable =
    next (next (next (next made (started refl)) (loop_runs refl)) (loop_runs refl))
      (called (some 7) refl)

abbrev adding_event : State
adding_event = record {
  base = (false, some 5 ∷ []);
  stop = false;
  running = true;
  adding = true;
  loop = EventLoop.locking_adding;
  adder = holding_both (some 7);
}

adding_event-Reachable : Reachable remembering start_base adding_event
unfolding run_loop add_event
adding_event-Reachable =
    next
      (next (next (next (next calling-Reachable (add_runs refl)) (add_runs refl)) (loop_runs refl))
        (loop_runs refl))
      (add_runs refl)

event_add_excludes_loop_example : loop_running adding_event.loop ≡ false
event_add_excludes_loop_example =
    event_add_excludes_loop remembering (some 7) adding_event-Reachable refl

abbrev asked : State
asked = record calling {
  base = (true, some 5 ∷ []);
  adding = true;
  adder = EventLoop.locking_second (some 7);
}

Works-end_example :
    (2 ≤ rank remembering calling)
    × (((asked.adder ≡ idle) × (asked.base.1 ≡ with_added (locking_first (some 7)) (some 5 ∷ [])))
        ⊎ ((u : State) × Work remembering asked u))
unfolding add_event
Works-end_example =
    Works-end remembering {t = asked} calling-Reachable
      (then_works (then_works here (add_works refl)) (add_works refl))

Quiet-loops_example :
    ((stop_loop remembering (record calling { adder = idle })).loop ≡ looping)
    × ((stop_loop remembering (record calling { adder = idle })).base.0 ≡ false)
Quiet-loops_example =
    Quiet-loops remembering {s = record calling { adder = idle }} refl refl
      (then_stopped Stopping.here)
