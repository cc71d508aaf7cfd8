-- ===== src/EventLoop/Exclusion.antt =====
-- Who holds the two mutexes, and that no event is added while libevent's loop runs.
use technopark_highload.EventLoop.{
  EventBase, LoopPc, testing, locking_running, looping, returned, locking_adding, holding_adding,
  finished, AddPc, idle, locking_first, holding_first, locking_second, holding_both, event_added,
  unlocking, EventLoop, new_event_loop, run_loop_at, run_loop, add_event_at, add_event, free_event,
  start_loop, stop_loop, Step, loop_runs, add_runs, called, freed, started, stopped, Reachable,
  made, next,
}
use technopark_highload.Pipeline.{Sd}
use technopark_highload.Prelude.{◌≡◌, refl, Bool, true, false, not, ◌&&◌, ◌||◌, some, arith}

-- whether the thread holds `eventLoopRunningMutex`
abbrev pub loop_running : LoopPc → Bool
loop_running looping = true
loop_running returned = true
loop_running _ = false

abbrev pub adder_running : AddPc → Bool
adder_running (holding_both _) = true
adder_running (event_added _) = true
adder_running (unlocking _) = true
adder_running _ = false

-- whether the thread holds `addEventRunningMutex`
abbrev pub loop_adding : LoopPc → Bool
loop_adding holding_adding = true
loop_adding _ = false

abbrev pub adder_adding : AddPc → Bool
adder_adding (holding_first _) = true
adder_adding (locking_second _) = true
adder_adding (holding_both _) = true
adder_adding (event_added _) = true
adder_adding _ = false

abbrev pub waits_second : AddPc → Bool
waits_second (locking_second _) = true
waits_second _ = false

-- not between a return of `event_base_loop` and the wait for the adder's mutex
abbrev pub may_loop : LoopPc → Bool
may_loop returned = false
may_loop locking_adding = false
may_loop _ = true

module _ (lib : EventBase) where
  open lib use {Base, exiting, exiting-loop_exit, exiting-loop_return, exiting-add, exiting-free}

  -- Each mutex is locked exactly while one of the threads holds it, and never by both. While an
  -- `AddEvent` waits for the loop, the loop has been asked to return or does not start any more.
  pub record IsExclusive (s : EventLoop lib) : Type 0 where
    pub running_held : s.running ≡ loop_running s.loop || adder_running s.adder
    pub running_once : loop_running s.loop && adder_running s.adder ≡ false
    pub adding_held : s.adding ≡ loop_adding s.loop || adder_adding s.adder
    pub adding_once : loop_adding s.loop && adder_adding s.adder ≡ false
    pub asked : waits_second s.adder && may_loop s.loop && not (exiting s.base) ≡ false

  run_loop_at-IsExclusive :
      (pc : LoopPc) (s : EventLoop lib) {t : EventLoop lib}
      → s.loop ≡ pc
      → run_loop_at lib pc s ≡ some t
      → IsExclusive s
      → IsExclusive t
  unfolding run_loop_at
  run_loop_at-IsExclusive testing s e r h = ground (arith, exiting-loop_return s.base)
  run_loop_at-IsExclusive locking_running s e r h = ground (arith, exiting-loop_return s.base)
  run_loop_at-IsExclusive looping s e r h = ground (arith, exiting-loop_return s.base)
  run_loop_at-IsExclusive returned s e r h = ground (arith, exiting-loop_return s.base)
  run_loop_at-IsExclusive locking_adding s e r h = ground (arith, exiting-loop_return s.base)
  run_loop_at-IsExclusive holding_adding s e r h = ground (arith, exiting-loop_return s.base)
  run_loop_at-IsExclusive finished s e r h = ground (arith, exiting-loop_return s.base)

  add_event_at-IsExclusive :
      (pc : AddPc) (s : EventLoop lib) {t : EventLoop lib}
      → s.adder ≡ pc
      → add_event_at lib pc s ≡ some t
      → IsExclusive s
      → IsExclusive t
  unfolding add_event_at
  add_event_at-IsExclusive idle s e r h = ground arith
  add_event_at-IsExclusive (locking_first sd) s e r h = ground (arith)
  add_event_at-IsExclusive (holding_first sd) s e r h = ground (arith, exiting-loop_exit s.base)
  add_event_at-IsExclusive (locking_second sd) s e r h = ground (arith)
  add_event_at-IsExclusive (holding_both sd) s e r h = ground (arith, exiting-add sd s.base)
  add_event_at-IsExclusive (event_added sd) s e r h = ground (arith)
  add_event_at-IsExclusive (unlocking sd) s e r h = ground (arith)

  -- Every step keeps the mutexes exclusive.
  pub Step-IsExclusive : {s t : EventLoop lib} → Step lib s t → IsExclusive s → IsExclusive t
  unfolding run_loop add_event free_event start_loop stop_loop
  Step-IsExclusive {s} (loop_runs r) h = run_loop_at-IsExclusive s.loop s refl r h
  Step-IsExclusive {s} (add_runs r) h = add_event_at-IsExclusive s.adder s refl r h
  Step-IsExclusive (called sd e) h = ground arith
  Step-IsExclusive {s} (freed sd e) h = ground (arith, exiting-free sd s.base)
  Step-IsExclusive (started e) h = ground arith
  Step-IsExclusive stopped h = ground arith

  pub Reachable-IsExclusive : {b : Base} {s : EventLoop lib} → Reachable lib b s → IsExclusive s
  unfolding new_event_loop
  Reachable-IsExclusive made = ground arith
  Reachable-IsExclusive (next before step) = Step-IsExclusive step (Reachable-IsExclusive before)

  -- In every state that can be reached, an event is added to the base only while the event loop
  -- is not running: never inside `event_base_loop`, nor between it and the unlocking of its mutex.
  pub event_add_excludes_loop :
      {b : Base} {s : EventLoop lib} (sd : Sd)
      → Reachable lib b s
      → s.adder ≡ holding_both sd
      → loop_running s.loop ≡ false
  event_add_excludes_loop sd reached e = ground (arith, Reachable-IsExclusive reached)
