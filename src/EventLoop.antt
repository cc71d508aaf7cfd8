-- ===== src/EventLoop.antt =====
-- async/include/EventLoop.hpp: the thread that runs libevent's loop, the thread that adds an event,
-- and the two mutexes between them. Each position of a thread is a constructor, and each access to a
-- mutex or to the base of the events is one step.
pub mod Exclusion
pub mod Progress
pub mod Stopping
use technopark_highload.Pipeline.{Sd}
use technopark_highload.Prelude.{
  ◌≡◌, Bool, true, false, Option, none, some, List, ◌∷◌, if◌then◌else◌,
}

-- What the code relies on of libevent. `exiting` tells whether `event_base_loop` returns after the
-- callbacks that are active; `event_base_loopexit` asks for that, also of a loop that is not running
-- yet, and one return answers all that has been asked before it. Without being asked the loop never
-- returns, since it runs under `EVLOOP_NO_EXIT_ON_EMPTY`.
pub record EventBase : Type 1 where
  pub Base : Type 0
  pub exiting : Base → Bool
  pub loop_exit : Base → Base
  pub loop_return : Base → Base
  pub add : Sd → Base → Base
  pub free : Sd → Base → Base
  pub events : Base → List Sd
  pub exiting-loop_exit : (b : Base) → exiting (loop_exit b) ≡ true
  pub exiting-loop_return : (b : Base) → exiting (loop_return b) ≡ false
  pub exiting-add : (sd : Sd) (b : Base) → exiting (add sd b) ≡ exiting b
  pub exiting-free : (sd : Sd) (b : Base) → exiting (free sd b) ≡ exiting b
  pub events-loop_exit : (b : Base) → events (loop_exit b) ≡ events b
  pub events-loop_return : (b : Base) → events (loop_return b) ≡ events b
  pub events-add : (sd : Sd) (b : Base) → events (add sd b) ≡ sd ∷ events b

-- Where `RunLoop` stands: at the test of the `while`, before each `lock`, in `event_base_loop`,
-- behind it, between the last two statements, or at its end.
pub data LoopPc : Type 0 where
  testing locking_running looping returned locking_adding holding_adding finished : LoopPc

-- Where `AddEvent` stands: not called, before the first `lock`, behind it, before the second `lock`,
-- behind it, behind `event_add`, and between the two calls of `unlock`.
pub data AddPc : Type 0 where
  idle : AddPc
  locking_first holding_first locking_second holding_both event_added unlocking : Sd → AddPc

module _ (lib : EventBase) where
  open lib use {Base, exiting, loop_exit, loop_return, add, free}

  pub record EventLoop : Type 0 where
    pub base : Base
    pub stop : Bool
    pub running : Bool  -- `eventLoopRunningMutex` is locked
    pub adding : Bool  -- `addEventRunningMutex` is locked
    pub loop : LoopPc
    pub adder : AddPc

  -- the constructor
  unfoldable pub new_event_loop : Base → EventLoop
  new_event_loop b = record {
    base = b;
    stop = true;
    running = false;
    adding = false;
    loop = finished;
    adder = idle;
  }

  -- The next step of `RunLoop`; `none` while the thread waits.
  unfoldable pub run_loop_at : LoopPc → EventLoop → Option EventLoop
  run_loop_at testing s = some (record s { loop = if s.stop then finished else locking_running })
  run_loop_at locking_running s =
      if s.running then none else some (record s { running = true; loop = looping })
  run_loop_at looping s =
      if exiting s.base
      then some (record s { base = loop_return s.base; loop = returned })
      else none
  run_loop_at returned s = some (record s { running = false; loop = locking_adding })
  run_loop_at locking_adding s =
      if s.adding then none else some (record s { adding = true; loop = holding_adding })
  run_loop_at holding_adding s = some (record s { adding = false; loop = testing })
  run_loop_at finished s = none

  unfoldable pub run_loop : EventLoop → Option EventLoop
  unfolding run_loop_at
  run_loop s = run_loop_at s.loop s

  -- The next step of `AddEvent`; `none` while the thread waits, or where it has not been called.
  unfoldable pub add_event_at : AddPc → EventLoop → Option EventLoop
  add_event_at idle s = none
  add_event_at (locking_first sd) s =
      if s.adding then none else some (record s { adding = true; adder = holding_first sd })
  add_event_at (holding_first sd) s =
      some (record s { base = loop_exit s.base; adder = locking_second sd })
  add_event_at (locking_second sd) s =
      if s.running then none else some (record s { running = true; adder = holding_both sd })
  add_event_at (holding_both sd) s =
      some (record s { base = add sd s.base; adder = event_added sd })
  add_event_at (event_added sd) s = some (record s { adding = false; adder = unlocking sd })
  add_event_at (unlocking sd) s = some (record s { running = false; adder = idle })

  unfoldable pub add_event : EventLoop → Option EventLoop
  unfolding add_event_at
  add_event s = add_event_at s.adder s

  -- `FreeEvent`, which a callback calls inside `event_base_loop`
  unfoldable pub free_event : Sd → EventLoop → EventLoop
  free_event sd s = record s { base = free sd s.base }

  -- `StartLoop`, and `StopLoop` up to the `join`
  unfoldable pub start_loop : EventLoop → EventLoop
  start_loop s = if s.stop then record s { stop = false; loop = testing } else s

  unfoldable pub stop_loop : EventLoop → EventLoop
  stop_loop s = if s.stop then s else record s { stop = true }

  -- A step of one of the threads. The builder calls `AddEvent` when it is done with the last call;
  -- a loop is started again only when its thread has been joined.
  pub data Step (s : EventLoop) : EventLoop → Type 0 where
    loop_runs : {t : EventLoop} → run_loop s ≡ some t → Step s t
    add_runs : {t : EventLoop} → add_event s ≡ some t → Step s t
    called : (sd : Sd) → s.adder ≡ idle → Step s (record s { adder = locking_first sd })
    freed : (sd : Sd) → s.loop ≡ looping → Step s (free_event sd s)
    started : s.loop ≡ finished → Step s (start_loop s)
    stopped : Step s (stop_loop s)

  pub data Reachable (b : Base) : EventLoop → Type 0 where
    made : Reachable b (new_event_loop b)
    next : {s t : EventLoop} → Reachable b s → Step s t → Reachable b t
