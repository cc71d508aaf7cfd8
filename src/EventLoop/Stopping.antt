-- ===== src/EventLoop/Stopping.antt =====
-- `StopLoop` sets `stop` and joins the loop's thread, but asks the loop for nothing.
use technopark_highload.EventLoop.{
  EventBase, looping, EventLoop, run_loop_at, run_loop, free_event, stop_loop,
}
use technopark_highload.Pipeline.{Sd}
use technopark_highload.Prelude.{◌≡◌, false, some, arith}

module _ (lib : EventBase) where
  open lib use {exiting, exiting-free}

  -- What goes on when no event is added any more: the loop's thread, its callbacks, and calls of
  -- `StopLoop`.
  pub data Quiet (s : EventLoop lib) : EventLoop lib → Type 0 where
    here : Quiet s s
    then_loop : {t u : EventLoop lib} → Quiet s t → run_loop lib t ≡ some u → Quiet s u
    then_freed : {t : EventLoop lib} (sd : Sd) → Quiet s t → Quiet s (free_event lib sd t)
    then_stopped : {t : EventLoop lib} → Quiet s t → Quiet s (stop_loop lib t)

  -- If the loop runs and has not been asked to return, and no event is added any more, its thread
  -- never gets out of `event_base_loop`, whatever its callbacks do and however often `StopLoop` is
  -- called: the `join` in `StopLoop` waits for ever.
  pub Quiet-loops :
      {s t : EventLoop lib}
      → s.loop ≡ looping
      → exiting s.base ≡ false
      → Quiet s t
      → (t.loop ≡ looping) × (exiting t.base ≡ false)
  unfolding run_loop run_loop_at free_event stop_loop
  Quiet-loops runs unasked here = (runs, unasked)
  Quiet-loops runs unasked (then_loop before r) =
      let (still, quiet) = Quiet-loops runs unasked before in ground arith
  Quiet-loops runs unasked (then_freed {t} sd before) =
      let (still, quiet) = Quiet-loops runs unasked before in ground (arith, exiting-free sd t.base)
  Quiet-loops runs unasked (then_stopped before) =
      let (still, quiet) = Quiet-loops runs unasked before in ground arith
