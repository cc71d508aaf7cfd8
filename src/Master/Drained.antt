-- ===== src/Master/Drained.antt =====
-- What is left when the server has been stopped.
use technopark_highload.Master.{
  Master, StopPc, at_rest, stopping_listeners, waiting_clients, stopping_builder, waiting_tasks,
  stopping_controller, waiting_again, stopping_workers, start, start_builder, start_controller,
  stop_builder, stop_controller, call_stop, stop_step, Step, accepted, created, fired, worked,
  started, stop_called, stopping, Reachable, made, next,
}
use technopark_highload.Pipeline.Invariant.{keys}
use technopark_highload.Pipeline.Reachability
use technopark_highload.Pipeline.Reachability.{Reachable-IsSound, stepped}
use technopark_highload.Prelude.{
  ℕ, ◌≡◌, ap, ◌∙◌, ◌⊎◌, inl, inr, true, false, some, List, [], is_nil_eq, arith, Bytes,
}
use technopark_highload.Result.{Result}
use technopark_highload.Socket.Open.{Socket}
use technopark_highload.Master.Stopping.{
  any_works-append, IsDraining, new_master_lem, Reachable-IsDraining,
}

stop_step-pipeline :
    (pc : StopPc) (m : Master) {m' : Master} → stop_step pc m ≡ some m' → m'.pipeline ≡ m.pipeline
unfolding stop_step stop_builder stop_controller
stop_step-pipeline at_rest m e = cc
stop_step-pipeline stopping_listeners m e = ground arith
stop_step-pipeline waiting_clients m e = ground arith
stop_step-pipeline stopping_builder m e = ground arith
stop_step-pipeline waiting_tasks m e = ground arith
stop_step-pipeline stopping_controller m e = ground arith
stop_step-pipeline waiting_again m e = ground arith
stop_step-pipeline stopping_workers m e = ground arith

-- A step of the server is one of the pipeline, or leaves it alone.
Step-pipeline :
    {m m' : Master}
    → Step m m'
    → Reachability.Step m.pipeline m'.pipeline ⊎ (m'.pipeline ≡ m.pipeline)
unfolding start start_builder start_controller call_stop
Step-pipeline {m} (accepted on s) = inl (Reachability.accepted s m.pipeline)
Step-pipeline {m} (created on c rest front fresh) =
    inl (Reachability.created m.pipeline c rest front fresh)
Step-pipeline (fired on sd timed_out a e) = inl (Reachability.fired sd timed_out a e)
Step-pipeline {m} (worked before after w w' e on) = inl (Reachability.taken m.pipeline)
Step-pipeline (started rest) = inr (ground arith)
Step-pipeline (stop_called rest) = inr (ground arith)
Step-pipeline {m} (stopping e) = inr (stop_step-pipeline m.stop_at m e)

Reachable-pipeline :
    {listen : ℕ → Result Socket} {ports : List (Bytes × ℕ)} {amount : ℕ} {m : Master}
    → Reachable listen ports amount m
    → Reachability.Reachable m.pipeline
Reachable-pipeline {listen} {ports} {amount} (made e) =
    rw ((new_master_lem listen ports amount e).0) Reachability.started
Reachable-pipeline (next before step) = elim (Step-pipeline step) [
  | inl one ↦ stepped (Reachable-pipeline before) one
  | inr same ↦ rw same (Reachable-pipeline before)
]

Step-pipeline_same :
    {m m' : Master}
    → IsDraining m
    → m.stop_at ≡ at_rest
    → m.stop ≡ true
    → Step m m'
    → (m'.stop ≡ false) ⊎ (m'.pipeline ≡ m.pipeline)
unfolding start start_builder start_controller call_stop
Step-pipeline_same h rest off (accepted on s) = absurd (ground arith)
Step-pipeline_same h rest off (created on c more front fresh) = absurd (ground arith)
Step-pipeline_same h rest off (fired on sd timed_out a e) = absurd (ground arith)
Step-pipeline_same h rest off (worked before after w w' e on) =
    absurd (ground (arith, any_works-append before after w on))
Step-pipeline_same h rest off (started at) = inl (ground arith)
Step-pipeline_same h rest off (stop_called at) = inr (ground arith)
Step-pipeline_same {m} h rest off (stopping e) = inr (stop_step-pipeline m.stop_at m e)

-- In every state that the server can reach with `Stop` not under way, if it is stopped: no client
-- waits for the builder, no task waits for data and no event is left; and until the next `Start` no
-- thread makes a step that changes the queues, the map or the events, so that a task that is still
-- in the queue of the workers then is not taken.
pub stopped_drained :
    {listen : ℕ → Result Socket} {ports : List (Bytes × ℕ)} {amount : ℕ} {m : Master}
    → Reachable listen ports amount m
    → m.stop_at ≡ at_rest
    → m.stop ≡ true
    → (m.pipeline.unprocessed_clients ≡ [])
      × (m.pipeline.have_no_data ≡ [])
      × (m.pipeline.events ≡ [])
      × ((m' : Master) → Step m m' → (m'.stop ≡ false) ⊎ (m'.pipeline ≡ m.pipeline))
stopped_drained {m = m} reached rest off =
    let sound = Reachable-IsSound (Reachable-pipeline reached) in
    let h = Reachable-IsDraining _ _ _ reached in
    let none_wait : m.pipeline.have_no_data ≡ [] = is_nil_eq _ (ground arith) in
    (
      is_nil_eq _ (ground arith),
      none_wait,
      sound.keyed ∙ ap keys none_wait,
      λ m' step. Step-pipeline_same h rest off step,
    )
