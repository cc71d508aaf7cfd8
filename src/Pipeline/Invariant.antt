-- ===== src/Pipeline/Invariant.antt =====
-- What holds in every state that the pipeline can reach.
use technopark_highload.Pipeline.Entries.{erase-All, write_task-All, find_task-All}
use technopark_highload.Pipeline.Received.{
  IsWaiting, IsReady, receive_client-IsWaiting, receive_client-IsReady,
}
use technopark_highload.Pipeline.{
  Sd, Pipeline, find_task, erase, write_task, free_event, Arrival, receive_client, remove_task,
  pass_on, received, move_task,
}
use technopark_highload.Prelude.{
  ◌≡◌, refl, sym, ap, ◌∙◌, inl, inr, Bool, true, false, List, [], ◌∷◌, arith, All, All-append,
}
use technopark_highload.Result.{Error, ok, err, Result-cases, undefined_behaviour, out_of_fuel}
use technopark_highload.Worker.{Task}

abbrev pub keys : List (Sd × Task) → List Sd
keys [] = []
keys ((k, t) ∷ m) = k ∷ keys m

-- The events are those of the waiting tasks; no client is read before it is a task; of a waiting
-- task the header, once read, parses; the tasks of the workers are complete.
pub record IsSound (p : Pipeline) : Type 0 where
  pub keyed : p.events ≡ keys p.have_no_data
  pub new : All (λ c. c.received_header ≡ false) p.unprocessed_clients
  pub waiting : All (λ e. IsWaiting e.1.input) p.have_no_data
  pub ready : All (λ t. IsReady t.input) p.have_data

keys-erase : (sd : Sd) (m : List (Sd × Task)) → keys (erase sd m) ≡ free_event sd (keys m)
unfolding erase free_event
keys-erase sd [] = refl
keys-erase sd ((k, t) ∷ m) = ground (arith, keys-erase sd m)

pub keys-write_task :
    (sd : Sd) (t : Task) (m : List (Sd × Task)) → keys (write_task sd t m) ≡ keys m
unfolding write_task
keys-write_task sd new [] = refl
keys-write_task sd new ((k, t) ∷ m) = ground (arith, keys-write_task sd new m)

abbrev WaitsFor : Sd × Task → Type 0
WaitsFor e = IsWaiting e.1.input

module _ (sd : Sd) (p : Pipeline) (sound : IsSound p) where
  freed : free_event sd p.events ≡ keys (erase sd p.have_no_data)
  freed = ap (free_event sd) sound.keyed ∙ sym (keys-erase sd p.have_no_data)

  remove_task-IsSound : IsSound (remove_task sd p)
  unfolding remove_task
  remove_task-IsSound = record {
    keyed = freed;
    new = sound.new;
    waiting = erase-All WaitsFor sd p.have_no_data sound.waiting;
    ready = sound.ready;
  }

  pass_on-IsSound : (task : Task) → IsReady task.input → IsSound (pass_on sd task p)
  unfolding pass_on
  pass_on-IsSound task done = record {
    keyed = freed;
    new = sound.new;
    waiting = erase-All WaitsFor sd p.have_no_data sound.waiting;
    ready = All-append (λ t. IsReady t.input) p.have_data (task ∷ []) sound.ready (done, tt);
  }

  write_task-IsSound :
      (task : Task)
      → IsWaiting task.input
      → IsSound (record p { have_no_data = write_task sd task p.have_no_data })
  write_task-IsSound task waits = record {
    keyed = sound.keyed ∙ sym (keys-write_task sd task p.have_no_data);
    new = sound.new;
    waiting = write_task-All WaitsFor sd task p.have_no_data waits sound.waiting;
    ready = sound.ready;
  }

  received_error-IsSound :
      (task : Task) (x : Error) {p' : Pipeline} → received sd task p (err x) ≡ ok p' → IsSound p'
  unfolding received
  received_error-IsSound task undefined_behaviour e = cc
  received_error-IsSound task out_of_fuel e = cc
  received_error-IsSound task x {p' = p'} e =
      let same : remove_task sd p ≡ p' = ground arith in rw same at remove_task-IsSound

  received-IsSound :
      (task : Task) (a : Arrival) {p' : Pipeline}
      → IsWaiting task.input
      → received sd task p (receive_client task.input a) ≡ ok p'
      → IsSound p'
  unfolding received
  received-IsSound task a {p' = p'} waits e = elim (Result-cases (receive_client task.input a)) [
    | inl (x, thrown) ↦ received_error-IsSound task x (rw thrown at e)
    | inr ((c, true), read) ↦
        let task' = record task { input = c } in
        let same : pass_on sd task' p ≡ p' = ground arith in
        rw same at (pass_on-IsSound task' (receive_client-IsReady task.input a waits read))
    | inr ((c, false), read) ↦
        let task' = record task { input = c } in
        let same : record p { have_no_data = write_task sd task' p.have_no_data } ≡ p' =
          ground arith in
        rw same at (write_task-IsSound task' (receive_client-IsWaiting task.input a waits read))
  ]

  -- The handler of an event, whatever it ends in, keeps the pipeline sound.
  pub move_task-IsSound :
      (timed_out : Bool) (a : Arrival) {p' : Pipeline}
      → move_task sd timed_out a p ≡ ok p'
      → IsSound p'
  unfolding move_task
  move_task-IsSound true a {p' = p'} e =
      let same : remove_task sd p ≡ p' = ground arith in rw same at remove_task-IsSound
  move_task-IsSound false a e = elim (Result-cases (find_task sd p.have_no_data)) [
    | inl (x, missing) ↦ ground arith
    | inr (task, found) ↦
        received-IsSound task a (find_task-All WaitsFor sd p.have_no_data sound.waiting found)
          (ground arith)
  ]
