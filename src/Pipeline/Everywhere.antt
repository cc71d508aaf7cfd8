-- ===== src/Pipeline/Everywhere.antt =====
-- What holds of a new client, and is kept by `ReceiveInput`, holds of every client in the pipeline.
pub mod Sizes
pub mod Bounds
use technopark_highload.Client.{HttpClient, Connection, new_client}
use technopark_highload.Pipeline.Entries.{erase-All, write_task-All, find_task-All}
use technopark_highload.Pipeline.Reachability.{
  Step, accepted, created, fired, taken, Reachable, started, stepped,
}
use technopark_highload.Pipeline.{
  Sd, Pipeline, empty, find_task, erase, write_task, emplace, get_sd, accept_client, create_task,
  Arrival, receive_client, received, pass_on, remove_task, move_task, take_task,
}
use technopark_highload.Prelude.{
  ◌≡◌, refl, inl, inr, arith, Bool, true, false, List, List-cases, [], ◌∷◌, Option, All, All-append,
}
use technopark_highload.Result.{
  Result, ok, err, out_of_range, undefined_behaviour, out_of_fuel, Result-cases,
}
use technopark_highload.Worker.{Task, new_task}

-- The clients that wait for the builder, for their input, and for a worker.
pub record Everywhere (P : HttpClient → Type 0) (p : Pipeline) : Type 0 where
  pub unprocessed : All P p.unprocessed_clients
  pub unread : All (λ (e : Sd × Task). P e.1.input) p.have_no_data
  pub ready : All (λ (t : Task). P t.input) p.have_data

module _ (P : HttpClient → Type 0) (new : (s : Option Connection) → P (new_client s))
    (kept : (c c' : HttpClient) (a : Arrival) (done : Bool)
      → P c
      → receive_client c a ≡ ok (c', done)
      → P c') where
  abbrev IsEntry : Sd × Task → Type 0
  IsEntry e = P e.1.input

  remove_task-Everywhere :
      (sd : Sd) (p : Pipeline) → Everywhere P p → Everywhere P (remove_task sd p)
  unfolding remove_task
  remove_task-Everywhere sd p h = record {
    unprocessed = h.unprocessed;
    unread = erase-All IsEntry sd p.have_no_data h.unread;
    ready = h.ready;
  }

  pass_on-Everywhere :
      (sd : Sd) (task : Task) (p : Pipeline)
      → Everywhere P p
      → P task.input
      → Everywhere P (pass_on sd task p)
  unfolding pass_on
  pass_on-Everywhere sd task p h here = record {
    unprocessed = h.unprocessed;
    unread = erase-All IsEntry sd p.have_no_data h.unread;
    ready = All-append (λ (t : Task). P t.input) p.have_data (task ∷ []) h.ready (here, tt);
  }

  write_task-Everywhere :
      (sd : Sd) (task : Task) (p : Pipeline)
      → Everywhere P p
      → P task.input
      → Everywhere P (record p { have_no_data = write_task sd task p.have_no_data })
  write_task-Everywhere sd task p h here = record {
    unprocessed = h.unprocessed;
    unread = write_task-All IsEntry sd task p.have_no_data here h.unread;
    ready = h.ready;
  }

  received-Everywhere :
      (sd : Sd) (task : Task) (p : Pipeline) (a : Arrival) {p' : Pipeline}
      → Everywhere P p
      → P task.input
      → (r : Result (HttpClient × Bool)) → receive_client task.input a ≡ r
      → received sd task p r ≡ ok p'
      → Everywhere P p'
  unfolding received
  received-Everywhere sd task p a {p' = p'} h here (ok (c, true)) read e =
      let there : P c = kept task.input c a true here read in
      let same : pass_on sd (record task { input = c }) p ≡ p' = ground arith in
      rw same at (pass_on-Everywhere sd (record task { input = c }) p h there)
  received-Everywhere sd task p a {p' = p'} h here (ok (c, false)) read e =
      let there : P c = kept task.input c a false here read in
      let task' = record task { input = c } in
      let same : record p { have_no_data = write_task sd task' p.have_no_data } ≡ p' =
        ground arith in
      rw same at (write_task-Everywhere sd task' p h there)
  received-Everywhere sd task p a h here (err undefined_behaviour) read e = cc
  received-Everywhere sd task p a h here (err out_of_fuel) read e = cc
  received-Everywhere sd task p a {p' = p'} h here (err x) read e =
      let same : remove_task sd p ≡ p' = ground arith in rw same at (remove_task-Everywhere sd p h)

  move_task-Everywhere :
      (sd : Sd) (timed_out : Bool) (a : Arrival) (p : Pipeline) {p' : Pipeline}
      → Everywhere P p
      → move_task sd timed_out a p ≡ ok p'
      → Everywhere P p'
  unfolding move_task
  move_task-Everywhere sd true a p {p' = p'} h e =
      let same : remove_task sd p ≡ p' = ground arith in rw same at (remove_task-Everywhere sd p h)
  move_task-Everywhere sd false a p h e = elim (Result-cases (find_task sd p.have_no_data)) [
    | inl (x, missing) ↦ ground arith
    | inr (task, found) ↦
        received-Everywhere sd task p a h (find_task-All IsEntry sd p.have_no_data h.unread found)
          (receive_client task.input a) refl (ground arith)
  ]

  Step-Everywhere : {p p' : Pipeline} → Everywhere P p → Step p p' → Everywhere P p'
  unfolding accept_client create_task emplace take_task
  Step-Everywhere h (accepted s p) = record {
    unprocessed = All-append P p.unprocessed_clients _ h.unprocessed (new s, tt);
    unread = h.unread;
    ready = h.ready;
  }
  Step-Everywhere h (created p c rest front fresh) =
      let clients : All P (c ∷ rest) = rw front at h.unprocessed in
      rw (create_task, front)
        (rw (emplace, fresh)
          (record { unprocessed = clients.1; unread = (clients.0, h.unread); ready = h.ready }))
  Step-Everywhere {p = p} h (fired sd timed_out a e) = move_task-Everywhere sd timed_out a p h e
  Step-Everywhere h (taken p) = elim (List-cases p.have_data) [
    | inl none_left ↦ rw (take_task, none_left) h
    | inr (t, ts, front) ↦
        let tasks : All (λ (u : Task). P u.input) (t ∷ ts) = rw front at h.ready in
        rw (take_task, front)
          (record { unprocessed = h.unprocessed; unread = h.unread; ready = tasks.1 })
  ]

  pub Reachable-Everywhere : {p : Pipeline} → Reachable p → Everywhere P p
  Reachable-Everywhere started = record { unprocessed = tt; unread = tt; ready = tt }
  Reachable-Everywhere (stepped before step) = Step-Everywhere (Reachable-Everywhere before) step
