-- ===== src/Pipeline/Conserved/Steps.antt =====
-- Every step keeps the account of the clients.
use technopark_highload.Client.{HttpClient, Connection, new_client}
use technopark_highload.Pipeline.Conserved.Counting.{
  one, count, client_sds, task_sds, count-client_sds, count-task_sds, count-erase, erase-absent,
  IsOwned, Owns, receive_client-get_sd,
}
use technopark_highload.Pipeline.Conserved.{
  removes, fate, fate_of, Log, log_fate, log_taken, log_step, Logged, begun, next,
}
use technopark_highload.Pipeline.Entries.{erase-All, write_task-All, find_task-All}
use technopark_highload.Pipeline.Invariant.{keys, keys-write_task}
use technopark_highload.Pipeline.Reachability.{Step, accepted, created, fired, taken}
use technopark_highload.Pipeline.{
  Sd, Pipeline, find_task, write_task, emplace, get_sd, accept_client, create_task, Arrival,
  receive_client, received, pass_on, remove_task, move_task, take_task,
}
use technopark_highload.Prelude.{
  List-cases, ◌+◌, ◌≡◌, refl, ap, ◌∙◌, inl, inr, arith, Bool, true, false, List, ◌∷◌, Option,
}
use technopark_highload.Result.{
  Error, Result, ok, err, out_of_range, undefined_behaviour, out_of_fuel, Result-cases,
}
use technopark_highload.Worker.{Task}

-- Each client that has been accepted is in one place, once: it waits for the builder, for its input
-- or for a worker, or has been taken by a worker, or removed.
pub record IsConserved (l : Log) (p : Pipeline) : Type 0 where
  pub owned : IsOwned p.have_no_data
  pub account :
      (k : Sd)
      → count k l.accepted_clients
        ≡ count k (client_sds p.unprocessed_clients)
          + (count k (keys p.have_no_data)
              + (count k (task_sds p.have_data)
                  + (count k l.taken_tasks + count k l.removed_tasks)))

accept_client-IsConserved :
    (s : Option Connection) (l : Log) (p : Pipeline)
    → IsConserved l p
    → IsConserved
        (record l { accepted_clients = get_sd (new_client s) ∷ l.accepted_clients })
        (accept_client s p)
unfolding accept_client
accept_client-IsConserved s l p h = record {
  owned = h.owned;
  account =
      λ k. omega (arith, h.account k, count-client_sds k p.unprocessed_clients (new_client s));
}

create_task-IsConserved :
    (c : HttpClient) (rest : List HttpClient) (l : Log) (p : Pipeline)
    → p.unprocessed_clients ≡ c ∷ rest
    → find_task (get_sd c) p.have_no_data ≡ err out_of_range
    → IsConserved l p
    → IsConserved l (create_task p)
unfolding create_task emplace
create_task-IsConserved c rest l p front fresh h =
    rw (create_task, front)
      (rw (emplace, fresh)
        (record {
          owned = (refl, h.owned);
          account = λ k.
              let before = ap (λ cs. count k (client_sds cs)) front in
              omega (arith, h.account k, before);
        }))

module _ (sd : Sd) (l : Log) (p : Pipeline) (h : IsConserved l p) where
  remove_task-IsConserved :
      {t : Task}
      → find_task sd p.have_no_data ≡ ok t
      → IsConserved (log_fate removes sd l) (remove_task sd p)
  unfolding remove_task
  remove_task-IsConserved {t = t} found = record {
    owned = erase-All Owns sd p.have_no_data h.owned;
    account = λ k. omega (arith, h.account k, count-erase k sd p.have_no_data found);
  }

  absent-IsConserved :
      {x : Error} → find_task sd p.have_no_data ≡ err x → IsConserved l (remove_task sd p)
  unfolding remove_task
  absent-IsConserved {x = x} absent =
      rw (remove_task, erase-absent sd p.have_no_data {e = x} absent)
        (record { owned = h.owned; account = h.account })

  pass_on-IsConserved :
      (c : HttpClient) {t : Task}
      → find_task sd p.have_no_data ≡ ok t
      → get_sd c ≡ sd
      → IsConserved l (pass_on sd (record t { input = c }) p)
  unfolding pass_on
  pass_on-IsConserved c {t = t} found own = record {
    owned = erase-All Owns sd p.have_no_data h.owned;
    account = λ k.
        let same = ap (one k) own in
        omega (
          arith,
          h.account k,
          count-erase k sd p.have_no_data found,
          count-task_sds k p.have_data (record t { input = c }),
          same,
        );
  }

  write_task-IsConserved :
      (t : Task)
      → get_sd t.input ≡ sd
      → IsConserved l (record p { have_no_data = write_task sd t p.have_no_data })
  write_task-IsConserved t own = record {
    owned = write_task-All Owns sd t p.have_no_data own h.owned;
    account = λ k.
        let same = ap (count k) (keys-write_task sd t p.have_no_data) in
        omega (arith, h.account k, same);
  }

  received-IsConserved :
      (task : Task) (a : Arrival) {p' : Pipeline}
      → find_task sd p.have_no_data ≡ ok task
      → (r : Result (HttpClient × Bool)) → receive_client task.input a ≡ r
      → received sd task p r ≡ ok p'
      → IsConserved (log_fate (fate_of r) sd l) p'
  unfolding received
  received-IsConserved task a {p' = p'} found (ok (c, true)) read e =
      let same : pass_on sd (record task { input = c }) p ≡ p' = ground arith in
      let own =
        receive_client-get_sd task.input a read
        ∙ find_task-All Owns sd p.have_no_data h.owned found in
      rw same at (pass_on-IsConserved c found own)
  received-IsConserved task a {p' = p'} found (ok (c, false)) read e =
      let new = record task { input = c } in
      let same : record p { have_no_data = write_task sd new p.have_no_data } ≡ p' = ground arith in
      let own =
        receive_client-get_sd task.input a read
        ∙ find_task-All Owns sd p.have_no_data h.owned found in
      rw same at (write_task-IsConserved new own)
  received-IsConserved task a found (err undefined_behaviour) read e = cc
  received-IsConserved task a found (err out_of_fuel) read e = cc
  received-IsConserved task a {p' = p'} found (err x) read e =
      let same : remove_task sd p ≡ p' = ground arith in rw same at (remove_task-IsConserved found)

  move_task-IsConserved :
      (timed_out : Bool) (a : Arrival) {p' : Pipeline}
      → move_task sd timed_out a p ≡ ok p'
      → IsConserved (log_fate (fate sd timed_out a p) sd l) p'
  unfolding move_task
  move_task-IsConserved true a {p' = p'} e = elim (Result-cases (find_task sd p.have_no_data)) [
    | inr (task, found) ↦
        let same : remove_task sd p ≡ p' = ground arith in
        rw (fate, found) (rw same at (remove_task-IsConserved found))
    | inl (x, absent) ↦
        let same : remove_task sd p ≡ p' = ground arith in
        rw (fate, absent) (rw same at (absent-IsConserved absent))
  ]
  move_task-IsConserved false a {p' = p'} e = elim (Result-cases (find_task sd p.have_no_data)) [
    | inl (x, absent) ↦ ground arith
    | inr (task, found) ↦
        rw (fate, found)
          (received-IsConserved task a found (receive_client task.input a) refl (ground arith))
  ]

take_task-IsConserved :
    (l : Log) (p : Pipeline)
    → IsConserved l p
    → IsConserved (log_taken (take_task p).0 l) (take_task p).1
unfolding take_task
take_task-IsConserved l p h = elim (List-cases p.have_data) [
  | inl none_left ↦ rw (take_task, none_left) h
  | inr (t, ts, front) ↦
      rw (take_task, front)
        (record {
          owned = h.owned;
          account = λ k.
              let before = ap (λ us. count k (task_sds us)) front in
              omega (arith, h.account k, before);
        })
]

step-IsConserved :
    {l : Log} {p p' : Pipeline}
    → IsConserved l p
    → (step : Step p p') → IsConserved (log_step step l) p'
unfolding log_step
step-IsConserved {l = l} h (accepted s p) = accept_client-IsConserved s l p h
step-IsConserved {l = l} h (created p c rest front fresh) =
    create_task-IsConserved c rest l p front fresh h
step-IsConserved {l = l} {p = p} h (fired sd timed_out a e) =
    move_task-IsConserved sd l p h timed_out a e
step-IsConserved {l = l} h (taken p) = take_task-IsConserved l p h

-- In every state that can be reached, by clients created under descriptors that no task waits under:
-- of each descriptor as many clients have been accepted as, in all, wait for the builder, wait for
-- their input, wait for a worker, have been taken by one, and have been removed for a timeout or an
-- input that could not be read. And each task waits under the descriptor of its client.
pub Logged-IsConserved : {l : Log} {p : Pipeline} → Logged l p → IsConserved l p
Logged-IsConserved begun = record { owned = tt; account = λ k. refl }
Logged-IsConserved (next before step) = step-IsConserved (Logged-IsConserved before) step
