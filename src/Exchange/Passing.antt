-- ===== src/Exchange/Passing.antt =====
-- One client on its way through the pipeline.
use mathlib.Core.Path.{subst}
use technopark_highload.Client.{HttpClient, Connection, new_client}
use technopark_highload.Pipeline.{
  Sd, same_sd, Pipeline, find_task, erase, emplace, free_event, accept_client, create_task, Arrival,
  receive_client, pass_on, move_task,
}
use technopark_highload.Prelude.{
  ◌≡◌, refl, sym, true, false, ==_iff, none, some, List, [], ◌∷◌, ◌++◌, arith,
}
use technopark_highload.Result.{Result, ok, err, out_of_range}
use technopark_highload.Worker.{Task, new_task}

-- the pipeline with one more complete task behind the others that wait for a worker
abbrev pub one_more : HttpClient → Pipeline → Pipeline
one_more client p = record p { have_data = p.have_data ++ new_task client ∷ [] }

same_sd_refl : (sd : Sd) → same_sd sd sd ≡ true
unfolding same_sd
same_sd_refl none = refl
same_sd_refl (some n) = ground (arith, ==_iff n n)

-- The client of a connection is accepted, gets a task, and its event fires.
abbrev pub delivered : Connection → Arrival → Pipeline → Result Pipeline
unfolding accept_client create_task move_task
delivered peer a p = move_task (some peer.sd) false a (create_task (accept_client (some peer) p))

erase-emplace :
    (sd : Sd) (task : Task) (m : List (Sd × Task))
    → find_task sd m ≡ err out_of_range
    → erase sd (emplace sd task m) ≡ m
unfolding emplace erase
erase-emplace sd task m fresh = rw (emplace, fresh) (rw (erase, same_sd_refl sd) refl)

delivered-no_others :
    (peer : Connection) (a : Arrival) (client : HttpClient) (p : Pipeline)
    → receive_client (new_client (some peer)) a ≡ ok (client, true)
    → find_task (some peer.sd) p.have_no_data ≡ err out_of_range
    → (let alone = record p { unprocessed_clients = [] } in
        delivered peer a alone ≡ ok (one_more client alone))
unfolding delivered move_task create_task accept_client emplace find_task new_client
delivered-no_others peer a client p e fresh =
    rw (fresh, same_sd_refl (some peer.sd))
      (rw e (
        unfold pass_on free_event in
        rw
          (
            erase-emplace (some peer.sd) (new_task (new_client (some peer))) p.have_no_data fresh,
            same_sd_refl (some peer.sd),
          )
          refl))

-- If its first input is complete, no other client waits for the builder, and no task waits under its
-- descriptor, it is passed on to the workers, and nothing else is changed.
pub delivered-one_more :
    (peer : Connection) (a : Arrival) (client : HttpClient) (p : Pipeline)
    → receive_client (new_client (some peer)) a ≡ ok (client, true)
    → p.unprocessed_clients ≡ []
    → find_task (some peer.sd) p.have_no_data ≡ err out_of_range
    → delivered peer a p ≡ ok (one_more client p)
delivered-one_more peer a client p e none_wait fresh =
    subst
      (λ cs.
        (let alone = record p { unprocessed_clients = cs } in
          delivered peer a alone ≡ ok (one_more client alone)))
      (sym none_wait) (delivered-no_others peer a client p e fresh)
