-- ===== src/Pipeline/Gone.antt =====
-- A peer that goes away while its body is incomplete: its socket is readable for ever, and `FIONREAD`
-- counts no bytes.
use technopark_highload.Client.{HttpClient, recv_body_async}
use technopark_highload.Pipeline.{
  Sd, Pipeline, find_task, write_task, received, Arrival, receive_client, move_task,
}
use technopark_highload.Prelude.Int.{pos}
use technopark_highload.Prelude.{
  ℕ, ◌-◌, ◌<◌, ◌≡◌, refl, ap, true, false, ◌==◌, ==_iff, leb, List, [], ◌∷◌, append-nil, arith,
  if◌then◌else◌, length, All,
}
use technopark_highload.Result.{Result, ok, ◌>>=◌}
use technopark_highload.Socket.Receive.Exact.{recv_exact_done}
use technopark_highload.Socket.Receive.{recv_vector_exact, recv_vector_max}
use technopark_highload.Worker.{Task}

-- one event for the descriptor after the other
unfoldable pub move_all : Sd → List Arrival → Pipeline → Result Pipeline
unfolding move_task
move_all sd [] p = ok p
move_all sd (a ∷ arrivals) p = do p' ← move_task sd false a p; move_all sd arrivals p'

recv_vector_max_nothing :
    (left : ℕ) (a : Arrival) → a.count ≡ pos 0 → recv_vector_max left a.count a.more ≡ ok []
unfolding recv_vector_max recv_vector_exact
recv_vector_max_nothing left a nothing =
    let none_asked : (if leb left 0 then left else 0) ≡ 0 = ground arith in
    rw (nothing, recv_vector_max, none_asked) (recv_exact_done a.more [])

receive_client_nothing :
    (c : HttpClient) (a : Arrival)
    → c.received_header ≡ true
    → length c.body < c.content_length
    → a.count ≡ pos 0
    → receive_client c a ≡ ok (c, false)
unfolding receive_client recv_body_async
receive_client_nothing c a there open_end nothing =
    let part : leb c.content_length (length c.body) ≡ false = ground arith in
    let short : (length c.body == c.content_length) ≡ false =
      ground (arith, ==_iff (length c.body) c.content_length) in
    rw (there, part)
      (rw (recv_vector_max_nothing (c.content_length - length c.body) a nothing)
        (rw append-nil (rw short refl)))

write_task-find_task :
    (sd : Sd) (m : List (Sd × Task)) {task : Task}
    → find_task sd m ≡ ok task
    → write_task sd task m ≡ m
unfolding find_task write_task
write_task-find_task sd [] e = cc
write_task-find_task sd ((k, t) ∷ m) {task} e =
    ground (arith, write_task-find_task sd m {task = task})

move_task_nothing :
    (sd : Sd) (a : Arrival) (p : Pipeline) (task : Task)
    → find_task sd p.have_no_data ≡ ok task
    → task.input.received_header ≡ true
    → length task.input.body < task.input.content_length
    → a.count ≡ pos 0
    → move_task sd false a p ≡ ok p
unfolding move_task received
move_task_nothing sd a p task waits there open_end nothing =
    rw (move_task, waits)
      (rw (receive_client_nothing task.input a there open_end nothing) (
        ap (λ m. ok (record p { have_no_data = m }))
          (write_task-find_task sd p.have_no_data waits)))

-- If a task's header is there, its body is not complete, and no event for its descriptor counts a
-- byte, then any number of these events leave the pipeline as it is: the task is neither passed on
-- nor removed.
pub move_all_nothing :
    (sd : Sd) (arrivals : List Arrival) (p : Pipeline) (task : Task)
    → find_task sd p.have_no_data ≡ ok task
    → task.input.received_header ≡ true
    → length task.input.body < task.input.content_length
    → All (λ a. a.count ≡ pos 0) arrivals
    → move_all sd arrivals p ≡ ok p
unfolding move_all
move_all_nothing sd [] p task waits there open_end h = refl
move_all_nothing sd (a ∷ arrivals) p task waits there open_end (nothing, h) =
    rw (move_all, move_task_nothing sd a p task waits there open_end nothing)
      (move_all_nothing sd arrivals p task waits there open_end h)
