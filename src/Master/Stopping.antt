-- ===== src/Master/Stopping.antt =====
-- What `Stop` has waited for, position by position.
use technopark_highload.Client.{HttpClient}
use technopark_highload.Listener.{Listener, new_listener, stop_listener}
use technopark_highload.Master.{
  Master, StopPc, at_rest, stopping_listeners, waiting_clients, stopping_builder, waiting_tasks,
  stopping_controller, waiting_again, stopping_workers, new_master, create_listeners,
  create_workers, start, start_builder, start_controller, stop_builder, stop_controller, call_stop,
  stop_step, any_listens, stop_listeners, stop_workers, Step, accepted, created, fired, worked,
  started, stop_called, stopping, Reachable, made, next,
}
use technopark_highload.Pipeline.{
  Sd, Pipeline, empty, find_task, erase, accept_client, create_task, Arrival, received, remove_task,
  pass_on, move_task, receive_client, take_task,
}
use technopark_highload.Prelude.{
  ℕ, zero, suc, ◌≡◌, refl, inl, inr, Bool, true, false, not, ◌||◌, ◌&&◌, some, List, [], ◌∷◌, ◌++◌,
  is_nil, arith, Bytes,
}
use technopark_highload.Result.{Result, ok, err, undefined_behaviour, out_of_fuel, Result-cases}
use technopark_highload.Socket.Open.{Socket}
use technopark_highload.Worker.{Worker, Task, new_worker, stopped_worker}

abbrev pub any_works : List Worker → Bool
any_works [] = false
any_works (w ∷ ws) = not w.stop || any_works ws

-- what `Stop` has passed: the stop of the listeners, the wait for the clients, the stop of the
-- builder, the wait for the tasks, and the stops of the controller and the workers
pub record Passed : Type 0 where
  pub listeners : Bool
  pub clients : Bool
  pub builder : Bool
  pub tasks : Bool
  pub controller : Bool
  pub workers : Bool

abbrev pub passed : Bool → Bool → Bool → Bool → Bool → Bool → Passed
passed l c b t k w = record {
  listeners = l;
  clients = c;
  builder = b;
  tasks = t;
  controller = k;
  workers = w;
}

-- at rest all of it where `stop` is set, and nothing where the threads run
abbrev pub passed_at : StopPc → Bool → Passed
passed_at at_rest stop = passed stop stop stop stop stop stop
passed_at stopping_listeners _ = passed false false false false false false
passed_at waiting_clients _ = passed true false false false false false
passed_at stopping_builder _ = passed true true false false false false
passed_at waiting_tasks _ = passed true true true false false false
passed_at stopping_controller _ = passed true true true true false false
passed_at waiting_again _ = passed true true true true true false
passed_at stopping_workers _ = passed true true true true true false

abbrev pub has_passed : Master → Passed
has_passed m = passed_at m.stop_at m.stop

-- What holds behind each position of `Stop`, while it goes on and until the next `Start`.
pub record IsDraining (m : Master) : Type 0 where
  pub listeners_off : (has_passed m).listeners && any_listens m.listeners ≡ false
  pub clients_off : (has_passed m).clients && not (is_nil m.pipeline.unprocessed_clients) ≡ false
  pub builder_off : (has_passed m).builder && not m.builder_stop ≡ false
  pub tasks_off : (has_passed m).tasks && not (is_nil m.pipeline.have_no_data) ≡ false
  pub controller_off : (has_passed m).controller && not m.controller_stop ≡ false
  pub workers_off : (has_passed m).workers && any_works m.workers ≡ false

any_listens-stop_listeners : (ls : List Listener) → any_listens (stop_listeners ls) ≡ false
unfolding stop_listener
any_listens-stop_listeners [] = refl
any_listens-stop_listeners (l ∷ ls) = ground (arith, any_listens-stop_listeners ls)

any_works-stop_workers : (ws : List Worker) → any_works (stop_workers ws) ≡ false
unfolding stopped_worker
any_works-stop_workers [] = refl
any_works-stop_workers (w ∷ ws) = ground (arith, any_works-stop_workers ws)

pub any_works-append :
    (before after : List Worker) (w : Worker)
    → w.stop ≡ false
    → any_works (before ++ w ∷ after) ≡ true
any_works-append [] after w e = rw e refl
any_works-append (v ∷ before) after w e = ground (arith, any_works-append before after w e)

-- An event brings no client to the builder, and with no waiting task none to the map.
received_keeps :
    (sd : Sd) (task : Task) (p : Pipeline) (r : Result (HttpClient × Bool)) {p' : Pipeline}
    → received sd task p r ≡ ok p'
    → p'.unprocessed_clients ≡ p.unprocessed_clients
unfolding received remove_task pass_on
received_keeps sd task p (ok (c, true)) {p' = p'} e = ground arith
received_keeps sd task p (ok (c, false)) {p' = p'} e = ground arith
received_keeps sd task p (err undefined_behaviour) e = cc
received_keeps sd task p (err out_of_fuel) e = cc
received_keeps sd task p (err x) {p' = p'} e = ground arith

move_task_keeps :
    (sd : Sd) (timed_out : Bool) (a : Arrival) (p : Pipeline) {p' : Pipeline}
    → move_task sd timed_out a p ≡ ok p'
    → p'.unprocessed_clients ≡ p.unprocessed_clients
unfolding move_task remove_task
move_task_keeps sd true a p e = ground arith
move_task_keeps sd false a p {p' = p'} e = elim (Result-cases (find_task sd p.have_no_data)) [
  | inl (x, missing) ↦ ground arith
  | inr (task, found) ↦
      received_keeps sd task p (receive_client task.input a) {p' = p'} (ground arith)
]

move_task-nil :
    (sd : Sd) (timed_out : Bool) (a : Arrival) (p : Pipeline) {p' : Pipeline}
    → move_task sd timed_out a p ≡ ok p'
    → p.have_no_data ≡ []
    → p'.have_no_data ≡ []
unfolding move_task remove_task find_task erase
move_task-nil sd true a p e none_wait = ground arith
move_task-nil sd false a p e none_wait = ground arith

stop_step-IsDraining :
    (pc : StopPc) (m : Master) {m' : Master}
    → m.stop_at ≡ pc
    → stop_step pc m ≡ some m'
    → IsDraining m
    → IsDraining m'
unfolding stop_step stop_builder stop_controller
stop_step-IsDraining at_rest m at e h = cc
stop_step-IsDraining stopping_listeners m at e h =
    ground (arith, any_listens-stop_listeners m.listeners)
stop_step-IsDraining waiting_clients m at e h = ground arith
stop_step-IsDraining stopping_builder m at e h = ground arith
stop_step-IsDraining waiting_tasks m at e h = ground arith
stop_step-IsDraining stopping_controller m at e h = ground arith
stop_step-IsDraining waiting_again m at e h = ground arith
stop_step-IsDraining stopping_workers m at e h = ground (arith, any_works-stop_workers m.workers)

Step-IsDraining : {m m' : Master} → Step m m' → IsDraining m → IsDraining m'
unfolding start start_builder start_controller call_stop accept_client create_task take_task
Step-IsDraining (accepted on s) h = ground arith
Step-IsDraining (created on c rest front fresh) h = ground arith
Step-IsDraining {m} (fired on sd timed_out a moved) h = ground (
  arith,
  move_task_keeps sd timed_out a m.pipeline moved,
  move_task-nil sd timed_out a m.pipeline moved,
)
Step-IsDraining {m} (worked before after w w' e on) h =
    ground (arith, any_works-append before after w on)
Step-IsDraining (started rest) h = ground arith
Step-IsDraining (stop_called rest) h = ground arith
Step-IsDraining {m} (stopping e) h = stop_step-IsDraining m.stop_at m refl e h

any_listens-create_listeners :
    (listen : ℕ → Result Socket) (ports : List (Bytes × ℕ)) {ls : List Listener}
    → create_listeners listen ports ≡ ok ls
    → any_listens ls ≡ false
unfolding create_listeners new_listener
any_listens-create_listeners listen [] e = ground arith
any_listens-create_listeners listen ((name, port) ∷ ports) e = elim (Result-cases (listen port)) [
  | inl (x, thrown) ↦ ground arith
  | inr (s, opened) ↦ elim (Result-cases (create_listeners listen ports)) [
    | inl (x, thrown) ↦ ground arith
    | inr (ls', rest) ↦ ground (arith, any_listens-create_listeners listen ports rest)
  ]
]

any_works-create_workers : (n : ℕ) → any_works (create_workers n) ≡ false
unfolding create_workers new_worker
any_works-create_workers zero = refl
any_works-create_workers (suc n) = any_works-create_workers n

module _ (listen : ℕ → Result Socket) (ports : List (Bytes × ℕ)) (amount : ℕ) where
  pub new_master_lem :
      {m : Master} → new_master listen ports amount ≡ ok m → (m.pipeline ≡ empty) × IsDraining m
  unfolding new_master
  new_master_lem {m = m} e = elim (Result-cases (create_listeners listen ports)) [
    | inl (x, thrown) ↦ ground arith
    | inr (ls, opened) ↦
        ground
          (arith, any_listens-create_listeners listen ports opened, any_works-create_workers amount)
  ]

  pub Reachable-IsDraining : {m : Master} → Reachable listen ports amount m → IsDraining m
  Reachable-IsDraining (made e) = (new_master_lem e).1
  Reachable-IsDraining (next before step) = Step-IsDraining step (Reachable-IsDraining before)
