-- ===== src/Worker.antt =====
-- async/src/Worker.cpp and async/include/Worker.hpp, with the task of async/src/Task.cpp: every task
-- has the three default functions. The queue of tasks is a parameter: `take_new_task` is given what
-- `wait_dequeue_timed` brings, or that the worker was stopped while it waited.
pub mod Rounds
pub mod Sending
pub mod Functions
pub mod Serving
pub mod Site
use technopark_highload.Client.{HttpClient, Connection, new_client}
use technopark_highload.Dict.{Dict}
use technopark_highload.Http.Response.{HttpResponse}
use technopark_highload.Prelude.{
  ℕ, Bool, true, false, not, ◌||◌, Option, none, some, List, [], ◌∷◌, Bytes, if◌then◌else◌,
}
use technopark_highload.Result.{Result, ok, err, ◌>>=◌, runtime_error}
use technopark_highload.Tasks.FileCache.{FileCache}
use technopark_highload.Tasks.Process.{pre_process, Processed, main_process_basic, post_process}

pub data WorkerStates : Type 0 where
  no_task task_received pre_func_running pre_func_ran : WorkerStates
  main_func_running main_func_ran post_func_running : WorkerStates

pub record Task : Type 0 where
  pub input : HttpClient
  pub output : HttpClient

-- `Task()` and `Task(input)`
abbrev pub new_task : HttpClient → Task
new_task client = record { input = client; output = new_client none }

pub record Worker : Type 0 where
  pub current_task : Task
  pub state : WorkerStates
  pub headers : Dict
  pub body : Bytes
  pub stop : Bool

-- the constructor
unfoldable pub new_worker : Worker
new_worker = record {
  current_task = new_task (new_client none);
  state = no_task;
  headers = [];
  body = [];
  stop = true;
}

-- `TakeNewTask`: a worker that has been stopped takes no task; `none` where it is stopped while it
-- waits for one
unfoldable pub take_new_task : Worker → Option Task → Result Worker
take_new_task w arrived = elim w.state [
  | no_task ↦ elim w.stop [
    | true ↦ ok w
    | false ↦ elim arrived [
      | some task ↦ ok (record w { current_task = task; state = task_received })
      | none ↦ ok (record w { stop = true })
    ]
  ]
  | _ ↦ err runtime_error
]

-- `RunPreFunc`
unfoldable pub run_pre_func : Worker → Result Worker
run_pre_func w = elim w.state [
  | task_received ↦ do
    headers ← pre_process w.current_task.input.header
    ok (record w { headers = headers; state = pre_func_ran })
  | _ ↦ err runtime_error
]

-- what `std::move` leaves of a client whose pointers have been moved away
abbrev pub moved : HttpClient → HttpClient
moved c = record c { header = []; body = []; socket = none }

module _ (cache : FileCache) (root : Bytes) (files : Bytes → Option Bytes) where
  open cache use {Cache}

  -- `RunMainFunc`; every branch of the function moves the input to the output
  unfoldable pub run_main_func : Worker → Cache → Result (Worker × Cache)
  run_main_func w c = elim w.state [
    | pre_func_ran ↦ do
      done ← main_process_basic cache root files w.headers w.body c
      let task = record w.current_task {
        input = moved w.current_task.input;
        output = w.current_task.input;
      }
      ok (
        record w {
          headers = done.headers;
          body = done.body;
          current_task = task;
          state = main_func_ran;
        },
        done.kept,
      )
    | _ ↦ err runtime_error
  ]

-- `RunPostFunc`: the worker, and the bytes handed to `Send`, which closes the output whether or not
-- it can send them
unfoldable pub run_post_func : Bytes → Worker → Result (Worker × Bytes)
run_post_func now w = elim w.state [
  | main_func_ran ↦ do
    response ← post_process now w.headers w.body
    let output = record w.current_task.output { socket = none }
    ok (
      record w { current_task = record w.current_task { output = output }; state = no_task },
      response.response,
    )
  | _ ↦ err runtime_error
]

module _ (cache : FileCache) (root : Bytes) (files : Bytes → Option Bytes) where
  open cache use {Cache}

  -- One round of `Loop`: what is sent, with the worker and the cache behind it. What a round throws
  -- leaves the thread's function, and so ends the program.
  unfoldable pub loop_round : Bytes → Worker → Cache → Option Task → Result (Worker × Cache × Bytes)
  loop_round now w c arrived = do
    taken ← take_new_task w arrived
    prepared ← run_pre_func taken
    (processed, kept) ← run_main_func cache root files prepared c
    (finished, sent) ← run_post_func now processed
    ok (finished, kept, sent)

module _ (cache : FileCache) (root : Bytes) (files : Bytes → Option Bytes) where
  open cache use {Cache}

  -- `Loop`, with the times at which it sends and the tasks that come; it waits where they end. What
  -- is sent comes back in the order of the rounds.
  unfoldable pub loop : Worker → Cache → List (Bytes × Task) → Result (Worker × Cache × List Bytes)
  unfolding loop_round
  loop w c [] = ok (w, c, [])
  loop w c ((now, task) ∷ tasks) = elim w.stop [
    | true ↦ ok (w, c, [])
    | false ↦ do
      (finished, kept, sent) ← loop_round cache root files now w c (some task)
      (last, at_end, more) ← loop finished kept tasks
      ok (last, at_end, sent ∷ more)
  ]

-- `Start`, without the thread
unfoldable pub start : Worker → Worker
start w = if w.stop then record w { stop = false; state = no_task } else w

-- what `Stop` leaves of the worker, where the thread has been joined
unfoldable pub stopped_worker : Worker → Worker
stopped_worker w =
    if w.stop then w else record w { stop = true; state = no_task; headers = []; body = [] }

-- `Stop`, by whether it finds the thread in the wait of `TakeNewTask`: then the round goes on without
-- a task, and what it throws ends the program. Else the thread ends behind its round.
unfoldable pub stop_worker : Bool → Worker → Result Worker
unfolding stopped_worker take_new_task run_pre_func
stop_worker waits w =
    if w.stop || not waits
    then ok (stopped_worker w)
    else (do taken ← take_new_task w none; _ ← run_pre_func taken; ok (stopped_worker w))

-- `Worker(Worker&& other)` and `operator=`: the worker, and the other as it is left, by whether each
-- waits for a task. The queue that both refer to is the same.
unfoldable pub move_worker : Bool → Worker → Result (Worker × Worker)
unfolding new_worker stop_worker
move_worker waits other = do stopped ← stop_worker waits other; ok (new_worker, stopped)

unfoldable pub assign_worker : Bool → Bool → Worker → Worker → Result (Worker × Worker)
unfolding stop_worker
assign_worker waits other_waits w other = do
  stopped ← stop_worker waits w
  other_stopped ← stop_worker other_waits other
  ok (record stopped { current_task = new_task (new_client none); state = no_task }, other_stopped)
