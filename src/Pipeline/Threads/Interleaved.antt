-- ===== src/Pipeline/Threads/Interleaved.antt =====
-- The threads in any order: each round is as one step of the pipeline.
use technopark_highload.Client.{Connection, new_client}
use technopark_highload.Pipeline.Handled.{has_event, find_task-keys}
use technopark_highload.Pipeline.Reachability
use technopark_highload.Pipeline.Reachability.{
  accepted, created, fired, taken, started, stepped, Reachable-IsSound,
}
use technopark_highload.Pipeline.Threads
use technopark_highload.Pipeline.Threads.Commuting.{with_client-append, passed-cons}
use technopark_highload.Pipeline.Threads.Views.{with_task, passed, atomic}
use technopark_highload.Pipeline.Threads.{
  BuilderPc, waiting, dequeued, emplaced, ControllerPc, idle, reading, freeing_moved, moving,
  enqueueing, freeing_removed, removing, Threads, dequeue_client, emplace_task, add_event,
  build_step, call_handler, read_input, erase_moved, control_step, IsFresh, Step, built, called,
  handled, at_start, Reachable,
}
use technopark_highload.Pipeline.{
  Sd, Pipeline, find_task, accept_client, Arrival, remove_task, move_task, take_task,
}
use technopark_highload.Prelude.Int.{pos}
use technopark_highload.Prelude.{
  append-All, All, ◌≡◌, refl, inl, inr, arith, Bool, true, false, List, [], ◌∷◌, Option,
}
use technopark_highload.Result.{Result, ok, err}
use technopark_highload.Socket.Receive.{again}
use technopark_highload.Worker.{Task}
use technopark_highload.Pipeline.Received.{IsReady}
use technopark_highload.Pipeline.Threads.Atomic.{Refines, threads, build_step-Refines}
use technopark_highload.Pipeline.Threads.Handling.{IsHandled, control_step-IsHandled}
use technopark_highload.Prelude.{All}

abbrev nothing : Arrival
nothing = record { first = again; count = pos 0; more = [] }

timed_out_move :
    (p : Pipeline) (b : BuilderPc) (sd : Sd) (rest : List (Sd × Task))
    → Reachability.Step (atomic b idle p rest) (atomic b (freeing_removed sd) p rest)
unfolding move_task remove_task
timed_out_move p b sd rest = fired sd true nothing refl

call_handler-Refines :
    (k : ControllerPc) (b : BuilderPc) (p : Pipeline) (sd : Sd) (timed_out : Bool)
    → k ≡ idle
    → has_event sd p.events ≡ true
    → Refines (threads p b k)
    → Refines (call_handler sd timed_out (threads p b k))
unfolding call_handler
call_handler-Refines idle b p sd true none added h = record {
  rest = h.rest;
  entries = h.entries;
  new = h.new;
  found = find_task-keys sd h.rest (rw (Reachable-IsSound h.reachable).keyed at added);
  reachable = stepped h.reachable (timed_out_move p b sd h.rest);
}
call_handler-Refines idle b p sd false none added h = record {
  rest = h.rest;
  entries = h.entries;
  new = h.new;
  found = find_task-keys sd h.rest (rw (Reachable-IsSound h.reachable).keyed at added);
  reachable = h.reachable;
}
call_handler-Refines k b p sd timed_out none added h = cc

accept_client-Refines :
    (s : Option Connection) (b : BuilderPc) (k : ControllerPc) (p : Pipeline)
    → Refines (threads p b k)
    → Refines (threads (accept_client s p) b k)
unfolding accept_client
accept_client-Refines s b k p h = record {
  rest = h.rest;
  entries = h.entries;
  new = h.new;
  found = h.found;
  reachable =
      rw (with_client-append b p.unprocessed_clients (new_client s))
        (stepped h.reachable (accepted s (atomic b k p h.rest)));
}

take_task-Refines :
    (task : Task) (ts : List Task) (b : BuilderPc) (k : ControllerPc) (p : Pipeline)
    → p.have_data ≡ task ∷ ts
    → Refines (threads p b k)
    → Refines (threads (take_task p).1 b k)
unfolding take_task
take_task-Refines task ts b k p queue h =
    let all : passed k h.rest p.have_data ≡ task ∷ passed k h.rest ts =
      rw queue (passed-cons k h.rest task ts) in
    rw (take_task, queue)
      (record {
        rest = h.rest;
        entries = h.entries;
        new = h.new;
        found = h.found;
        reachable = rw all at (stepped h.reachable (taken (atomic b k p h.rest)));
      })

Step-Refines : {f f' : Threads} → Refines f → Step f f' → Refines f'
Step-Refines {f = f} h (Threads.accepted s) =
    accept_client-Refines s f.builder f.controller f.pipeline h
Step-Refines {f = f} h (built fresh) = build_step-Refines f.builder f.controller f.pipeline fresh h
Step-Refines {f = f} h (called sd timed_out none added) =
    call_handler-Refines f.controller f.builder f.pipeline sd timed_out none added h
Step-Refines {f = f} {f' = f'} h (handled a e) =
    elim (control_step-IsHandled f.controller f.builder f.pipeline a h) [
      | inl (f'', goes_on, refines) ↦ let same : f'' ≡ f' = ground arith in rw same at refines
      | inr (sd, task, at_read, there, undefined, ends) ↦ ground arith
    ]
Step-Refines {f = f} h (Threads.taken task ts queue) =
    take_task-Refines task ts f.builder f.controller f.pipeline queue h

-- In every state that the threads can reach, where the system gives a new client no descriptor under
-- which a task waits and only events that have been added fire: the state is one that the pipeline
-- can reach with the builder's round and the handler as single steps, but for what the rounds under
-- way have done already or have still to do.
pub Reachable-Refines : {f : Threads} → Reachable f → Refines f
Reachable-Refines (Threads.started e) =
    rw e (record { rest = []; entries = refl; new = tt; found = tt; reachable = started })
Reachable-Refines (Threads.stepped before step) = Step-Refines (Reachable-Refines before) step

with_task-All :
    (P : Task → Type 0) (r : Result Task) (ts : List Task) → All P (with_task r ts) → All P ts
with_task-All P (ok t) ts h = append-All P ts (t ∷ []) h
with_task-All P (err e) ts h = h

passed-All :
    (P : Task → Type 0) (k : ControllerPc) (m : List (Sd × Task)) (ts : List Task)
    → All P (passed k m ts)
    → All P ts
passed-All P idle m ts h = h
passed-All P (reading sd) m ts h = h
passed-All P (freeing_moved sd) m ts h = with_task-All P (find_task sd m) ts h
passed-All P (moving sd) m ts h = with_task-All P (find_task sd m) ts h
passed-All P (enqueueing t) m ts h = append-All P ts (t ∷ []) h
passed-All P (freeing_removed sd) m ts h = h
passed-All P (removing sd) m ts h = h

-- In every state that the threads can reach, where the system gives a new client no descriptor under
-- which a task waits and only events that have been added fire: the next step of the handler goes
-- on, to a state that refines the pipeline, unless it is the reading of a task's input and that is
-- undefined. In particular neither `at` throws. And every task in the queue of the workers has a
-- header that `HttpRequest` parses, and a body of at least as many bytes as the Content-Length of this
-- request.
pub Reachable-IsHandled :
    {f : Threads} (a : Arrival)
    → Reachable f
    → IsHandled a f × All (λ t. IsReady t.input) f.pipeline.have_data
Reachable-IsHandled {f = f} a reached =
    let h = Reachable-Refines reached in
    (
      control_step-IsHandled f.controller f.builder f.pipeline a h,
      passed-All (λ t. IsReady t.input) f.controller h.rest f.pipeline.have_data
          (Reachable-IsSound h.reachable).ready,
    )
