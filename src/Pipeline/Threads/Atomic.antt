-- ===== src/Pipeline/Threads/Atomic.antt =====
-- What a state of the threads has to do with one of the pipeline, and the builder's steps.
use technopark_highload.Client.{HttpClient}
use technopark_highload.Pipeline.Reachability
use technopark_highload.Pipeline.Reachability.{
  accepted, created, fired, taken, started, stepped, Reachable-IsSound,
}
use technopark_highload.Pipeline.Threads.Commuting.{
  IsFound-new, erased-new, freed-new, passed-new, fresh-erased,
}
use technopark_highload.Pipeline.Threads.Views.{with_new, IsNew, IsFound, atomic}
use technopark_highload.Pipeline.Threads.{
  BuilderPc, waiting, dequeued, emplaced, ControllerPc, Threads, dequeue_client, emplace_task,
  add_event, build_step, IsFresh,
}
use technopark_highload.Pipeline.{Sd, Pipeline, find_task, emplace, get_sd, create_task}
use technopark_highload.Prelude.{◌≡◌, refl, ap, List, [], ◌∷◌}
use technopark_highload.Result.{err, out_of_range}
use technopark_highload.Worker.{Task, new_task}

-- The state is one of the pipeline with rounds that are each one step, but for what a round that is
-- under way has done already or has still to do.
pub record Refines (f : Threads) : Type 0 where
  pub rest : List (Sd × Task)
  pub entries : f.pipeline.have_no_data ≡ with_new f.builder rest
  pub new : IsNew f.builder rest
  pub found : IsFound f.controller rest
  pub reachable : Reachability.Reachable (atomic f.builder f.controller f.pipeline rest)

abbrev pub threads : Pipeline → BuilderPc → ControllerPc → Threads
threads p b k = record { pipeline = p; builder = b; controller = k }

module _ (p : Pipeline) (k : ControllerPc) where
  dequeue_client-Refines :
      (cs : List HttpClient)
      → Refines (threads (record p { unprocessed_clients = cs }) waiting k)
      → Refines (dequeue_client cs (threads (record p { unprocessed_clients = cs }) waiting k))
  unfolding dequeue_client
  dequeue_client-Refines [] h = h
  dequeue_client-Refines (c ∷ cs) h = record {
    rest = h.rest;
    entries = h.entries;
    new = tt;
    found = h.found;
    reachable = h.reachable;
  }

  emplace_task-Refines :
      (c : HttpClient)
      → find_task (get_sd c) p.have_no_data ≡ err out_of_range
      → Refines (threads p (dequeued c) k)
      → Refines (emplace_task c (threads p (dequeued c) k))
  unfolding emplace_task emplace
  emplace_task-Refines c fresh h = record {
    rest = h.rest;
    entries = rw (emplace, fresh) (ap (λ m. (get_sd c, new_task c) ∷ m) h.entries);
    new = rw h.entries at fresh;
    found = h.found;
    reachable = h.reachable;
  }

  -- The event is added: the builder's round is one step.
  create_task-atomic :
      (c : HttpClient) (rest : List (Sd × Task))
      → find_task (get_sd c) rest ≡ err out_of_range
      → IsFound k rest
      → create_task (atomic (emplaced c) k p rest)
        ≡ atomic waiting k
            (record p { events = get_sd c ∷ p.events })
            ((get_sd c, new_task c) ∷ rest)
  unfolding create_task emplace
  create_task-atomic c rest fresh found =
      rw
        (
          erased-new (get_sd c) (new_task c) rest fresh k found,
          freed-new (get_sd c) (new_task c) rest fresh k p.events found,
          passed-new (get_sd c) (new_task c) rest fresh k p.have_data found,
        )
        (rw (emplace, fresh-erased (get_sd c) (new_task c) rest fresh k) refl)

  add_event-Refines :
      (c : HttpClient)
      → Refines (threads p (emplaced c) k)
      → Refines (add_event c (threads p (emplaced c) k))
  unfolding add_event
  add_event-Refines c h = record {
    rest = (get_sd c, new_task c) ∷ h.rest;
    entries = h.entries;
    new = tt;
    found = IsFound-new (get_sd c) (new_task c) h.rest h.new k h.found;
    reachable = rw (create_task-atomic c h.rest h.new h.found) at (
        stepped h.reachable (
          created _ c p.unprocessed_clients refl
            (fresh-erased (get_sd c) (new_task c) h.rest h.new k)));
  }

pub build_step-Refines :
    (b : BuilderPc) (k : ControllerPc) (p : Pipeline)
    → IsFresh b p.have_no_data
    → Refines (threads p b k)
    → Refines (build_step b (threads p b k))
unfolding build_step
build_step-Refines waiting k p fresh h = dequeue_client-Refines p k p.unprocessed_clients h
build_step-Refines (dequeued c) k p fresh h = emplace_task-Refines p k c fresh h
build_step-Refines (emplaced c) k p fresh h = add_event-Refines p k c h
