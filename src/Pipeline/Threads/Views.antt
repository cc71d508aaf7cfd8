-- ===== src/Pipeline/Threads/Views.antt =====
-- The pipeline as it would be if the builder did its round at once when it adds the event, and the
-- handler all that it does at once when it has read the input, or is called for a timeout.
use technopark_highload.Client.{HttpClient}
use technopark_highload.Pipeline.Threads.{
  BuilderPc, waiting, dequeued, emplaced, ControllerPc, reading, freeing_moved, moving, enqueueing,
  freeing_removed, removing,
}
use technopark_highload.Pipeline.{Sd, Pipeline, find_task, erase, free_event, get_sd}
use technopark_highload.Prelude.{◌≡◌, List, [], ◌∷◌, ◌++◌}
use technopark_highload.Result.{Result, ok, err, out_of_range}
use technopark_highload.Worker.{Task, new_task}

-- a client that the builder has taken is still in the queue
abbrev pub with_client : BuilderPc → List HttpClient → List HttpClient
with_client waiting cs = cs
with_client (dequeued c) cs = c ∷ cs
with_client (emplaced c) cs = c ∷ cs

-- the map, with the task whose event is not there yet
abbrev pub with_new : BuilderPc → List (Sd × Task) → List (Sd × Task)
with_new (emplaced c) m = (get_sd c, new_task c) ∷ m
with_new _ m = m

abbrev pub IsNew : BuilderPc → List (Sd × Task) → Type 0
IsNew (emplaced c) m = find_task (get_sd c) m ≡ err out_of_range
IsNew _ m = Unit

-- what the handler is still to erase, to free and to enqueue
abbrev pub erased : ControllerPc → List (Sd × Task) → List (Sd × Task)
erased (freeing_moved sd) m = erase sd m
erased (moving sd) m = erase sd m
erased (freeing_removed sd) m = erase sd m
erased (removing sd) m = erase sd m
erased _ m = m

abbrev pub freed : ControllerPc → List Sd → List Sd
freed (freeing_moved sd) ks = free_event sd ks
freed (freeing_removed sd) ks = free_event sd ks
freed _ ks = ks

abbrev pub with_task : Result Task → List Task → List Task
with_task (ok t) ts = ts ++ t ∷ []
with_task (err e) ts = ts

abbrev pub passed : ControllerPc → List (Sd × Task) → List Task → List Task
passed (freeing_moved sd) m ts = with_task (find_task sd m) ts
passed (moving sd) m ts = with_task (find_task sd m) ts
passed (enqueueing t) m ts = ts ++ t ∷ []
passed _ m ts = ts

-- The descriptor that the handler is called for has its task.
abbrev pub HasTask : Sd → List (Sd × Task) → Type 0
HasTask sd m = (t : Task) × (find_task sd m ≡ ok t)

abbrev pub IsFound : ControllerPc → List (Sd × Task) → Type 0
IsFound (reading sd) m = HasTask sd m
IsFound (freeing_moved sd) m = HasTask sd m
IsFound (moving sd) m = HasTask sd m
IsFound (freeing_removed sd) m = HasTask sd m
IsFound (removing sd) m = HasTask sd m
IsFound _ m = Unit

-- the pipeline as it would be, where `rest` is the map without the task whose event is not there yet
abbrev pub atomic : BuilderPc → ControllerPc → Pipeline → List (Sd × Task) → Pipeline
atomic b k p rest = record {
  unprocessed_clients = with_client b p.unprocessed_clients;
  have_no_data = erased k rest;
  events = freed k p.events;
  have_data = passed k rest p.have_data;
}
