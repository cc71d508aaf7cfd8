-- ===== src/Pipeline/Threads/Commuting.antt =====
-- What the steps of the threads do to the views of Pipeline.Threads.Views.
use technopark_highload.Client.{HttpClient}
use technopark_highload.Pipeline.Threads.Entries.{
  found-other, find_task-erase, find_task-write_task, find_task-other, erase-other,
  write_task-other, free_event-other,
}
use technopark_highload.Pipeline.Threads.{
  BuilderPc, waiting, dequeued, emplaced, ControllerPc, idle, reading, freeing_moved, moving,
  enqueueing, freeing_removed, removing,
}
use technopark_highload.Pipeline.{Sd, same_sd, find_task, erase, write_task, get_sd}
use technopark_highload.Prelude.{◌≡◌, refl, ap, List, [], ◌∷◌, ◌++◌, false}
use technopark_highload.Result.{Result, ok, err, out_of_range}
use technopark_highload.Worker.{Task, new_task}
use technopark_highload.Pipeline.Threads.Views.{
  with_client, with_new, IsNew, erased, freed, with_task, passed, HasTask, IsFound,
}

pub with_client-append :
    (b : BuilderPc) (cs : List HttpClient) (c : HttpClient)
    → with_client b (cs ++ c ∷ []) ≡ with_client b cs ++ c ∷ []
with_client-append waiting cs c = refl
with_client-append (dequeued d) cs c = refl
with_client-append (emplaced d) cs c = refl

with_task-cons :
    (t : Task) (ts : List Task) (r : Result Task) → with_task r (t ∷ ts) ≡ t ∷ with_task r ts
with_task-cons t ts (ok u) = refl
with_task-cons t ts (err e) = refl

pub passed-cons :
    (k : ControllerPc) (m : List (Sd × Task)) (t : Task) (ts : List Task)
    → passed k m (t ∷ ts) ≡ t ∷ passed k m ts
passed-cons idle m t ts = refl
passed-cons (reading sd) m t ts = refl
passed-cons (freeing_moved sd) m t ts = with_task-cons t ts (find_task sd m)
passed-cons (moving sd) m t ts = with_task-cons t ts (find_task sd m)
passed-cons (enqueueing u) m t ts = refl
passed-cons (freeing_removed sd) m t ts = refl
passed-cons (removing sd) m t ts = refl

-- A task under a new descriptor, in front of the others, is none that the handler deals with.
module _ (l : Sd) (new : Task) (m : List (Sd × Task))
    (fresh : find_task l m ≡ err out_of_range) where
  other : (sd : Sd) → HasTask sd m → same_sd l sd ≡ false
  other sd (t, found) = found-other l sd m found fresh

  HasTask-new : (sd : Sd) → HasTask sd m → HasTask sd ((l, new) ∷ m)
  HasTask-new sd (t, found) = (t, rw (find_task-other l sd new m (other sd (t, found))) found)

  pub IsFound-new : (k : ControllerPc) → IsFound k m → IsFound k ((l, new) ∷ m)
  IsFound-new idle h = tt
  IsFound-new (reading sd) h = HasTask-new sd h
  IsFound-new (freeing_moved sd) h = HasTask-new sd h
  IsFound-new (moving sd) h = HasTask-new sd h
  IsFound-new (enqueueing t) h = tt
  IsFound-new (freeing_removed sd) h = HasTask-new sd h
  IsFound-new (removing sd) h = HasTask-new sd h

  pub erased-new :
      (k : ControllerPc) → IsFound k m → erased k ((l, new) ∷ m) ≡ (l, new) ∷ erased k m
  erased-new idle h = refl
  erased-new (reading sd) h = refl
  erased-new (freeing_moved sd) h = erase-other l sd new m (other sd h)
  erased-new (moving sd) h = erase-other l sd new m (other sd h)
  erased-new (enqueueing t) h = refl
  erased-new (freeing_removed sd) h = erase-other l sd new m (other sd h)
  erased-new (removing sd) h = erase-other l sd new m (other sd h)

  pub freed-new :
      (k : ControllerPc) (ks : List Sd) → IsFound k m → freed k (l ∷ ks) ≡ l ∷ freed k ks
  freed-new idle ks h = refl
  freed-new (reading sd) ks h = refl
  freed-new (freeing_moved sd) ks h = free_event-other l sd new m (other sd h) ks
  freed-new (moving sd) ks h = refl
  freed-new (enqueueing t) ks h = refl
  freed-new (freeing_removed sd) ks h = free_event-other l sd new m (other sd h) ks
  freed-new (removing sd) ks h = refl

  pub passed-new :
      (k : ControllerPc) (ts : List Task) → IsFound k m → passed k ((l, new) ∷ m) ts ≡ passed k m ts
  passed-new idle ts h = refl
  passed-new (reading sd) ts h = refl
  passed-new (freeing_moved sd) ts h =
      ap (λ r. with_task r ts) (find_task-other l sd new m (other sd h))
  passed-new (moving sd) ts h = ap (λ r. with_task r ts) (find_task-other l sd new m (other sd h))
  passed-new (enqueueing t) ts h = refl
  passed-new (freeing_removed sd) ts h = refl
  passed-new (removing sd) ts h = refl

  pub fresh-erased : (k : ControllerPc) → find_task l (erased k m) ≡ err out_of_range
  fresh-erased idle = fresh
  fresh-erased (reading sd) = fresh
  fresh-erased (freeing_moved sd) = find_task-erase l sd m fresh
  fresh-erased (moving sd) = find_task-erase l sd m fresh
  fresh-erased (enqueueing t) = fresh
  fresh-erased (freeing_removed sd) = find_task-erase l sd m fresh
  fresh-erased (removing sd) = find_task-erase l sd m fresh

-- The handler's operations do not see a task whose event is not there yet.
module _ (sd : Sd) (m : List (Sd × Task)) (t : Task) (found : find_task sd m ≡ ok t) where
  pub find_task-with_new : (b : BuilderPc) → IsNew b m → find_task sd (with_new b m) ≡ ok t
  find_task-with_new waiting n = found
  find_task-with_new (dequeued c) n = found
  find_task-with_new (emplaced c) n =
      rw (find_task-other (get_sd c) sd (new_task c) m (found-other (get_sd c) sd m found n)) found

  pub erase-with_new :
      (b : BuilderPc) → IsNew b m → erase sd (with_new b m) ≡ with_new b (erase sd m)
  erase-with_new waiting n = refl
  erase-with_new (dequeued c) n = refl
  erase-with_new (emplaced c) n =
      erase-other (get_sd c) sd (new_task c) m (found-other (get_sd c) sd m found n)

  pub write_task-with_new :
      (b : BuilderPc) (new : Task)
      → IsNew b m
      → write_task sd new (with_new b m) ≡ with_new b (write_task sd new m)
  write_task-with_new waiting new n = refl
  write_task-with_new (dequeued c) new n = refl
  write_task-with_new (emplaced c) new n =
      write_task-other (get_sd c) sd (new_task c) m (found-other (get_sd c) sd m found n) new

pub IsNew-erase :
    (b : BuilderPc) (sd : Sd) (m : List (Sd × Task)) → IsNew b m → IsNew b (erase sd m)
IsNew-erase waiting sd m n = tt
IsNew-erase (dequeued c) sd m n = tt
IsNew-erase (emplaced c) sd m n = find_task-erase (get_sd c) sd m n

pub IsNew-write_task :
    (b : BuilderPc) (sd : Sd) (new : Task) (m : List (Sd × Task))
    → IsNew b m
    → IsNew b (write_task sd new m)
IsNew-write_task waiting sd new m n = tt
IsNew-write_task (dequeued c) sd new m n = tt
IsNew-write_task (emplaced c) sd new m n = find_task-write_task (get_sd c) sd new m n
