-- ===== src/Pipeline/Threads/Entries.antt =====
-- The map and the events, as operations for two different descriptors leave them.
use technopark_highload.Pipeline.Entries.{same_sd-eq}
use technopark_highload.Pipeline.{Sd, same_sd, find_task, erase, write_task, free_event}
use technopark_highload.Prelude.{◌≡◌, refl, inl, inr, false, List, [], ◌∷◌, arith, Bool-cases}
use technopark_highload.Result.{ok, err, out_of_range}
use technopark_highload.Worker.{Task}

-- A descriptor that is there and one that is not are two.
pub found-other :
    (k sd : Sd) (m : List (Sd × Task)) {t : Task}
    → find_task sd m ≡ ok t
    → find_task k m ≡ err out_of_range
    → same_sd k sd ≡ false
found-other k sd m found fresh = elim (Bool-cases (same_sd k sd)) [
  | inl same ↦ let it = same_sd-eq k sd same in cc
  | inr other ↦ other
]

pub find_task-erase :
    (k sd : Sd) (m : List (Sd × Task))
    → find_task k m ≡ err out_of_range
    → find_task k (erase sd m) ≡ err out_of_range
unfolding find_task erase
find_task-erase k sd [] fresh = refl
find_task-erase k sd ((l, t) ∷ m) fresh = ground (arith, find_task-erase k sd m)

pub find_task-write_task :
    (k sd : Sd) (new : Task) (m : List (Sd × Task))
    → find_task k m ≡ err out_of_range
    → find_task k (write_task sd new m) ≡ err out_of_range
unfolding find_task write_task
find_task-write_task k sd new [] fresh = refl
find_task-write_task k sd new ((l, t) ∷ m) fresh = ground (arith, find_task-write_task k sd new m)

pub found-write_task :
    (sd : Sd) (new : Task) (m : List (Sd × Task)) {t : Task}
    → find_task sd m ≡ ok t
    → find_task sd (write_task sd new m) ≡ ok new
unfolding find_task write_task
found-write_task sd new [] found = cc
found-write_task sd new ((l, u) ∷ m) {t = t} found =
    ground (arith, found-write_task sd new m {t = t})

pub erase-write_task :
    (sd : Sd) (new : Task) (m : List (Sd × Task)) → erase sd (write_task sd new m) ≡ erase sd m
unfolding erase write_task
erase-write_task sd new [] = refl
erase-write_task sd new ((l, u) ∷ m) = ground (arith, erase-write_task sd new m)

module _ (k sd : Sd) (t : Task) (m : List (Sd × Task)) (other : same_sd k sd ≡ false) where
  pub find_task-other : find_task sd ((k, t) ∷ m) ≡ find_task sd m
  unfolding find_task
  find_task-other = rw (find_task, other) refl

  pub erase-other : erase sd ((k, t) ∷ m) ≡ (k, t) ∷ erase sd m
  unfolding erase
  erase-other = rw (erase, other) refl

  pub write_task-other :
      (new : Task) → write_task sd new ((k, t) ∷ m) ≡ (k, t) ∷ write_task sd new m
  unfolding write_task
  write_task-other new = rw (write_task, other) refl

  pub free_event-other : (ks : List Sd) → free_event sd (k ∷ ks) ≡ k ∷ free_event sd ks
  unfolding free_event
  free_event-other ks = rw (free_event, other) refl
