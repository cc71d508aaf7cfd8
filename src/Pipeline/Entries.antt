-- ===== src/Pipeline/Entries.antt =====
-- What holds of every entry of the map holds of what its operations leave and find.
use technopark_highload.Pipeline.{Sd, same_sd, find_task, erase, write_task}
use technopark_highload.Prelude.{
  ◌≡◌, refl, ap, inl, inr, ==_iff, none, some, List, [], ◌∷◌, arith, All, Bool-cases, true,
}
use technopark_highload.Result.{ok}
use technopark_highload.Worker.{Task}

pub same_sd-eq : (k sd : Sd) → same_sd k sd ≡ true → k ≡ sd
unfolding same_sd
same_sd-eq none none e = refl
same_sd-eq none (some n) e = cc
same_sd-eq (some m) none e = cc
same_sd-eq (some m) (some n) e = ap some ((==_iff m n).0 e)

module _ (P : Sd × Task → Type 0) (sd : Sd) where
  pub erase-All : (m : List (Sd × Task)) → All P m → All P (erase sd m)
  unfolding erase
  erase-All [] h = tt
  erase-All ((k, t) ∷ m) (w, h) = elim (Bool-cases (same_sd k sd)) [
    | inl same ↦ rw (erase, same) h
    | inr other ↦ rw (erase, other) (w, erase-All m h)
  ]

  pub write_task-All :
      (new : Task) (m : List (Sd × Task)) → P (sd, new) → All P m → All P (write_task sd new m)
  unfolding write_task
  write_task-All new [] n h = tt
  write_task-All new ((k, t) ∷ m) n (w, h) = elim (Bool-cases (same_sd k sd)) [
    | inl same ↦ rw (write_task, same) (rw (same_sd-eq k sd same) n, h)
    | inr other ↦ rw (write_task, other) (w, write_task-All new m n h)
  ]

  pub find_task-All :
      (m : List (Sd × Task)) {t : Task} → All P m → find_task sd m ≡ ok t → P (sd, t)
  unfolding find_task
  find_task-All [] h e = cc
  find_task-All ((k, t) ∷ m) {t = task} (w, h) e = elim (Bool-cases (same_sd k sd)) [
    | inl same ↦
        let it : t ≡ task = ground arith in
        let entry : P (sd, t) = rw (same_sd-eq k sd same) at w in rw it at entry
    | inr other ↦ find_task-All m {t = task} h (ground arith)
  ]
