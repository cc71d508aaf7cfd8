-- ===== src/Client/Pieces/Maps.antt =====
-- A map that is merged is split into the same map.
use technopark_highload.Client.Pieces.Sorted.{
  Continues, Continues-nil, Continues-append, insert-AreBefore,
}
use technopark_highload.Client.Pieces.{
  split_pair, last_pair, split_map_loop, split_vector_to_map, merge_map_to_vector,
}
use technopark_highload.Dict.Laws.{IsSorted}
use technopark_highload.Dict.{Dict}
use technopark_highload.Prelude.{
  ℕ, zero, suc, ◌+◌, ◌-◌, ◌≤◌, ◌<◌, ◌≡◌, ◌≢◌, refl, sym, ap, ◌∙◌, [], ◌∷◌, ◌++◌, append_assoc,
  append-nil, arith, length, length-append, All, All-append, Lacks, Bytes,
}
use technopark_highload.Result.{ok}
use technopark_highload.Text.Laws.{
  At, At-zero, At-append-At, find_from-At, substr-At, find-append, find-eq-none, At-length,
  substr_rest-At,
}
use technopark_highload.Text.{shift}

-- A key without the first byte of the separator of pairs ends at that separator.
split_pair-append :
    (a b : ℕ) (k v : Bytes) → Lacks a k → split_pair (a ∷ b ∷ []) (k ++ (a ∷ b ∷ v)) ≡ ok (k, v)
unfolding split_pair
split_pair-append a b k v clean =
    let s = k ++ (a ∷ b ∷ v) in
    let found = find-append a (b ∷ []) k v clean in
    let key = substr-At k (a ∷ b ∷ v) (length k) refl (At-zero s) in
    let value = substr_rest-At (
      At-append-At (a ∷ b ∷ []) v (length k + 2) refl
        (At-append-At k (a ∷ b ∷ v) (length k) (omega arith) (At-zero s))) in
    ground arith

module _ (p : ℕ) (ps : Bytes) (a b : ℕ) where
  -- Neither a key nor a value holds the first byte of the separator, and no key that of the
  -- separator of pairs.
  abbrev pub IsClean : Bytes × Bytes → Type 0
  IsClean (k, v) = Lacks p k × Lacks p v × Lacks a k

  abbrev merged : Dict → Bytes
  unfolding merge_map_to_vector
  merged m = merge_map_to_vector (p ∷ ps) (a ∷ b ∷ []) m

  -- the text of one pair, in front of the separator
  abbrev pair_text : Bytes × Bytes → Bytes
  pair_text (k, v) = k ++ (a ∷ b ∷ v)

  merged-pair :
      (k v : Bytes) (m : Dict) → merged ((k, v) ∷ m) ≡ pair_text (k, v) ++ ((p ∷ ps) ++ merged m)
  unfolding merged merge_map_to_vector
  merged-pair k v m = sym (append_assoc k (a ∷ b ∷ v) ((p ∷ ps) ++ merged m))

  length-le-merged : (m : Dict) → length m ≤ length (merged m)
  unfolding merged merge_map_to_vector
  length-le-merged [] = omega arith
  length-le-merged ((k, v) ∷ m) =
      let rest = length-le-merged m in
      omega (
        arith,
        length-append k (a ∷ b ∷ (v ++ (p ∷ (ps ++ merged m)))),
        length-append v (p ∷ (ps ++ merged m)),
        length-append ps (merged m),
      )

  module _ (apart : p ≢ a) (apart' : p ≢ b) where
    split_map_loop-merged :
        (m before : Dict) (fuel : ℕ) (s : Bytes) (i : ℕ)
        → length m < fuel
        → All IsClean m
        → IsSorted m
        → Continues before m
        → At s i (merged m)
        → split_map_loop fuel (p ∷ ps) (a ∷ b ∷ []) s i before ≡ ok (before ++ m)
    unfolding split_map_loop merged last_pair
    split_map_loop-merged m before zero s i h clean sorted continues here = absurd (omega arith)
    split_map_loop-merged [] before (suc fuel) s i h clean sorted continues here =
        let missing = find_from-At here (p ∷ ps) ∙ ap (shift i) (find-eq-none p ps [] tt) in
        let size = At-length here in ground (arith, append-nil before)
    split_map_loop-merged ((k, v) ∷ m) before (suc fuel) s i h ((ck, cv, ca), clean) (first, sorted)
          continues here =
        let x = pair_text (k, v) in
        let here' : At s i (x ++ ((p ∷ ps) ++ merged m)) = rw (← merged-pair k v m) here in
        let cx =
          All-append (λ c. c ≢ p) k (a ∷ b ∷ v) ck
            ((λ e. apart (sym e)), ((λ e. apart' (sym e)), cv)) in
        let found = find_from-At here' (p ∷ ps) ∙ ap (shift i) (find-append p ps x (merged m) cx) in
        let piece = substr-At x _ (i + length x - i) (omega arith) here' in
        let pair = split_pair-append a b k v ca in
        let added = insert-AreBefore k v before continues in
        let behind =
          At-append-At (p ∷ ps) (merged m) (i + length x + suc (length ps)) refl
            (At-append-At x _ (i + length x) refl here') in
        let rest =
          split_map_loop-merged m (before ++ (k, v) ∷ []) fuel s (i + length x + suc (length ps))
            (omega arith) clean sorted (Continues-append before k v m first continues) behind in
        ground (arith, append_assoc before ((k, v) ∷ []) m)

    -- A map that is merged and split again is the same map, for a separator of pairs of two bytes,
    -- if no key and no value holds the first byte of the separator and no key the first byte of
    -- that of the pairs, neither of whose bytes is the first of the separator.
    pub split-merge_map :
        (m : Dict)
        → IsSorted m
        → All IsClean m
        → split_vector_to_map (p ∷ ps) (a ∷ b ∷ []) (merge_map_to_vector (p ∷ ps) (a ∷ b ∷ []) m)
          ≡ ok m
    unfolding split_vector_to_map merged
    split-merge_map m sorted clean =
        split_map_loop-merged m [] (suc (length (merged m))) (merged m) 0
          (omega (arith, length-le-merged m)) clean sorted (Continues-nil m) (At-zero (merged m))
