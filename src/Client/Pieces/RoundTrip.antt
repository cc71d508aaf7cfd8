-- ===== src/Client/Pieces/RoundTrip.antt =====
-- What `Merge` joins, `Split` takes apart again.
use technopark_highload.Client.Pieces.{
  last_piece, split_loop, split_vector_to_queue, merge_loop, merge_queue_to_vector,
}
use technopark_highload.Prelude.{
  ℕ, zero, suc, ◌+◌, ◌-◌, ◌≤◌, ◌<◌, ◌≡◌, refl, sym, ap, ◌∙◌, List, [], ◌∷◌, ◌++◌, append_assoc,
  append-nil, arith, length, length-append, All, Lacks, Bytes,
}
use technopark_highload.Result.{ok}
use technopark_highload.Text.Laws.{
  At, At-zero, At-append-At, find_from-At, substr-At, find-append, find-eq-none, At-length,
  substr_rest-At,
}
use technopark_highload.Text.{shift}

-- Each item with the separator behind it.
abbrev pub joined : Bytes → List Bytes → Bytes
joined separator [] = []
joined separator (x ∷ xs) = x ++ (separator ++ joined separator xs)

merge_loop-joined :
    (separator : Bytes) (xs ys : List Bytes) (result : Bytes)
    → merge_loop (length xs) separator (xs ++ ys) result ≡ (result ++ joined separator xs, ys ++ xs)
unfolding merge_loop
merge_loop-joined separator [] ys result = simp append-nil
merge_loop-joined separator (x ∷ xs) ys result =
    ap (λ q. merge_loop (length xs) separator q ((result ++ x) ++ separator))
      (append_assoc xs ys (x ∷ []))
    ∙ merge_loop-joined separator xs (ys ++ x ∷ []) ((result ++ x) ++ separator)
    ∙ simp append_assoc

-- `MergeQueueToVector` prints every item with a separator behind it, in order, and leaves the queue
-- as it was.
merge_queue_to_vector-joined :
    (separator : Bytes) (queue : List Bytes)
    → merge_queue_to_vector separator queue ≡ (joined separator queue, queue)
unfolding merge_queue_to_vector
merge_queue_to_vector-joined separator queue =
    ap (λ q. merge_loop (length queue) separator q []) (sym (append-nil queue))
    ∙ merge_loop-joined separator queue [] []

abbrev pub piece_of : Bytes → List Bytes
piece_of [] = []
piece_of (c ∷ s) = (c ∷ s) ∷ []

last_piece-At :
    {s : Bytes} {i : ℕ} (tail : Bytes) → At s i tail → last_piece s i ≡ ok (piece_of tail)
unfolding last_piece
last_piece-At [] here = let size = At-length here in ground arith
last_piece-At (c ∷ tail) here =
    let size = At-length here in let read = substr_rest-At here in ground arith

split_loop-joined :
    (p : ℕ) (ps : Bytes) (xs : List Bytes) (tail : Bytes) (fuel : ℕ) (s : Bytes) (i : ℕ)
    → length xs < fuel
    → All (Lacks p) xs
    → Lacks p tail
    → At s i (joined (p ∷ ps) xs ++ tail)
    → split_loop fuel (p ∷ ps) s i ≡ ok (xs ++ piece_of tail)
unfolding split_loop
split_loop-joined p ps xs tail zero s i h clean ct here = absurd (omega arith)
split_loop-joined p ps [] tail (suc fuel) s i h clean ct here =
    let missing = find_from-At here (p ∷ ps) ∙ ap (shift i) (find-eq-none p ps tail ct) in
    let done = last_piece-At tail here in ground arith
split_loop-joined p ps (x ∷ xs) tail (suc fuel) s i h (cx, clean) ct here =
    let after = joined (p ∷ ps) xs ++ tail in
    let here' : At s i (x ++ ((p ∷ ps) ++ after)) =
      rw (← append_assoc (p ∷ ps) (joined (p ∷ ps) xs) tail)
        (rw (← append_assoc x ((p ∷ ps) ++ joined (p ∷ ps) xs) tail) here) in
    let found = find_from-At here' (p ∷ ps) ∙ ap (shift i) (find-append p ps x after cx) in
    let piece = substr-At x _ (i + length x - i) (omega arith) here' in
    let behind =
      At-append-At (p ∷ ps) after (i + length x + suc (length ps)) refl
        (At-append-At x _ (i + length x) refl here') in
    let rest =
      split_loop-joined p ps xs tail fuel s (i + length x + suc (length ps)) (omega arith) clean ct
        behind in
    ground arith

length-le-joined : (p : ℕ) (ps : Bytes) (xs : List Bytes) → length xs ≤ length (joined (p ∷ ps) xs)
length-le-joined p ps [] = omega arith
length-le-joined p ps (x ∷ xs) = omega (
  arith,
  length-append x ((p ∷ ps) ++ joined (p ∷ ps) xs),
  length-append ps (joined (p ∷ ps) xs),
  length-le-joined p ps xs,
)

-- `SplitVectorToQueue` gives back the items of a text that is joined by a separator, none of which
-- holds its first byte; what stands behind the last separator is one more item, if not empty.
split_vector_to_queue-joined :
    (p : ℕ) (ps : Bytes) (xs : List Bytes) (tail : Bytes)
    → All (Lacks p) xs
    → Lacks p tail
    → split_vector_to_queue (p ∷ ps) (joined (p ∷ ps) xs ++ tail) ≡ ok (xs ++ piece_of tail)
unfolding split_vector_to_queue
split_vector_to_queue-joined p ps xs tail clean ct =
    let s = joined (p ∷ ps) xs ++ tail in
    split_loop-joined p ps xs tail (suc (length s)) s 0
      (omega (arith, length-append (joined (p ∷ ps) xs) tail, length-le-joined p ps xs)) clean ct
      (At-zero s)

-- A queue that is merged and split again, by a separator that is not empty and whose first byte is in
-- no item, is the same queue.
pub split-merge_queue :
    (p : ℕ) (ps : Bytes) (queue : List Bytes)
    → All (Lacks p) queue
    → split_vector_to_queue (p ∷ ps) (merge_queue_to_vector (p ∷ ps) queue).0 ≡ ok queue
split-merge_queue p ps queue clean = rw (merge_queue_to_vector-joined (p ∷ ps) queue) (
    ap (split_vector_to_queue (p ∷ ps)) (sym (append-nil (joined (p ∷ ps) queue)))
    ∙ split_vector_to_queue-joined p ps queue [] clean tt
    ∙ ap ok (append-nil queue))
