-- ===== src/Text/Search.antt =====
-- Where a search or a loop over a text can end.
use technopark_highload.Prelude.{
  ℕ, zero, suc, ◌+◌, ◌≤◌, ◌<◌, ◌≡◌, ◌≢◌, refl, Bool, true, Option, none, some, [], ◌∷◌, ◌++◌, inl,
  inr, arith, leb, length, length-append, length-drop, drop, Bool-cases, Option-cases, take, Lacks,
  Bytes,
}
use native.Mathlib.Nat.{zero-add, suc-add}
use technopark_highload.Result.{ok}
use technopark_highload.Text.{starts_with, find, find_from, find_char, substr, scan, scan_from}

-- A position that `find` returns holds the pattern.
pub find-starts_with :
    (pat s : Bytes) (p : ℕ) → find pat s ≡ some p → starts_with pat (drop p s) ≡ true
unfolding find
find-starts_with pat [] p e = ground arith
find-starts_with pat (c ∷ s) zero e = ground arith
find-starts_with pat (c ∷ s) (suc p) e = ground (arith, find-starts_with pat s p)

pub find_char-lt : (b : ℕ) (s : Bytes) (i : ℕ) → find_char b s ≡ some i → i < length s
unfolding find_char
find_char-lt b [] i e = cc
find_char-lt b (c ∷ s) zero e = omega arith
find_char-lt b (c ∷ s) (suc i) e = ground (arith, find_char-lt b s i)

abbrev pub line_end : Bytes
line_end = 13 ∷ 10 ∷ []

starts_with_fits :
    (pat body : Bytes)
    → Lacks 13 pat
    → starts_with pat (body ++ line_end) ≡ true
    → length pat ≤ length body
unfolding starts_with
starts_with_fits [] body a e = omega arith
starts_with_fits (c ∷ pat) [] a e = ground arith
starts_with_fits (c ∷ pat) (d ∷ body) a e = ground (arith, starts_with_fits pat body)

drop_fits :
    (b : ℕ) (pat body : Bytes) (p : ℕ)
    → Lacks 13 (b ∷ pat)
    → b ≢ 10
    → starts_with (b ∷ pat) (drop p (body ++ line_end)) ≡ true
    → p + suc (length pat) ≤ length body
unfolding starts_with
drop_fits b pat body zero a ne e = omega (arith, starts_with_fits (b ∷ pat) body a e)
drop_fits b pat (c ∷ body) (suc p) a ne e = omega (arith, drop_fits b pat body p a ne e)
drop_fits b pat [] (suc zero) a ne e = ground arith
drop_fits b pat [] (suc (suc zero)) a ne e = ground arith
drop_fits b pat [] (suc (suc (suc p))) a ne e = ground arith

pub drop-drop : (i n : ℕ) (s : Bytes) → drop n (drop i s) ≡ drop (i + n) s
drop-drop zero n s = rw zero-add
drop-drop (suc i) zero [] = rw suc-add
drop-drop (suc i) (suc n) [] = rw suc-add
drop-drop (suc i) n (x ∷ s) = rw suc-add (drop-drop i n s)

-- What a search finds in a text that a line end closes lies before that end.
pub find_from-fits :
    (b : ℕ) (pat body : Bytes) (i p : ℕ)
    → Lacks 13 (b ∷ pat)
    → b ≢ 10
    → find_from (b ∷ pat) (body ++ line_end) i ≡ some p
    → (i ≤ p) × (p + suc (length pat) ≤ length body)
unfolding find_from
find_from-fits b pat body i p a ne e =
    elim (Option-cases (find (b ∷ pat) (drop i (body ++ line_end)))) [
      | inl miss ↦ absurd (ground arith)
      | inr (n, hit) ↦
          let within = find-starts_with (b ∷ pat) (drop i (body ++ line_end)) n hit in
          let moved = rw (drop-drop i n (body ++ line_end)) at within in
          let at_p : p ≡ i + n = ground arith in
          let fits = drop_fits b pat body (i + n) a ne moved in (omega arith, omega arith)
    ]

scan_ends :
    (stop : ℕ → Bool) (body : Bytes)
    → stop 13 ≡ true
    → (n : ℕ) × (scan stop (body ++ line_end) ≡ ok n) × (n ≤ length body)
unfolding scan
scan_ends stop [] e = (0, ground arith, omega arith)
scan_ends stop (c ∷ body) e = elim (Bool-cases (stop c)) [
  | inl here ↦ (0, rw here, omega arith)
  | inr past ↦
      let (n, found, fits) = scan_ends stop body e in (suc n, rw past (rw found), omega arith)
]

pub drop-append_le : (i : ℕ) (s t : Bytes) → i ≤ length s → drop i (s ++ t) ≡ drop i s ++ t
drop-append_le zero s t h = refl
drop-append_le (suc i) [] t h = absurd (omega arith)
drop-append_le (suc i) (c ∷ s) t h = drop-append_le i s t (omega arith)

-- A loop that stops at a carriage return ends at the closing line end at the latest.
pub scan_from_ends :
    (stop : ℕ → Bool) (body : Bytes) (i : ℕ)
    → stop 13 ≡ true
    → i ≤ length body
    → (j : ℕ) × (scan_from stop (body ++ line_end) i ≡ ok j) × (i ≤ j) × (j ≤ length body)
unfolding scan_from
scan_from_ends stop body i e h =
    let (n, found, fits) = scan_ends stop (drop i body) e in
    let within : leb i (length (body ++ line_end)) ≡ true =
      ground (arith, length-append body line_end) in
    (
      i + n,
      rw (within, drop-append_le i body line_end h) (rw found),
      omega arith,
      omega (arith, length-drop i body),
    )

pub substr_within :
    (s : Bytes) (i : ℕ) (count : Option ℕ) → i ≤ length s → (t : Bytes) × (substr s i count ≡ ok t)
unfolding substr
substr_within s i none h = (drop i s, ground arith)
substr_within s i (some n) h = (take n (drop i s), ground arith)

pub find_char-line_end :
    (b : ℕ) (body : Bytes) (i : ℕ)
    → b ≢ 13
    → b ≢ 10
    → find_char b (body ++ line_end) ≡ some i
    → i < length body
unfolding find_char
find_char-line_end b [] i r n e = ground arith
find_char-line_end b (c ∷ body) zero r n e = omega arith
find_char-line_end b (c ∷ body) (suc i) r n e = ground (arith, find_char-line_end b body i)

pub not-Lacks-line_end : (body : Bytes) → ¬ Lacks 13 (body ++ line_end)
not-Lacks-line_end [] h = h.0 refl
not-Lacks-line_end (c ∷ body) h = not-Lacks-line_end body h.1
