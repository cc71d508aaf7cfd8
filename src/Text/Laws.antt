-- ===== src/Text/Laws.antt =====
-- Reading a text from a position: the text from there on is all that the members look at.
use technopark_highload.Prelude.{
  ℕ, ◌+◌, ◌≤◌, ◌≡◌, refl, sym, ap, ◌∙◌, ◌≢◌, ◌↔◌, Bool, true, false, none, some, [], ◌∷◌, ◌++◌,
  arith, leb, ◌==◌, ==_iff, length, length-append, drop, drop-append, append_assoc, take-append,
  All, Lacks, Bytes,
}
use technopark_highload.Result.{ok, err}
use technopark_highload.Text.{
  equal, starts_with, shift, find, find_from, find_char, substr, scan, scan_from,
}

pub equal_iff : (s t : Bytes) → (equal s t ≡ true) ↔ (s ≡ t)
unfolding equal
equal_iff [] [] = ground arith
equal_iff [] (d ∷ t) = ground arith
equal_iff (c ∷ s) [] = ground arith
equal_iff (c ∷ s) (d ∷ t) = ground (equal_iff s t, arith)

pub equal_self : (a : Bytes) → equal a a ≡ true
equal_self a = (equal_iff a a).1 refl

pub equal_ne : (a b : Bytes) → a ≢ b → equal a b ≡ false
equal_ne a b h = ground (arith, equal_iff a b)

pub starts_with-append : (p s : Bytes) → starts_with p (p ++ s) ≡ true
unfolding starts_with
starts_with-append [] s = refl
starts_with-append (c ∷ p) s = rw ((==_iff c c).1 refl) (starts_with-append p s)

-- The text of `s` from position `i` on is `rest`.
pub record At (s : Bytes) (i : ℕ) (rest : Bytes) : Type 0 where
  pub before : Bytes
  pub splits : s ≡ before ++ rest
  pub position : i ≡ length before

pub At-zero : (s : Bytes) → At s 0 s
At-zero s = record { before = []; splits = refl; position = refl }

module _ {s : Bytes} {i : ℕ} {rest : Bytes} (here : At s i rest) where
  pub At-drop : drop i s ≡ rest
  At-drop = rw (here.splits, here.position) (drop-append here.before rest)

  pub At-within : i ≤ length s
  At-within = omega (arith, ap length here.splits, length-append here.before rest, here.position)

  pub At-length : length s ≡ i + length rest
  At-length = omega (arith, ap length here.splits, length-append here.before rest, here.position)

  pub At-leb : leb i (length s) ≡ true
  At-leb = ground (arith, At-within)

  pub find_from-At : (pat : Bytes) → find_from pat s i ≡ shift i (find pat rest)
  unfolding find_from
  find_from-At pat = rw (At-leb, At-drop)

  pub substr_rest-At : substr s i none ≡ ok rest
  unfolding substr
  substr_rest-At = rw (At-leb, At-drop)

  pub scan_from-At :
      (stop : ℕ → Bool)
      → scan_from stop s i ≡ elim (scan stop rest) [ ok n ↦ ok (i + n) | err e ↦ err e ]
  unfolding scan_from
  scan_from-At stop = rw (At-leb, At-drop)

-- Past a piece of text.
pub At-append : {s : Bytes} {i : ℕ} (a rest : Bytes) → At s i (a ++ rest) → At s (i + length a) rest
At-append a rest here = record {
  before = here.before ++ a;
  splits = here.splits ∙ sym (append_assoc here.before a rest);
  position = omega (arith, here.position, length-append here.before a);
}

pub At-append-At :
    {s : Bytes} {i : ℕ} (a rest : Bytes) (j : ℕ)
    → j ≡ i + length a
    → At s i (a ++ rest)
    → At s j rest
At-append-At a rest j e here = rw e (At-append a rest here)

pub substr-At :
    {s : Bytes} {i : ℕ} (a rest : Bytes) (n : ℕ)
    → n ≡ length a
    → At s i (a ++ rest)
    → substr s i (some n) ≡ ok a
unfolding substr
substr-At a rest n e here = rw (At-leb here, At-drop here, e) (ap ok (take-append a rest))

-- The loop stops at the first byte that it waits for.
pub scan-append :
    (stop : ℕ → Bool) (a : Bytes) (c : ℕ) (rest : Bytes)
    → All (λ b. stop b ≡ false) a
    → stop c ≡ true
    → scan stop (a ++ c ∷ rest) ≡ ok (length a)
unfolding scan
scan-append stop [] c rest h e = rw e
scan-append stop (b ∷ a) c rest (no_b, h) e = rw no_b (rw (scan-append stop a c rest h e))

pub scan_from-append :
    (stop : ℕ → Bool) (s : Bytes) (i : ℕ) (a : Bytes) (c : ℕ) (rest : Bytes)
    → At s i (a ++ c ∷ rest)
    → All (λ b. stop b ≡ false) a
    → stop c ≡ true
    → scan_from stop s i ≡ ok (i + length a)
scan_from-append stop s i a c rest here h e =
    rw (scan_from-At here stop) (rw (scan-append stop a c rest h e))

pub find_char-append :
    (b : ℕ) (a rest : Bytes) → Lacks b a → find_char b (a ++ b ∷ rest) ≡ some (length a)
unfolding find_char
find_char-append b [] rest h = rw ((==_iff b b).1 refl)
find_char-append b (c ∷ a) rest (ne, h) = ground (arith, find_char-append b a rest h)

-- A pattern is found at once, and behind a text without its first byte.
pub find-append :
    (p : ℕ) (ps a rest : Bytes)
    → Lacks p a
    → find (p ∷ ps) (a ++ ((p ∷ ps) ++ rest)) ≡ some (length a)
unfolding find
find-append p ps [] rest h = rw (starts_with-append (p ∷ ps) rest)
find-append p ps (c ∷ a) rest (ne, h) = ground (arith, find-append p ps a rest h)

pub find-eq-none : (p : ℕ) (ps s : Bytes) → Lacks p s → find (p ∷ ps) s ≡ none
unfolding find
find-eq-none p ps [] h = refl
find-eq-none p ps (c ∷ s) (ne, h) = ground (arith, find-eq-none p ps s h)

pub Lacks-decided : (b : ℕ) (a : Bytes) → Lacks b a → All (λ c. (c == b) ≡ false) a
Lacks-decided b [] h = tt
Lacks-decided b (c ∷ a) (ne, h) = (ground arith, Lacks-decided b a h)
