-- ===== src/Text.antt =====
-- The members of `std::string` that the program calls, over lists of bytes. A position `npos` is
-- `none`; the callers write out what their arithmetic does with it.
pub mod Laws
pub mod Search
use technopark_highload.Prelude.{
  ℕ, zero, suc, ◌+◌, Bool, true, false, ◌&&◌, Option, none, some, List, [], ◌∷◌, leb, ◌==◌,
  if◌then◌else◌, length, take, drop, Bytes,
}
use technopark_highload.Result.{Result, ok, err, out_of_range, undefined_behaviour}

-- `operator==`
unfoldable pub equal : Bytes → Bytes → Bool
equal [] [] = true
equal [] (d ∷ t) = false
equal (c ∷ s) [] = false
equal (c ∷ s) (d ∷ t) = c == d && equal s t

unfoldable pub starts_with : Bytes → Bytes → Bool
starts_with [] s = true
starts_with (p ∷ ps) [] = false
starts_with (p ∷ ps) (c ∷ s) = p == c && starts_with ps s

abbrev pub shift : ℕ → Option ℕ → Option ℕ
shift n none = none
shift n (some i) = some (n + i)

-- `s.find(pat)`
unfoldable pub find : Bytes → Bytes → Option ℕ
unfolding starts_with
find pat [] = if starts_with pat [] then some 0 else none
find pat (c ∷ s) = if starts_with pat (c ∷ s) then some 0 else shift 1 (find pat s)

-- `s.find(pat, pos)`
unfoldable pub find_from : Bytes → Bytes → ℕ → Option ℕ
find_from pat s pos = if leb pos (length s) then shift pos (find pat (drop pos s)) else none

-- `s.find(c)`
unfoldable pub find_char : ℕ → Bytes → Option ℕ
find_char b [] = none
find_char b (c ∷ s) = if c == b then some 0 else shift 1 (find_char b s)

-- `s.find(c, pos)`
unfoldable pub find_char_from : ℕ → Bytes → ℕ → Option ℕ
unfolding find_char
find_char_from b s pos = if leb pos (length s) then shift pos (find_char b (drop pos s)) else none

-- the last position of the byte
unfoldable pub rfind_char : ℕ → Bytes → Option ℕ
rfind_char b [] = none
rfind_char b (c ∷ s) = elim (rfind_char b s) [
  | some i ↦ some (suc i)
  | none ↦ if c == b then some 0 else none
]

-- `s.rfind(c, pos)`: the last position at or before `pos`
unfoldable pub rfind_char_upto : ℕ → Bytes → Option ℕ → Option ℕ
unfolding rfind_char
rfind_char_upto b s none = rfind_char b s
rfind_char_upto b s (some pos) = rfind_char b (take (suc pos) s)

-- `s.substr(pos, count)`, and `s.substr(pos)` for the count `npos`
unfoldable pub substr : Bytes → ℕ → Option ℕ → Result Bytes
substr s pos none = if leb pos (length s) then ok (drop pos s) else err out_of_range
substr s pos (some count) =
    if leb pos (length s) then ok (take count (drop pos s)) else err out_of_range

-- `while (s[i] != a && s[i] != b) ++i;` from the front of `s`. `s[size()]` is the byte 0 and
-- stops no loop of the program; a read behind it is undefined.
unfoldable pub scan : (ℕ → Bool) → Bytes → Result ℕ
scan stop [] = err undefined_behaviour
scan stop (c ∷ s) = elim (stop c) [
  | true ↦ ok 0
  | false ↦ elim (scan stop s) [ ok i ↦ ok (suc i) | err e ↦ err e ]
]

-- the same loop from position `i`
unfoldable pub scan_from : (ℕ → Bool) → Bytes → ℕ → Result ℕ
scan_from stop s i =
    if leb i (length s)
    then elim (scan stop (drop i s)) [ ok n ↦ ok (i + n) | err e ↦ err e ]
    else err undefined_behaviour
