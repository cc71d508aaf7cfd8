-- ===== src/Decimal.antt =====
-- `std::to_string` of a `size_t` and `std::stoi`, the two conversions behind every Content-Length.
pub mod RoundTrip
use technopark_highload.Prelude.Int.{ℤ, pos, negsuc}
use technopark_highload.Prelude.{
  ℕ, zero, suc, ◌+◌, ◌-◌, ◌*◌, ◌/◌, ◌%◌, ◌^◌, Bool, true, false, ◌&&◌, ◌||◌, [], ◌∷◌, ltb, leb,
  ◌==◌, if◌then◌else◌, Bytes,
}
use technopark_highload.Result.{Result, ok, err, invalid_argument, out_of_range}

abbrev pub is_digit : ℕ → Bool
is_digit c = leb b'0' c && leb c b'9'

-- `isspace` in the C locale
abbrev pub is_space : ℕ → Bool
is_space c = c == 32 || (leb 9 c && leb c 13)

-- the digits of `n` before `out`; each round divides by ten, so `n + 1` rounds are enough
unfoldable pub digits : ℕ → ℕ → Bytes → Bytes
digits zero n out = out
digits (suc fuel) n out =
    let rest = digits fuel (n / 10) ((b'0' + n % 10) ∷ out) in
    if ltb n 10 then (b'0' + n) ∷ out else rest

unfoldable pub to_string : ℕ → Bytes
unfolding digits
to_string n = digits (suc n) n []

-- the value of the leading digits, from the value read so far
unfoldable pub read_digits : ℕ → Bytes → ℕ
read_digits n [] = n
read_digits n (c ∷ s) =
    let rest = read_digits (n * 10 + (c - b'0')) s in if is_digit c then rest else n

unfoldable pub skip_spaces : Bytes → Bytes
skip_spaces [] = []
skip_spaces (c ∷ s) = let rest = skip_spaces s in if is_space c then rest else c ∷ s

abbrev pub starts_with_digit : Bytes → Bool
starts_with_digit [] = false
starts_with_digit (c ∷ _) = is_digit c

abbrev negate : ℕ → ℤ
negate zero = pos 0
negate (suc n) = negsuc n

-- the number behind the sign, held to the range of `int`
unfoldable pub signed : Bool → Bytes → Result ℤ
unfolding read_digits
signed negative s =
    let n = read_digits 0 s in
    if starts_with_digit s
    then (if negative
        then (if leb n (2 ^ 31) then ok (negate n) else err out_of_range)
        else (if ltb n (2 ^ 31) then ok (pos n) else err out_of_range))
    else err invalid_argument

unfoldable pub after_spaces : Bytes → Result ℤ
unfolding signed
after_spaces [] = err invalid_argument
after_spaces (c ∷ s) =
    if c == b'-' then signed true s else if c == b'+' then signed false s else signed false (c ∷ s)

unfoldable pub stoi : Bytes → Result ℤ
unfolding skip_spaces after_spaces
stoi s = after_spaces (skip_spaces s)
