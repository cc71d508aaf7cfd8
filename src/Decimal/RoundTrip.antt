-- ===== src/Decimal/RoundTrip.antt =====
-- A printed number is read back, unless it does not fit an `int`.
use technopark_highload.Prelude.Int.{ℤ, pos, clamp}
use technopark_highload.Prelude.{
  ℕ, zero, suc, ◌+◌, ◌/◌, ◌%◌, ◌^◌, ◌<◌, ◌≡◌, ◌≢◌, refl, ◌∙◌, true, [], ◌∷◌, arith, ltb,
  if◌then◌else◌, All, Lacks, Bytes,
}
use technopark_highload.Result.{ok, err, out_of_range}
use technopark_highload.Decimal.{is_digit, digits, to_string, read_digits, stoi}

read_last : (n : ℕ) (out : Bytes) → read_digits (n / 10) ((b'0' + n % 10) ∷ out) ≡ read_digits n out
unfolding read_digits
read_last n out = ground arith

read_digits-digits :
    (fuel n : ℕ) (out : Bytes) → n < fuel → read_digits 0 (digits fuel n out) ≡ read_digits n out
unfolding digits read_digits
read_digits-digits zero n out h = absurd (omega arith)
read_digits-digits (suc fuel) n out h =
    ground (arith, read_digits-digits fuel (n / 10) ((b'0' + n % 10) ∷ out), read_last n out)

abbrev pub AllDigits : Bytes → Type 0
AllDigits = All (λ c. is_digit c ≡ true)

digits-AllDigits :
    (fuel n : ℕ) (out : Bytes) → n < fuel → AllDigits out → AllDigits (digits fuel n out)
unfolding digits
digits-AllDigits zero n out h d = absurd (omega arith)
digits-AllDigits (suc fuel) n out h d =
    ground (arith, digits-AllDigits fuel (n / 10) ((b'0' + n % 10) ∷ out))

-- A printed number consists of digits.
pub to_string-AllDigits : (n : ℕ) → AllDigits (to_string n)
unfolding to_string
to_string-AllDigits n = digits-AllDigits (suc n) n [] (omega arith) tt

digits-ne-nil : (fuel n : ℕ) (out : Bytes) → n < fuel → digits fuel n out ≢ []
unfolding digits
digits-ne-nil zero n out h = absurd (omega arith)
digits-ne-nil (suc fuel) n out h =
    ground (arith, digits-ne-nil fuel (n / 10) ((b'0' + n % 10) ∷ out))

pub to_string-ne-nil : (n : ℕ) → to_string n ≢ []
unfolding to_string
to_string-ne-nil n = digits-ne-nil (suc n) n [] (omega arith)

pub Lacks-AllDigits : (b : ℕ) (s : Bytes) → is_digit b ≢ true → AllDigits s → Lacks b s
Lacks-AllDigits b [] no_digit d = tt
Lacks-AllDigits b (c ∷ s) no_digit (d, ds) =
    (λ e. no_digit (rw e at d), Lacks-AllDigits b s no_digit ds)

-- Of a text of digits the whole is the number.
pub stoi_digits :
    (s : Bytes)
    → AllDigits s
    → s ≢ []
    → stoi s ≡ (let n = read_digits 0 s in if ltb n (2 ^ 31) then ok (pos n) else err out_of_range)
unfolding stoi
stoi_digits [] d ne = absurd (ne refl)
stoi_digits (c ∷ s) (d, ds) ne = ground arith

read_digits-to_string : (n : ℕ) → read_digits 0 (to_string n) ≡ n
unfolding to_string read_digits
read_digits-to_string n = read_digits-digits (suc n) n [] (omega arith)

-- `std::stoi` gives back what `std::to_string` printed, and throws past the largest `int`.
pub stoi-to_string :
    (n : ℕ) → stoi (to_string n) ≡ (if ltb n (2 ^ 31) then ok (pos n) else err out_of_range)
stoi-to_string n =
    stoi_digits (to_string n) (to_string-AllDigits n) (to_string-ne-nil n)
    ∙ rw (read_digits-to_string n)

-- What `std::stoi` returns is an `int`.
pub stoi-lt : (s : Bytes) {i : ℤ} → stoi s ≡ ok i → clamp i < 2 ^ 31
unfolding stoi
stoi-lt s h = ground arith
