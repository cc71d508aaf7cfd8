-- ===== src/Http/ResponseReader/Status.antt =====
-- The status text that `GetReturnCode` returns.
use technopark_highload.Decimal.{is_digit}
use technopark_highload.Http.ResponseReader.{last_digit, get_return_code}
use technopark_highload.Prelude.{
  ℕ, ◌+◌, ◌-◌, ◌≡◌, refl, true, false, none, some, [], ◌∷◌, ◌++◌, append_assoc, arith, length,
  length-append, take-append, All, Lacks, Bytes,
}
use technopark_highload.Result.{ok}
use technopark_highload.Text.Laws.{At, find_char-append, substr-At}

last_digit-none : (s : Bytes) → All (λ c. is_digit c ≡ false) s → last_digit s ≡ none
unfolding last_digit
last_digit-none [] h = refl
last_digit-none (c ∷ s) (n, h) = rw (last_digit-none s h) (rw n)

last_digit-append :
    (a : Bytes) (d : ℕ) (s : Bytes)
    → is_digit d ≡ true
    → All (λ c. is_digit c ≡ false) s
    → last_digit (a ++ d ∷ s) ≡ some (length a)
unfolding last_digit
last_digit-append [] d s e h = rw (last_digit-none s h) (rw e)
last_digit-append (c ∷ a) d s e h = rw (last_digit-append a d s e h)

-- Of a status line that ends in `abd` and a text with no digit, `GetReturnCode` returns these
-- without the last byte: the count is one too small. So `200 OK` is returned as `200 O`.
pub get_return_code-last_byte :
    (before : Bytes) (a b d : ℕ) (text : Bytes) (last : ℕ) (rest : Bytes)
    → Lacks 13 (before ++ (a ∷ b ∷ d ∷ (text ++ last ∷ [])))
    → is_digit d ≡ true
    → All (λ c. is_digit c ≡ false) (text ++ last ∷ [])
    → get_return_code ((before ++ (a ∷ b ∷ d ∷ (text ++ last ∷ []))) ++ 13 ∷ rest)
      ≡ ok (a ∷ b ∷ d ∷ text)
unfolding get_return_code
get_return_code-last_byte before a b d text last rest clean digit no_digit =
    let line = before ++ (a ∷ b ∷ d ∷ (text ++ last ∷ [])) in
    let message = line ++ 13 ∷ rest in
    let ends = find_char-append 13 line rest clean in
    let cut = take-append line (13 ∷ rest) in
    let regrouped : line ≡ (before ++ a ∷ b ∷ []) ++ d ∷ (text ++ last ∷ []) = simp append_assoc in
    let digits : last_digit line ≡ some (length (before ++ a ∷ b ∷ [])) =
      rw regrouped
        (last_digit-append (before ++ a ∷ b ∷ []) d (text ++ last ∷ []) digit no_digit) in
    let here : At message (length before) ((a ∷ b ∷ d ∷ text) ++ (last ∷ 13 ∷ rest)) = record {
      before = before;
      splits = simp append_assoc;
      position = refl;
    } in
    let size = length-append before (a ∷ b ∷ d ∷ (text ++ last ∷ [])) in
    let text_size = length-append text (last ∷ []) in
    let two = length-append before (a ∷ b ∷ []) in
    let read =
      substr-At (a ∷ b ∷ d ∷ text) (last ∷ 13 ∷ rest)
        (length line - length (before ++ a ∷ b ∷ []) + 1) (omega arith) here in
    let start : length (before ++ a ∷ b ∷ []) - 2 ≡ length before = omega arith in ground arith
