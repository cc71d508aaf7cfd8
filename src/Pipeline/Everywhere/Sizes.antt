-- ===== src/Pipeline/Everywhere/Sizes.antt =====
-- The sizes of what one read and one header bring.
use mathlib.Core.Path.{subst}
use technopark_highload.Client.Reads.{recv_vector-le, before_nul-le, recv_header_async-eq_ok}
use technopark_highload.Client.{HttpClient, recv_header_async, split_message, before_nul}
use technopark_highload.Decimal.{stoi, skip_spaces, after_spaces, signed}
use technopark_highload.Dict.{at, lookup}
use technopark_highload.Http.Request.{HttpRequest, get_content_length}
use technopark_highload.Prelude.Int.{ℤ, pos, negsuc, clamp}
use technopark_highload.Prelude.{
  ℕ, ◌+◌, ◌/◌, ◌^◌, ◌≤◌, ◌<◌, ◌≡◌, refl, inl, inr, arith, Bool, true, false, ◌==◌, [], ◌∷◌, ◌++◌,
  length, length-append, length-take, length-drop, drop, Option-cases, Bool-cases, Bytes, codes,
}
use technopark_highload.Result.{ok, Result-cases, invalid_argument, out_of_range}
use technopark_highload.Socket.Receive.{Answer}

split_message-le :
    (c : HttpClient) (text binary : Bytes) (i shift : ℕ)
    → c.header ≡ []
    → c.body ≡ []
    → length text + length binary ≤ 256
    → (length (split_message c text binary i shift).header ≤ 256)
      × (length (split_message c text binary i shift).body ≤ 256)
unfolding split_message
split_message-le c text [] i shift no_header no_body small =
    rw no_header
      (omega (arith, length-take (i + shift / 2) text), omega (arith, length-drop (i + shift) text))
split_message-le c text (b ∷ bs) i shift no_header no_body small =
    let rest = drop (i + shift) text in
    rw (no_header, no_body)
      (
        omega (arith, length-take (i + shift / 2) text),
        omega (
          arith,
          length-drop (i + shift) text,
          length-append rest ((b ∷ bs) ++ []),
          length-append (b ∷ bs) [],
        ),
      )

-- One read brings at most 256 bytes of header and body.
pub recv_header_async-le :
    (c : HttpClient) (a : Answer) {c' : HttpClient}
    → c.header ≡ []
    → c.body ≡ []
    → recv_header_async c a ≡ ok c'
    → (length c'.header ≤ 256) × (length c'.body ≤ 256)
recv_header_async-le c a {c' = c'} no_header no_body e =
    let (buffer, i, shift, read, found, same) = recv_header_async-eq_ok c a e in
    let size = length (before_nul buffer) in
    let small =
      split_message-le c (before_nul buffer) (drop size buffer) i shift no_header no_body
        (omega (arith, recv_vector-le a read, before_nul-le buffer, length-drop size buffer)) in
    subst (λ (d : HttpClient). (length d.header ≤ 256) × (length d.body ≤ 256)) same small

pub recv_header_async_received :
    (c : HttpClient) (a : Answer) {c' : HttpClient}
    → recv_header_async c a ≡ ok c'
    → c'.received_header ≡ true
recv_header_async_received c a {c' = c'} e =
    let (buffer, i, shift, read, found, same) = recv_header_async-eq_ok c a e in
    subst (λ (d : HttpClient). d.received_header ≡ true) same refl

signed-lt : (negative : Bool) (s : Bytes) {n : ℤ} → signed negative s ≡ ok n → clamp n < 2 ^ 31
unfolding signed
signed-lt true s {n = pos m} e = ground arith
signed-lt true s {n = negsuc m} e = omega arith
signed-lt false s {n = pos m} e = ground arith
signed-lt false s {n = negsuc m} e = omega arith

after_spaces-lt : (s : Bytes) {n : ℤ} → after_spaces s ≡ ok n → clamp n < 2 ^ 31
unfolding after_spaces
after_spaces-lt [] e = cc
after_spaces-lt (c ∷ s) {n = n} e = elim (Bool-cases (c == b'-')) [
  | inl minus ↦ signed-lt true s {n = n} (ground arith)
  | inr other ↦ elim (Bool-cases (c == b'+')) [
    | inl plus ↦ signed-lt false s {n = n} (ground arith)
    | inr digit ↦ signed-lt false (c ∷ s) {n = n} (ground arith)
  ]
]

-- A Content-Length is an `int`.
pub get_content_length-lt : (r : HttpRequest) {n : ℕ} → get_content_length r ≡ ok n → n < 2 ^ 31
unfolding get_content_length stoi at
get_content_length-lt r {n = n} e =
    elim (Option-cases (lookup (codes "Content-Length") r.headers)) [
      | inl missing ↦ ground arith
      | inr (text, there) ↦ elim (Result-cases (after_spaces (skip_spaces text))) [
        | inl (invalid_argument, thrown) ↦ ground arith
        | inl (out_of_range, thrown) ↦ ground arith
        | inl (x, thrown) ↦ ground arith
        | inr (k, value) ↦
            let small = after_spaces-lt (skip_spaces text) value in
            let same : clamp k ≡ n = ground arith in rw same at small
      ]
    ]
