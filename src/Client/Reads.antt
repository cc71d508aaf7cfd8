-- ===== src/Client/Reads.antt =====
-- What one read of `RecvHeaderAsync` comes to: a blank line is found, or the iterator that the body is
-- built from is undefined.
use technopark_highload.Client.{
  HttpClient, before_nul, parse_buffer, blank_line, bare_blank_line, find_header_end, split_message,
  npos, split_async, recv_header_async,
}
use technopark_highload.Prelude.{
  ℕ, ◌+◌, ◌≤◌, ◌<◌, ◌≡◌, refl, ap, Bool, true, inl, inr, none, some, [], ◌∷◌, ◌++◌, arith, length,
  length-append, length-drop, drop, Option-cases, Bytes,
}
use technopark_highload.Result.{ok, err, undefined_behaviour, Result-cases}
use technopark_highload.Socket.Receive.{Answer, bytes, again, broken, recv_vector}
use technopark_highload.Text.Search.{find-starts_with}
use technopark_highload.Text.{starts_with, find}

pub recv_vector-le : (a : Answer) {b : Bytes} → recv_vector a ≡ ok b → length b ≤ 256
unfolding recv_vector
recv_vector-le (bytes []) e = cc
recv_vector-le (bytes (c ∷ s)) e = ground arith
recv_vector-le again e = cc
recv_vector-le broken e = cc

pub before_nul-le : (b : Bytes) → length (before_nul b) ≤ length b
unfolding before_nul
before_nul-le [] = omega arith
before_nul-le (c ∷ s) = ground (arith, before_nul-le s)

pub starts_with-drop : (pat s : Bytes) → starts_with pat s ≡ true → s ≡ pat ++ drop (length pat) s
unfolding starts_with
starts_with-drop [] s e = refl
starts_with-drop (p ∷ pat) [] e = cc
starts_with-drop (p ∷ pat) (c ∷ s) e = ground (arith, starts_with-drop pat s)

-- What is found lies in the text.
find-le :
    (c : ℕ) (pat s : Bytes) (i : ℕ) → find (c ∷ pat) s ≡ some i → i + length (c ∷ pat) ≤ length s
find-le c pat s i e =
    let size =
      ap length (starts_with-drop (c ∷ pat) (drop i s) (find-starts_with (c ∷ pat) s i e)) in
    omega (arith, length-drop i s, length-append (c ∷ pat) (drop (length (c ∷ pat)) (drop i s)))

find_header_end-le :
    (text : Bytes) (i shift : ℕ) → find_header_end text ≡ some (i, shift) → i + shift ≤ length text
unfolding find_header_end
find_header_end-le text i shift e = elim (Option-cases (find blank_line text)) [
  | inr (j, found) ↦ let fits = find-le 13 _ text j found in ground arith
  | inl missing ↦ elim (Option-cases (find bare_blank_line text)) [
    | inr (j, found) ↦ let fits = find-le 10 _ text j found in ground arith
    | inl nothing ↦ ground arith
  ]
]

-- With a blank line the buffer is split there.
pub recv_header_async-found :
    (c : HttpClient) (a : Answer) (buffer : Bytes) (i shift : ℕ)
    → recv_vector a ≡ ok buffer
    → find_header_end (before_nul buffer) ≡ some (i, shift)
    → recv_header_async c a
      ≡ ok
          (record (split_message c
            (before_nul buffer)
            (drop (length (before_nul buffer)) buffer)
            i
            shift) { received_header = true })
unfolding recv_header_async split_async parse_buffer
recv_header_async-found c a buffer i shift read found =
    let fits = find_header_end-le (before_nul buffer) i shift found in ground arith

split_async-beyond :
    (c : HttpClient) (text binary : Bytes) (i shift : ℕ) (received : Bool)
    → length text < i + shift
    → split_async c text binary i shift received ≡ err undefined_behaviour
unfolding split_async
split_async-beyond c text binary i shift received h = ground arith

-- Without one `npos` lies behind the end of any text that is read.
pub recv_header_async-missing :
    (c : HttpClient) (a : Answer) (buffer : Bytes)
    → recv_vector a ≡ ok buffer
    → find_header_end (before_nul buffer) ≡ none
    → recv_header_async c a ≡ err undefined_behaviour
unfolding recv_header_async parse_buffer
recv_header_async-missing c a buffer read missing =
    let short : length (before_nul buffer) < npos + 0 =
      omega (arith, recv_vector-le a read, before_nul-le buffer) in
    let beyond =
      split_async-beyond c (before_nul buffer) (drop (length (before_nul buffer)) buffer) npos 0
        c.received_header short in
    ground arith

-- A read that goes on has found a blank line.
pub recv_header_async-eq_ok :
    (c : HttpClient) (a : Answer) {c' : HttpClient}
    → recv_header_async c a ≡ ok c'
    → (buffer : Bytes) × (i : ℕ) × (shift : ℕ) × (recv_vector a ≡ ok buffer)
      × (find_header_end (before_nul buffer) ≡ some (i, shift))
      × (record (split_message c
            (before_nul buffer)
            (drop (length (before_nul buffer)) buffer)
            i
            shift) { received_header = true }
          ≡ c')
recv_header_async-eq_ok c a {c' = c'} e = elim (Result-cases (recv_vector a)) [
  | inl (x, thrown) ↦ unfold recv_header_async in ground arith
  | inr (buffer, read) ↦ elim (Option-cases (find_header_end (before_nul buffer))) [
    | inl missing ↦ let stuck = recv_header_async-missing c a buffer read missing in cc
    | inr ((i, shift), found) ↦
        let goes = recv_header_async-found c a buffer i shift read found in
        (buffer, i, shift, read, found, cc)
  ]
]
