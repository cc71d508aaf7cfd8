-- ===== src/Client/Header.antt =====
-- What one read of `RecvHeaderAsync` leaves in the client, and what the parser makes of it.
use technopark_highload.Client.{
  HttpClient, before_nul, parse_buffer, blank_line, bare_blank_line, find_header_end, split_message,
  recv_header_async,
}
use technopark_highload.Client.Reads.{
  starts_with-drop, recv_header_async-found, recv_header_async-missing,
}
use technopark_highload.Http.Request.Total.{BuildsOrRefuses, parse-BuildsOrRefuses}
use technopark_highload.Http.Request.{parse}
use technopark_highload.Prelude.{
  ℕ, zero, suc, ◌+◌, ◌≤◌, ◌≡◌, ◌≢◌, refl, sym, ap, ◌∙◌, true, none, some, [], ◌∷◌, ◌++◌, ◌↔◌, inl,
  inr, Option-cases, append-nil, arith, length, length-drop, take, take-append, drop, Bytes,
}
use native.Mathlib.Nat.{zero-add, suc-add}
use technopark_highload.Result.{ok, err, undefined_behaviour}
use technopark_highload.Socket.Receive.{bytes, recv_vector}
use technopark_highload.Text.Search.{line_end, find-starts_with, drop-append_le}
use technopark_highload.Text.{starts_with, find}

before_nul-append-drop : (s : Bytes) → before_nul s ++ drop (length (before_nul s)) s ≡ s
unfolding before_nul
before_nul-append-drop [] = refl
before_nul-append-drop (c ∷ s) = ground (arith, before_nul-append-drop s)

take-append_le : (i : ℕ) (s t : Bytes) → i ≤ length s → take i (s ++ t) ≡ take i s
take-append_le zero s t h = refl
take-append_le (suc i) [] t h = absurd (omega arith)
take-append_le (suc i) (c ∷ s) t h = rw (take-append_le i s t (omega arith))

take_split : (i : ℕ) (s a t : Bytes) → drop i s ≡ a ++ t → take (i + length a) s ≡ take i s ++ a
take_split zero s a t e = rw zero-add (rw e (take-append a t))
take_split (suc i) [] [] t e = rw suc-add
take_split (suc i) [] (x ∷ a) t e = cc
take_split (suc i) (c ∷ s) a t e = rw suc-add (ap (◌∷◌ c) (take_split i s a t e))

-- Where the parts of a buffer stand around the blank line at `i`.
record Around (buffer : Bytes) (i : ℕ) : Type 0 where
  within : i + 4 ≤ length (before_nul buffer)
  header : take (i + 2) (before_nul buffer) ≡ take i buffer ++ line_end
  body :
      drop (i + 4) (before_nul buffer) ++ drop (length (before_nul buffer)) buffer
      ≡ drop (i + 4) buffer

blank_line-Around :
    (buffer : Bytes) (i : ℕ) → find blank_line (before_nul buffer) ≡ some i → Around buffer i
blank_line-Around buffer i e =
    let text = before_nul buffer in
    let binary = drop (length text) buffer in
    let whole = before_nul-append-drop buffer in
    let split = starts_with-drop blank_line (drop i text) (find-starts_with blank_line text i e) in
    let size = ap length split in
    let fits : i + 4 ≤ length text = omega (arith, length-drop i text) in
    record {
      within = fits;
      header =
          take_split i text line_end (line_end ++ drop 4 (drop i text)) split
          ∙ ap (λ w. w ++ line_end)
              (sym (take-append_le i text binary (omega arith)) ∙ ap (take i) whole);
      body = sym (drop-append_le (i + 4) text binary fits) ∙ ap (drop (i + 4)) whole;
    }

split_message_lem :
    (c : HttpClient) (text binary : Bytes) (i : ℕ)
    → c.body ≡ []
    → split_message c text binary i 4 ≡ record c {
      header = c.header ++ take (i + 2) text;
      body = drop (i + 4) text ++ binary;
      received_header = true;
    }
unfolding split_message
split_message_lem c text [] i fresh =
    ap (λ b. record c { header = c.header ++ take (i + 2) text; body = b; received_header = true })
      (sym (append-nil (drop (i + 4) text)))
split_message_lem c text (b ∷ bs) i fresh =
    ap
      (λ w. record c {
        header = c.header ++ take (i + 2) text;
        body = drop (i + 4) text ++ w;
        received_header = true;
      })
      (ap (λ w. (b ∷ bs) ++ w) fresh ∙ append-nil (b ∷ bs))

-- A buffer that the first read of a client returns, with a blank line at `i` before any byte 0:
-- the header is what stands before it, closed by a line end, and the body is all that stands
-- behind it, bytes 0 included.
pub recv_header_async_lem :
    (c : HttpClient) (buffer : Bytes) (i : ℕ)
    → c.body ≡ []
    → length buffer ≤ 256
    → find blank_line (before_nul buffer) ≡ some i
    → recv_header_async c (bytes buffer)
      ≡ ok (record c {
        header = c.header ++ (take i buffer ++ line_end);
        body = drop (i + 4) buffer;
        received_header = true;
      })
unfolding recv_header_async find_header_end parse_buffer recv_vector
recv_header_async_lem c [] i fresh small e =
    absurd (unfold before_nul find starts_with in ground arith)
recv_header_async_lem c (b ∷ buffer) i fresh small e =
    let goes = recv_header_async-found c (bytes (b ∷ buffer)) (b ∷ buffer) i 4 in
    let around = blank_line-Around (b ∷ buffer) i e in
    let header = around.header in
    let body = around.body in
    let split =
      split_message_lem c (before_nul (b ∷ buffer))
        (drop (length (before_nul (b ∷ buffer))) (b ∷ buffer)) i fresh in
    ground arith

-- A read of 1 to 256 bytes is undefined exactly if neither blank line stands in it before any byte 0,
-- as when a header arrives in two pieces.
pub recv_header_async_partial :
    (c : HttpClient) (buffer : Bytes)
    → buffer ≢ []
    → length buffer ≤ 256
    → ((recv_header_async c (bytes buffer) ≡ err undefined_behaviour) ↔ (
        (find blank_line (before_nul buffer) ≡ none)
        × (find bare_blank_line (before_nul buffer) ≡ none)))
unfolding find_header_end recv_vector
recv_header_async_partial c [] ne small = absurd (ne refl)
recv_header_async_partial c (b ∷ buffer) ne small =
    let read : recv_vector (bytes (b ∷ buffer)) ≡ ok (b ∷ buffer) = ground arith in
    let text = before_nul (b ∷ buffer) in
    (
      λ stuck. elim (Option-cases (find_header_end text)) [
        | inr ((i, shift), found) ↦
            let goes =
              recv_header_async-found c (bytes (b ∷ buffer)) (b ∷ buffer) i shift read found in
            cc
        | inl missing ↦ elim (Option-cases (find blank_line text)) [
          | inr (i, found) ↦ ground arith
          | inl crlf ↦ elim (Option-cases (find bare_blank_line text)) [
            | inr (i, found) ↦ ground arith
            | inl bare ↦ (crlf, bare)
          ]
        ]
      ],
      λ h.
          recv_header_async-missing c (bytes (b ∷ buffer)) (b ∷ buffer) read
            (let crlf = h.0 in let bare = h.1 in ground arith),
    )

-- A new client that reads a blank line of `\r\n` in its first buffer has a header that
-- `HttpRequest` parses or refuses.
recv_header_async-BuildsOrRefuses :
    (c : HttpClient) (buffer : Bytes) (i : ℕ)
    → c.header ≡ []
    → c.body ≡ []
    → length buffer ≤ 256
    → find blank_line (before_nul buffer) ≡ some i
    → (c' : HttpClient) × (recv_header_async c (bytes buffer) ≡ ok c')
      × BuildsOrRefuses (parse c'.header)
recv_header_async-BuildsOrRefuses c buffer i new fresh small e = (
  _,
  recv_header_async_lem c buffer i fresh small e,
  rw new (parse-BuildsOrRefuses (take i buffer)),
)
