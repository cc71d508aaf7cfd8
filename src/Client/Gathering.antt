-- ===== src/Client/Gathering.antt =====
-- A header that `RecvHeader` gathers from pieces.
use technopark_highload.Client.{
  HttpClient, before_nul, parse_buffer, find_header_end, split_message, recv_header_loop,
  recv_header,
}
use technopark_highload.Prelude.{
  ℕ, ◌+◌, ◌/◌, ◌≤◌, ◌≡◌, ◌≢◌, refl, ap, ◌∙◌, none, some, List, [], ◌∷◌, ◌++◌, append_assoc,
  append-nil, arith, length, take, drop, Lacks, Bytes,
}
use technopark_highload.Result.{ok, ◌>>=◌}
use technopark_highload.Socket.Receive.{Answer, bytes, recv_vector}

abbrev pub whole : List Bytes → Bytes
whole [] = []
whole (piece ∷ pieces) = piece ++ whole pieces

abbrev pub arriving : List Bytes → List Answer → List Answer
arriving [] more = more
arriving (piece ∷ pieces) more = bytes piece ∷ arriving pieces more

-- Behind `text` the pieces come, each of 1 to 256 bytes with no byte 0, and the header is not
-- complete before the last of them.
abbrev pub Gathers : Bytes → List Bytes → Type 0
Gathers text [] = Unit
Gathers text (piece ∷ pieces) =
    (find_header_end text ≡ none)
    × (piece ≢ [])
    × (length piece ≤ 256)
    × Lacks 0 piece
    × Gathers (text ++ piece) pieces

before_nul-Lacks : (s : Bytes) → Lacks 0 s → before_nul s ≡ s
unfolding before_nul
before_nul-Lacks [] h = refl
before_nul-Lacks (c ∷ s) (ne, h) = ground (arith, before_nul-Lacks s h)

drop_whole : (s : Bytes) → drop (length s) s ≡ []
drop_whole [] = refl
drop_whole (c ∷ s) = drop_whole s

recv_vector-piece :
    (piece : Bytes) → piece ≢ [] → length piece ≤ 256 → recv_vector (bytes piece) ≡ ok piece
unfolding recv_vector
recv_vector-piece [] ne small = absurd (ne refl)
recv_vector-piece (c ∷ s) ne small = ground arith

parse_buffer-piece :
    (piece text : Bytes) → Lacks 0 piece → parse_buffer piece text ≡ (text ++ piece, [])
unfolding parse_buffer
parse_buffer-piece piece text clean =
    rw (before_nul-Lacks piece clean) (ap (λ rest. (text ++ piece, rest)) (drop_whole piece))

recv_header_loop-arriving :
    (pieces : List Bytes) (text : Bytes) (more : List Answer) {e : ℕ × ℕ}
    → Gathers text pieces
    → find_header_end (text ++ whole pieces) ≡ some e
    → recv_header_loop text (arriving pieces more) ≡ ok (text ++ whole pieces, [])
unfolding recv_header_loop
recv_header_loop-arriving [] text [] h e =
    let complete = rw append-nil at e in rw (append-nil, recv_header_loop, complete) refl
recv_header_loop-arriving [] text (answer ∷ more) h e =
    let complete = rw append-nil at e in rw (append-nil, recv_header_loop, complete) refl
recv_header_loop-arriving (piece ∷ pieces) text more (incomplete, ne, small, clean, h) e =
    let same = append_assoc text piece (whole pieces) in
    rw
      (
        recv_header_loop,
        incomplete,
        recv_vector-piece piece ne small,
        ◌>>=◌,
        parse_buffer-piece piece text clean,
      )
      (ap (λ b. recv_header_loop b.0 (arriving pieces more)) (parse_buffer-piece piece text clean)
        ∙ recv_header_loop-arriving pieces (text ++ piece) more h (ap find_header_end same ∙ e)
        ∙ ap (λ w. ok (w, [])) same)

-- A header that comes in pieces of 1 to 256 bytes with no byte 0, and is complete with the last of
-- them, is gathered by `RecvHeader` whole: with the line end, and the bytes behind the blank line
-- as the body.
pub recv_header-arriving :
    (c : HttpClient) (pieces : List Bytes) (more : List Answer) (i shift : ℕ)
    → Gathers [] pieces
    → find_header_end (whole pieces) ≡ some (i, shift)
    → recv_header c (arriving pieces more)
      ≡ ok (record c {
        header = take (i + shift / 2) (whole pieces);
        body = drop (i + shift) (whole pieces);
      })
unfolding recv_header split_message
recv_header-arriving c pieces more i shift h e =
    rw (recv_header_loop-arriving pieces [] more h e) (rw (◌>>=◌, e) refl)
