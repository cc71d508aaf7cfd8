-- ===== src/Pipeline/Bodies.antt =====
-- A body that comes with several events, and a peer that goes away before it is complete.
use technopark_highload.Client.{HttpClient, recv_body_async}
use technopark_highload.Pipeline.{Arrival, receive_client}
use technopark_highload.Prelude.Int.{pos}
use technopark_highload.Prelude.{
  ℕ, ◌+◌, ◌-◌, ◌≤◌, ◌<◌, ◌≡◌, ◌≢◌, refl, ap, ◌∙◌, Bool, true, false, ◌==◌, ==_iff, leb, List, [],
  ◌∷◌, ◌++◌, append_assoc, append-nil, arith, if◌then◌else◌, length, length-append, All, Bytes,
}
use technopark_highload.Result.{Result, ok, ◌>>=◌}
use technopark_highload.Socket.Receive.Exact.{concat, answers_of, recv_vector_exact-concat}
use technopark_highload.Socket.Receive.{Answer, recv_vector_exact, recv_vector_max}

-- An event with the pieces that the system reads for it, and a count of their bytes.
abbrev pub arrival_of : Answer → List Bytes → Arrival
arrival_of first chunks = record {
  first = first;
  count = pos (length (concat chunks));
  more = answers_of chunks [];
}

-- all that the events bring
abbrev pub brought : List (List Bytes) → Bytes
brought [] = []
brought (chunks ∷ events) = concat chunks ++ brought events

-- `ReceiveInput` for one event after the other, until it says that the input is complete.
unfoldable pub receive_events : Answer → HttpClient → List (List Bytes) → Result (HttpClient × Bool)
unfolding receive_client
receive_events first c [] = ok (c, false)
receive_events first c (chunks ∷ events) = do
  (read, done) ← receive_client c (arrival_of first chunks)
  elim done [ true ↦ ok (read, true) | false ↦ receive_events first read events ]

-- Every event brings something, in pieces that are not empty.
abbrev pub BringsBytes : List Bytes → Type 0
BringsBytes chunks = (concat chunks ≢ []) × All (λ x. x ≢ []) chunks

ne-length : (s : Bytes) → s ≢ [] → 0 < length s
ne-length [] ne = absurd (ne refl)
ne-length (c ∷ s) ne = omega arith

recv_vector_max-concat :
    (left : ℕ) (chunks : List Bytes)
    → All (λ x. x ≢ []) chunks
    → length (concat chunks) ≤ left
    → recv_vector_max left (pos (length (concat chunks))) (answers_of chunks [])
      ≡ ok (concat chunks)
unfolding recv_vector_max
recv_vector_max-concat left chunks ne fits =
    let asked_for : (if leb left (length (concat chunks)) then left else length (concat chunks))
        ≡ length (concat chunks) =
      ground arith in
    ap (λ n. recv_vector_exact n (answers_of chunks [])) asked_for
    ∙ recv_vector_exact-concat chunks [] ne

receive_client-concat :
    (first : Answer) (c : HttpClient) (chunks : List Bytes)
    → c.received_header ≡ true
    → length c.body < c.content_length
    → All (λ x. x ≢ []) chunks
    → length c.body + length (concat chunks) ≤ c.content_length
    → receive_client c (arrival_of first chunks)
      ≡ ok (
        record c { body = c.body ++ concat chunks },
        length c.body + length (concat chunks) == c.content_length,
      )
unfolding receive_client recv_body_async
receive_client-concat first c chunks there open_end ne fits =
    let part : leb c.content_length (length c.body) ≡ false = ground arith in
    let size = length-append c.body (concat chunks) in
    rw (there, part)
      (rw (recv_vector_max-concat (c.content_length - length c.body) chunks ne (omega arith))
        (rw size refl))

-- A body that is not complete, and of which the events bring exactly the rest: it is complete with
-- the last event and not before, and is what came before and the bytes of the events in their order,
-- however the system cuts them.
pub receive_events-brought :
    (first : Answer) (events : List (List Bytes)) (c : HttpClient)
    → c.received_header ≡ true
    → length c.body < c.content_length
    → All BringsBytes events
    → length c.body + length (brought events) ≡ c.content_length
    → receive_events first c events ≡ ok (record c { body = c.body ++ brought events }, true)
unfolding receive_events
receive_events-brought first [] c there open_end h total = absurd (omega arith)
receive_events-brought first (chunks ∷ []) c there open_end ((some_byte, pieces), _) total =
    let sum = length-append (concat chunks) [] in
    let whole : (length c.body + length (concat chunks) == c.content_length) ≡ true =
      ground (arith, ==_iff (length c.body + length (concat chunks)) c.content_length) in
    rw (receive_events, receive_client-concat first c chunks there open_end pieces (omega arith))
      (rw (whole, append-nil) refl)
receive_events-brought first (chunks ∷ next ∷ events) c there open_end
      ((some_byte, pieces), (next_bytes, h)) total =
    let more = brought (next ∷ events) in
    let sum = length-append (concat chunks) more in
    let next_sum = length-append (concat next) (brought events) in
    let next_ne = ne-length (concat next) next_bytes.0 in
    let size = length-append c.body (concat chunks) in
    let part : (length c.body + length (concat chunks) == c.content_length) ≡ false =
      ground (arith, ==_iff (length c.body + length (concat chunks)) c.content_length) in
    rw (receive_events, receive_client-concat first c chunks there open_end pieces (omega arith))
      (rw part (
        receive_events-brought first (next ∷ events) (record c { body = c.body ++ concat chunks })
          there (omega arith) (next_bytes, h) (omega arith)
        ∙ ap (λ b. ok (record c { body = b }, true)) (append_assoc c.body (concat chunks) more)))
