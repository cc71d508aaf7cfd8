-- ===== src/Socket/Send/Partial.antt =====
-- What the peer gets when the system takes a message in several pieces.
use technopark_highload.Prelude.{
  ℕ, ◌+◌, ◌-◌, ◌%◌, ◌^◌, ◌≤◌, ◌<◌, ◌≡◌, refl, ap, ◌∙◌, List, [], ◌∷◌, ◌++◌, append_assoc, arith,
  length, length-drop, take, drop, take_all, take-append-drop, Bytes,
}
use technopark_highload.Socket.Send.{Answer, took, failed, returned, send_loop, send}

pub send_loop_step :
    (s : Bytes) (left sent n : ℕ) (answers : List Answer) (wire : Bytes)
    → left < 2 ^ 64
    → 0 < left
    → n ≤ left
    → send_loop s left sent (took n ∷ answers) wire
      ≡ send_loop s (left - n) n answers (wire ++ take n (drop sent s))
unfolding send_loop
send_loop_step s left sent n answers wire small pos fits =
    let exact : (left + 2 ^ 64 - n) % 2 ^ 64 ≡ left - n = omega arith in ground arith

pub send_loop_done :
    (s : Bytes) (sent : ℕ) (answers : List Answer) (wire : Bytes)
    → send_loop s 0 sent answers wire ≡ (returned, wire)
unfolding send_loop
send_loop_done s sent [] wire = refl
send_loop_done s sent (failed ∷ answers) wire = refl
send_loop_done s sent (took n ∷ answers) wire = refl

send_loop_last :
    (s : Bytes) (left sent : ℕ) (answers : List Answer) (wire : Bytes)
    → left < 2 ^ 64
    → 0 < left
    → send_loop s left sent (took left ∷ answers) wire ≡ (returned, wire ++ take left (drop sent s))
send_loop_last s left sent answers wire small pos =
    send_loop_step s left sent left answers wire small pos (omega arith)
    ∙ rw (zero_left left) (send_loop_done s left answers (wire ++ take left (drop sent s)))
  where
    zero_left : (n : ℕ) → n - n ≡ 0
    zero_left n = omega arith

-- A message that the system takes at once, or in two pieces, arrives whole.
send_two_pieces :
    (s : Bytes) (n : ℕ) (answers : List Answer)
    → length s < 2 ^ 64
    → 0 < n
    → n < length s
    → (send s (took (length s) ∷ answers) ≡ (returned, s))
      × (send s (took n ∷ took (length s - n) ∷ answers) ≡ (returned, s))
unfolding send send_loop
send_two_pieces s n answers small pos part = (
  send_loop_last s (length s) 0 answers [] small (omega arith)
      ∙ ap (λ w. (returned, w)) (take_all (length s) s (omega arith)),
  send_loop_step s (length s) 0 n (took (length s - n) ∷ answers) [] small (omega arith)
        (omega arith)
      ∙ send_loop_last s (length s - n) n answers (take n s) (omega arith) (omega arith)
      ∙ ap (λ w. (returned, w))
          (ap (λ w. take n s ++ w)
              (take_all (length s - n) (drop n s) (omega (arith, length-drop n s)))
            ∙ take-append-drop n s),
)

-- With a third piece the loop has lost its place: it offers the bytes behind the length of the
-- second piece, and not those behind the first two.
send_third_piece :
    (s : Bytes) (n m : ℕ) (answers : List Answer)
    → length s < 2 ^ 64
    → n + m < length s
    → 0 < n
    → 0 < m
    → send s (took n ∷ took m ∷ took (length s - n - m) ∷ [])
      ≡ (returned, take n s ++ (take m (drop n s) ++ take (length s - n - m) (drop m s)))
unfolding send send_loop
send_third_piece s n m answers small fits pn pm =
    send_loop_step s (length s) 0 n (took m ∷ took (length s - n - m) ∷ []) [] small (omega arith)
      (omega arith)
    ∙ send_loop_step s (length s - n) n m (took (length s - n - m) ∷ []) (take n s) (omega arith)
        (omega arith) (omega arith)
    ∙ send_loop_last s (length s - n - m) m [] (take n s ++ take m (drop n s)) (omega arith)
        (omega arith)
    ∙ ap (λ w. (returned, w))
        (append_assoc (take n s) (take m (drop n s)) (take (length s - n - m) (drop m s)))
