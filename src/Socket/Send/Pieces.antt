-- ===== src/Socket/Send/Pieces.antt =====
-- What the peer gets, in however many pieces the system takes a message.
use technopark_highload.Prelude.{
  ℕ, ◌+◌, ◌-◌, ◌^◌, ◌≤◌, ◌<◌, ◌≡◌, refl, ap, ◌∙◌, List, [], ◌∷◌, ◌++◌, append_assoc, append-nil,
  arith, ◌==◌, ==_iff, if◌then◌else◌, length, length-drop, take, drop, take_all, take-append-drop,
  All, Bytes,
}
use technopark_highload.Socket.Send.Partial.{send_loop_step}
use technopark_highload.Socket.Send.{Answer, took, failed, returned, thrown, send_loop, send}

abbrev pub sum : List ℕ → ℕ
sum [] = 0
sum (n ∷ ns) = n + sum ns

-- The pieces: each starts behind as many bytes of the message as the last one has.
abbrev pub offered : ℕ → List ℕ → Bytes → Bytes
offered last [] s = []
offered last (n ∷ ns) s = take n (drop last s) ++ offered n ns s

-- the answers of a system that takes these counts
abbrev pub takes : List ℕ → List Answer → List Answer
takes [] answers = answers
takes (n ∷ ns) answers = took n ∷ takes ns answers

-- the size of the last of the pieces
abbrev last_of : ℕ → List ℕ → ℕ
last_of last [] = last
last_of last (n ∷ ns) = last_of n ns

send_loop-offered :
    (s : Bytes) (ns : List ℕ) (left last : ℕ) (answers : List Answer) (wire : Bytes)
    → left < 2 ^ 64
    → All (λ n. 0 < n) ns
    → sum ns ≤ left
    → send_loop s left last (takes ns answers) wire
      ≡ send_loop s (left - sum ns) (last_of last ns) answers (wire ++ offered last ns s)
send_loop-offered s [] left last answers wire small pos fits =
    let all : left - 0 ≡ left = omega arith in rw (all, append-nil) refl
send_loop-offered s (n ∷ ns) left last answers wire small (p, pos) fits =
    let next : left - n - sum ns ≡ left - (n + sum ns) = omega arith in
    send_loop_step s left last n (takes ns answers) wire small (omega arith) (omega arith)
    ∙ send_loop-offered s ns (left - n) n answers (wire ++ take n (drop last s)) (omega arith) pos
        (omega arith)
    ∙ ap
        (λ m.
          send_loop s m (last_of n ns) answers ((wire ++ take n (drop last s)) ++ offered n ns s))
        next
    ∙ ap (send_loop s (left - (n + sum ns)) (last_of n ns) answers)
        (append_assoc wire (take n (drop last s)) (offered n ns s))

send_loop_failed :
    (s : Bytes) (left last : ℕ) (answers : List Answer) (wire : Bytes)
    → send_loop s left last (failed ∷ answers) wire ≡ (if left == 0 then returned else thrown, wire)
unfolding send_loop
send_loop_failed s left last answers wire = ground (arith, ==_iff left 0)

offered_two : (s : Bytes) (n : ℕ) → offered 0 (n ∷ (length s - n) ∷ []) s ≡ s
offered_two s n =
    ap (λ t. take n s ++ t)
      (rw append-nil (take_all (length s - n) (drop n s) (omega (arith, length-drop n s))))
    ∙ take-append-drop n s

-- A message shorter than 2 ^ 64 bytes, that the system takes in pieces of any number and any sizes
-- above 0, and of which it takes no more behind them. If the pieces add up to the message the call
-- returns, and else it throws: the peer has got pieces of these sizes, the first from the start of
-- the message and each other from behind as many bytes as the piece before it has. For one or two
-- pieces that are the message, this is the message.
pub send-offered :
    (s : Bytes) (ns : List ℕ) (answers : List Answer) (n : ℕ)
    → length s < 2 ^ 64
    → All (λ k. 0 < k) ns
    → sum ns ≤ length s
    → (send s (takes ns (failed ∷ answers))
        ≡ (if sum ns == length s then returned else thrown, offered 0 ns s))
      × (offered 0 (length s ∷ []) s ≡ s)
      × (offered 0 (n ∷ (length s - n) ∷ []) s ≡ s)
unfolding send
send-offered s ns answers n small pos fits =
    let rest : (length s - sum ns == 0) ≡ (sum ns == length s) =
      ground (arith, ==_iff (length s - sum ns) 0, ==_iff (sum ns) (length s)) in
    (
      send_loop-offered s ns (length s) 0 (failed ∷ answers) [] small pos fits
          ∙ send_loop_failed s (length s - sum ns) (last_of 0 ns) answers (offered 0 ns s)
          ∙ ap (λ b. (if b then returned else thrown, offered 0 ns s)) rest,
      rw append-nil (take_all (length s) s (omega arith)),
      offered_two s n,
    )
