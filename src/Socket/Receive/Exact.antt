-- ===== src/Socket/Receive/Exact.antt =====
-- How much the counted reads return.
use technopark_highload.Prelude.Int.{ℤ, pos, negsuc}
use technopark_highload.Prelude.{
  ℕ, suc, ◌+◌, ◌-◌, ◌≤◌, ◌≡◌, ◌≢◌, refl, ◌∙◌, List, [], ◌∷◌, ◌++◌, append_assoc, append-nil, arith,
  leb, if◌then◌else◌, length, length-append, All, Bytes,
}
use technopark_highload.Result.{ok}
use technopark_highload.Socket.Receive.{
  Answer, bytes, again, broken, recv_exact, recv_vector_exact, recv_vector_max,
}

recv_exact-length :
    (left : ℕ) (answers : List Answer) (buf : Bytes) {b : Bytes}
    → recv_exact left answers buf ≡ ok b
    → length b ≡ length buf + left
unfolding recv_exact
recv_exact-length left [] buf e = ground arith
recv_exact-length left (again ∷ answers) buf e = ground arith
recv_exact-length left (broken ∷ answers) buf e = ground arith
recv_exact-length left (bytes [] ∷ answers) buf e = ground arith
recv_exact-length left (bytes (c ∷ s) ∷ answers) buf {b} e = ground (
  arith,
  recv_exact-length (left - length (c ∷ s)) answers (buf ++ c ∷ s) {b = b},
  length-append buf (c ∷ s),
)

abbrev pub concat : List Bytes → Bytes
concat [] = []
concat (x ∷ xs) = x ++ concat xs

abbrev pub answers_of : List Bytes → List Answer → List Answer
answers_of [] more = more
answers_of (x ∷ xs) more = bytes x ∷ answers_of xs more

pub recv_exact_done : (answers : List Answer) (buf : Bytes) → recv_exact 0 answers buf ≡ ok buf
unfolding recv_exact
recv_exact_done [] buf = refl
recv_exact_done (again ∷ answers) buf = refl
recv_exact_done (broken ∷ answers) buf = refl
recv_exact_done (bytes [] ∷ answers) buf = refl
recv_exact_done (bytes (c ∷ s) ∷ answers) buf = refl

recv_exact-concat :
    (chunks : List Bytes) (more : List Answer) (n : ℕ) (buf : Bytes)
    → All (λ x. x ≢ []) chunks
    → n ≡ length (concat chunks)
    → recv_exact n (answers_of chunks more) buf ≡ ok (buf ++ concat chunks)
unfolding recv_exact
recv_exact-concat [] more n buf ne e = rw e (recv_exact_done more buf ∙ rw append-nil)
recv_exact-concat ([] ∷ chunks) more n buf (ne, _) e = absurd (ne refl)
recv_exact-concat ((c ∷ s) ∷ chunks) more n buf (_, ne) e =
    let size = length-append s (concat chunks) in
    let rest = recv_exact-concat chunks more (n - suc (length s)) (buf ++ c ∷ s) ne (omega arith) in
    let joined = append_assoc buf (c ∷ s) (concat chunks) in ground arith

-- `recvVector(n)` goes on reading until the `n` bytes are there, and returns them in order, however
-- the system cuts them; of what comes later it reads nothing.
pub recv_vector_exact-concat :
    (chunks : List Bytes) (more : List Answer)
    → All (λ x. x ≢ []) chunks
    → recv_vector_exact (length (concat chunks)) (answers_of chunks more) ≡ ok (concat chunks)
unfolding recv_vector_exact
recv_vector_exact-concat chunks more ne =
    recv_exact-concat chunks more (length (concat chunks)) [] ne refl

-- `recvVectorMax` never returns more than the number asked for.
pub recv_vector_max-le :
    (bytes_max : ℕ) (count : ℤ) (answers : List Answer) {b : Bytes}
    → recv_vector_max bytes_max count answers ≡ ok b
    → length b ≤ bytes_max
unfolding recv_vector_max recv_vector_exact
recv_vector_max-le bytes_max (negsuc n) answers e = ground arith
recv_vector_max-le bytes_max (pos count) answers {b} e =
    ground (
      arith,
      recv_exact-length (if leb bytes_max count then bytes_max else count) answers [] {b = b},
    )
