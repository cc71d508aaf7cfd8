-- ===== src/Socket/Receive.antt =====
-- The `recv` family of `Socket` (socket.cpp). The functions come in pairs, into a text and into a
-- vector, with the same body. Buffers do not overflow, since the system returns at most the bytes
-- asked for; an answer that is longer would be undefined.
pub mod Exact
use technopark_highload.Prelude.Int.{ℤ, pos, negsuc}
use technopark_highload.Prelude.{
  ℕ, ◌-◌, Bool, true, false, List, [], ◌∷◌, ◌++◌, ltb, leb, ◌==◌, if◌then◌else◌, length, Bytes,
}
use technopark_highload.Result.{Result, ok, err, ◌>>=◌, runtime_error, undefined_behaviour}

-- What `::recv` answers: bytes, of which none mean that the peer is gone; -1 with `EAGAIN`; or -1
-- with another error.
pub data Answer : Type 0 where
  bytes : Bytes → Answer
  again broken : Answer

-- `recv()`: one call for at most 256 bytes
unfoldable pub recv : Answer → Result Bytes
recv (bytes []) = err runtime_error
recv (bytes (c ∷ s)) = if leb (length (c ∷ s)) 256 then ok (c ∷ s) else err undefined_behaviour
recv again = err runtime_error
recv broken = err runtime_error

-- `recvVector()`
unfoldable pub recv_vector : Answer → Result Bytes
recv_vector (bytes []) = err runtime_error
recv_vector (bytes (c ∷ s)) =
    if leb (length (c ∷ s)) 256 then ok (c ∷ s) else err undefined_behaviour
recv_vector again = err runtime_error
recv_vector broken = err runtime_error

-- The loop of `recv(bytes)` and `recvVector(bytes)`: `left` bytes are still to come. It waits for
-- as many answers as it takes; where the answers given end, the peer is gone.
unfoldable pub recv_exact : ℕ → List Answer → Bytes → Result Bytes
recv_exact left [] buf = if left == 0 then ok buf else err runtime_error
recv_exact left (bytes [] ∷ answers) buf = if left == 0 then ok buf else err runtime_error
recv_exact left (again ∷ answers) buf = if left == 0 then ok buf else err runtime_error
recv_exact left (broken ∷ answers) buf = if left == 0 then ok buf else err runtime_error
recv_exact left (bytes (c ∷ s) ∷ answers) buf =
    let rest = recv_exact (left - length (c ∷ s)) answers (buf ++ c ∷ s) in
    if left == 0
    then ok buf
    else if leb (length (c ∷ s)) left
    then rest
    else err undefined_behaviour

unfoldable pub recv_vector_exact : ℕ → List Answer → Result Bytes
unfolding recv_exact
recv_vector_exact n answers = recv_exact n answers []

-- `recvLoop()`, behind `buf`: until the peer is gone or the time is over
unfoldable pub recv_loop : List Answer → Bytes → Result Bytes
recv_loop [] buf = ok buf
recv_loop (bytes [] ∷ answers) buf = ok buf
recv_loop (bytes (c ∷ s) ∷ answers) buf = recv_loop answers (buf ++ c ∷ s)
recv_loop (again ∷ answers) buf = ok buf
recv_loop (broken ∷ answers) buf = err runtime_error

-- `recvVectorLoop()`
unfoldable pub recv_vector_loop : List Answer → Result Bytes
unfolding recv_loop
recv_vector_loop answers = recv_loop answers []

-- `recvTimed(timeout)`; the flag says whether `select` has returned 1
unfoldable pub recv_timed : Bool → Answer → Result Bytes
unfolding recv
recv_timed selected answer = if selected then recv answer else err runtime_error

-- `recvVectorTimed(timeout)`; the flag says whether `select` has returned 1
unfoldable pub recv_vector_timed : Bool → Answer → Result Bytes
unfolding recv_vector
recv_vector_timed selected answer = if selected then recv_vector answer else err runtime_error

-- `recvVectorMax(bytesMax)`: what `FIONREAD` counts, but no more than `bytes_max`
unfoldable pub recv_vector_max : ℕ → ℤ → List Answer → Result Bytes
recv_vector_max bytes_max (negsuc n) answers = ok []
recv_vector_max bytes_max (pos count) answers =
    recv_vector_exact (if leb bytes_max count then bytes_max else count) answers

-- `hasData()`, by what `FIONREAD` counts
unfoldable pub has_data : ℤ → Bool
has_data (pos count) = ltb 0 count
has_data (negsuc n) = false
