-- ===== src/Socket/Send.antt =====
-- `Socket::send`, of a text and of a vector (socket.cpp), and what reaches the peer.
pub mod Partial
pub mod Pieces
use technopark_highload.Prelude.{
  ℕ, zero, suc, ◌+◌, ◌-◌, ◌%◌, ◌^◌, List, [], ◌∷◌, ◌++◌, ltb, if◌then◌else◌, length, take, drop,
  Bytes,
}

-- What `::send` answers: the bytes that it took, or -1.
pub data Answer : Type 0 where
  took : ℕ → Answer
  failed : Answer

-- How the call ends: it returns, throws, or waits for the next answer.
pub data Ending : Type 0 where
  returned thrown waiting : Ending

-- The loop: `left` counts down, and `sent` is the last answer. `wire` is what the peer has got. The
-- bytes offered are those from `sent` on; `left` wraps as a `size_t`.
unfoldable pub send_loop : Bytes → ℕ → ℕ → List Answer → Bytes → Ending × Bytes
send_loop s left sent [] wire = (if ltb 0 left then waiting else returned, wire)
send_loop s left sent (failed ∷ answers) wire = (if ltb 0 left then thrown else returned, wire)
send_loop s left sent (took n ∷ answers) wire =
    let rest =
      send_loop s ((left + 2 ^ 64 - n) % 2 ^ 64) n answers (wire ++ take n (drop sent s)) in
    if ltb 0 left then rest else (returned, wire)

unfoldable pub send : Bytes → List Answer → Ending × Bytes
unfolding send_loop
send s answers = send_loop s (length s) 0 answers []
