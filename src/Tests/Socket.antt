-- ===== src/Tests/Socket.antt =====
-- The socket's send and receive at concrete answers of the system.
use technopark_highload.Prelude.{◌≡◌, refl, [], ◌∷◌, arith, codes, if◌then◌else◌, ◌==◌}
use technopark_highload.Result.{ok}
use technopark_highload.Socket.Receive.Exact.{recv_vector_exact-concat}
use technopark_highload.Socket.Receive.{bytes, again, recv_vector_exact}
use technopark_highload.Socket.Send.Pieces.{sum, offered, send-offered}
use technopark_highload.Socket.Send.{took, failed, returned, thrown, send, send_loop}

send_run : send (codes "abcdef") (took 2 ∷ took 1 ∷ took 3 ∷ []) ≡ (returned, codes "abcbcd")
unfolding send send_loop
send_run = refl

send-offered_example :
    (send (codes "abcdef") (took 2 ∷ took 1 ∷ took 3 ∷ failed ∷ [])
      ≡ (if sum (2 ∷ 1 ∷ 3 ∷ []) == 6 then returned else thrown, codes "abcbcd"))
    × (offered 0 (6 ∷ []) (codes "abcdef") ≡ codes "abcdef")
    × (offered 0 (4 ∷ 2 ∷ []) (codes "abcdef") ≡ codes "abcdef")
send-offered_example =
    send-offered (codes "abcdef") (2 ∷ 1 ∷ 3 ∷ []) [] 4 (omega arith)
      (omega arith, (omega arith, (omega arith, tt))) (omega arith)

recv_vector_exact-concat_example :
    recv_vector_exact 5 (bytes (codes "ab") ∷ bytes (codes "cde") ∷ again ∷ []) ≡ ok (codes "abcde")
recv_vector_exact-concat_example =
    recv_vector_exact-concat (codes "ab" ∷ codes "cde" ∷ []) (again ∷ []) (λ e. cc, (λ e. cc, tt))
