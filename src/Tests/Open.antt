-- ===== src/Tests/Open.antt =====
-- Opening sockets, with answers of the system.
use technopark_highload.Prelude.{
  arith, ◌≡◌, refl, ◌+◌, ◌^◌, codes, true, false, none, some, [], ◌∷◌,
}
use technopark_highload.Result.{ok, err, runtime_error, undefined_behaviour}
use technopark_highload.Client.Opening.{
  Owns, new_connecting, new_listening, listening, destroy, new_with_timeout,
  new_connecting-new_listening-Owns,
}
use technopark_highload.Decimal.{to_string}
use technopark_highload.Socket.Address.{int2ipv4, resolve, http_query, set_non_blocked}
use technopark_highload.Socket.Receive.{bytes, recv_loop}
use technopark_highload.Socket.Send.{took, failed, send, send_loop}
use technopark_highload.Listener.{new_listener, stop_listener, move_listener}
use technopark_highload.Socket.Open.{
  close, close_sd, create_server_socket, Socket, Answers, move_assign,
}

abbrev unreachable : Answers
unreachable = record {
  resolved = true;
  created = some 5;
  non_blocked = true;
  connected = false;
  in_progress = false;
  selected = false;
  reusable = true;
  bound = true;
}

abbrev fresh : Socket
fresh = record { sd = none; port = 80; queue_size = 0 }

new_connecting-new_listening-Owns_example :
    Owns (3 ∷ []) (new_connecting unreachable 7 (3 ∷ []))
    × Owns (3 ∷ []) (new_listening unreachable 7 80 5 false (3 ∷ []))
new_connecting-new_listening-Owns_example =
    new_connecting-new_listening-Owns unreachable 7 80 5 false (3 ∷ []) (λ e. ground arith)

-- A listener whose timeout cannot be set is destroyed; a client that cannot connect as well.
new_listening_fails : new_listening unreachable 7 80 5 false (3 ∷ []) ≡ (err runtime_error, 3 ∷ [])
unfolding new_listening listening destroy create_server_socket close_sd
new_listening_fails = refl

new_with_timeout_run :
    (new_with_timeout true none ≡ err undefined_behaviour)
    × (new_with_timeout false (some (record { sd = 4; port = 80 })) ≡ err runtime_error)
unfolding new_with_timeout
new_with_timeout_run = (refl, refl)

int2ipv4_run : int2ipv4 (127 + 2 ^ 24) ≡ codes "127.0.0.1"
unfolding int2ipv4 to_string
int2ipv4_run = refl

resolve_run :
    resolve (some ((127 ∷ 0 ∷ 0 ∷ 1 ∷ []) ∷ [])) 8080
    ≡ ok (record { sin_port = 31 ∷ 144 ∷ []; sin_addr = 127 ∷ 0 ∷ 0 ∷ 1 ∷ [] })
unfolding resolve
resolve_run = refl

-- The answer comes in two pieces; a query that cannot be sent throws.
http_query_run :
    (http_query
        (codes "q?")
        (took 1 ∷ took 1 ∷ [])
        (bytes (codes "ab") ∷ bytes (codes "c") ∷ bytes [] ∷ [])
      ≡ some (ok (codes "abc")))
    × (http_query (codes "q?") (took 1 ∷ failed ∷ []) [] ≡ some (err runtime_error))
unfolding http_query send send_loop recv_loop
http_query_run = (refl, refl)

set_non_blocked_run :
    (set_non_blocked 2048 true 2 true ≡ ok 2050)
    × (set_non_blocked 2048 false 2050 true ≡ ok 2)
    × (set_non_blocked 2048 true 2 false ≡ err runtime_error)
unfolding set_non_blocked
set_non_blocked_run = (refl, refl, refl)

-- A listener that is moved stops the other and listens again, on its port.
move_listener_run :
    move_listener unreachable
      (record { socket = record { sd = some 4; port = 80; queue_size = 5 }; stop = false })
      (4 ∷ 3 ∷ [])
    ≡ (
      (
        ok (record { socket = record { sd = some 5; port = 80; queue_size = 5 }; stop = true }),
        5 ∷ 3 ∷ [],
      ),
      record { socket = record { sd = none; port = 80; queue_size = 5 }; stop = true },
    )
unfolding move_listener new_listener stop_listener move_assign close create_server_socket close_sd
move_listener_run = refl
