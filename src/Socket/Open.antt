-- ===== src/Socket/Open.antt =====
-- Opening, connecting, accepting and closing a `Socket` (socket.cpp), with the list of descriptors
-- that the process holds open. The addresses are left out; the answers of the system are arguments.
pub mod Balance
use technopark_highload.Prelude.{
  ℕ, zero, suc, Bool, true, false, ◌==◌, not, ◌&&◌, Option, none, some, List, [], ◌∷◌,
  if◌then◌else◌,
}
use technopark_highload.Result.{Result, ok, err, runtime_error}

-- `m_Sd`, where `none` is -1, and the two members that a move needs
pub record Socket : Type 0 where
  pub sd : Option ℕ
  pub port : ℕ
  pub queue_size : ℕ

-- What the system says to each call: `gethostbyname`, `socket` (`none` where it is -1), `fcntl`,
-- `connect` (and whether a failure is `EINPROGRESS`), `select`, `setsockopt` and `bind`.
pub record Answers : Type 0 where
  pub resolved : Bool
  pub created : Option ℕ
  pub non_blocked : Bool
  pub connected : Bool
  pub in_progress : Bool
  pub selected : Bool
  pub reusable : Bool
  pub bound : Bool

-- What a call returns or throws, and the descriptors open behind it.
abbrev pub Outcome : Type 0
Outcome = Result Socket × List ℕ

-- `::close(sd)`
unfoldable pub close_sd : ℕ → List ℕ → List ℕ
close_sd sd [] = []
close_sd sd (k ∷ ks) = let rest = k ∷ close_sd sd ks in if k == sd then ks else rest

-- `connect(host, port)`; the descriptor 0 counts as a failure, and stays open
unfoldable pub connect : Answers → Socket → List ℕ → Outcome
unfolding close_sd
connect a s fds = if not a.resolved then (err runtime_error, fds) else (elim a.created [
  | none ↦ (err runtime_error, fds)
  | some zero ↦ (err runtime_error, zero ∷ fds)
  | some (suc n) ↦
      let sd = suc n in
      if a.connected
      then (ok (record s { sd = some sd }), sd ∷ fds)
      else (err runtime_error, close_sd sd (sd ∷ fds))
])

-- `connect(host, port, timeout)`; `set_non_blocked_impl` throws without closing the descriptor
unfoldable pub connect_timed : Answers → Socket → List ℕ → Outcome
unfolding close_sd
connect_timed a s fds = if not a.resolved then (err runtime_error, fds) else (elim a.created [
  | none ↦ (err runtime_error, fds)
  | some zero ↦ (err runtime_error, zero ∷ fds)
  | some (suc n) ↦
      let sd = suc n in
      if not a.non_blocked
      then (err runtime_error, sd ∷ fds)
      else if not a.connected && not a.in_progress
      then (err runtime_error, close_sd sd (sd ∷ fds))
      else if not a.selected
      then (err runtime_error, close_sd sd (sd ∷ fds))
      else (ok (record s { sd = some sd }), sd ∷ fds)
])

-- `createServerSocket(port, listen_queue_size)`, with `setReuseAddr`
unfoldable pub create_server_socket : Answers → ℕ → ℕ → Socket → List ℕ → Outcome
unfolding close_sd
create_server_socket a port queue_size s fds = elim a.created [
  | none ↦ (err runtime_error, fds)
  | some zero ↦ (err runtime_error, zero ∷ fds)
  | some (suc n) ↦
      let sd = suc n in
      if not a.reusable
      then (err runtime_error, close_sd sd (sd ∷ fds))
      else if not a.bound
      then (err runtime_error, close_sd sd (sd ∷ fds))
      else (ok (record { sd = some sd; port = port; queue_size = queue_size }), sd ∷ fds)
]

-- `accept()`: the new descriptor, or -1, which gives a null pointer
unfoldable pub accept : Option ℕ → Socket → List ℕ → Option Socket × List ℕ
accept none s fds = (none, fds)
accept (some sd) s fds = (some (record { sd = some sd; port = s.port; queue_size = 0 }), sd ∷ fds)

-- `close()`; `::close(-1)` closes nothing
unfoldable pub close : Socket → List ℕ → Socket × List ℕ
unfolding close_sd
close s fds = (record s { sd = none }, elim s.sd [ none ↦ fds | some sd ↦ close_sd sd fds ])

-- `Socket(Socket&& other)`: the other socket is closed, and a listening one opened in its place
unfoldable pub move_from : Answers → Socket → List ℕ → Outcome
unfolding close create_server_socket
move_from a other fds =
    create_server_socket a other.port other.queue_size
      (record { sd = none; port = other.port; queue_size = other.queue_size }) (close other fds).1

-- `operator=(Socket&& other)`: both are closed, and a listening socket opened in place of the other
unfoldable pub move_assign : Answers → Socket → Socket → List ℕ → Outcome
unfolding close create_server_socket
move_assign a s other fds =
    create_server_socket a other.port other.queue_size
      (record { sd = none; port = other.port; queue_size = other.queue_size })
      (close other (close s fds).1).1

-- `setRcvTimeout`, by whether `setsockopt` succeeds
unfoldable pub set_rcv_timeout : Bool → Result Bool
set_rcv_timeout set = if set then ok true else err runtime_error
