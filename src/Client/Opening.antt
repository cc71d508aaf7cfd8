-- ===== src/Client/Opening.antt =====
-- The constructors of `HTTPClient` that open a socket, with the descriptors that the process holds.
use technopark_highload.Client.{HttpClient, Connection, new_client}
use technopark_highload.Prelude.{
  ℕ, zero, suc, ◌≡◌, ◌≢◌, refl, ◌⊎◌, inl, inr, Bool, true, false, Option, none, some, List, ◌∷◌,
  arith, if◌then◌else◌,
}
use technopark_highload.Result.{Result, ok, err, runtime_error, undefined_behaviour}
use technopark_highload.Socket.Open.Balance.{
  IsBalanced, connect-IsBalanced, create_server_socket-IsBalanced, close_sd-front,
}
use technopark_highload.Socket.Open.{
  Socket, Answers, Outcome, close_sd, connect, create_server_socket,
}

-- `Socket()`, which leaves the port as it stands in the memory
abbrev pub fresh : ℕ → Socket
fresh memory = record { sd = none; port = memory; queue_size = 0 }

abbrev pub connection_of : Socket → Option Connection
connection_of s = elim s.sd [ none ↦ none | some sd ↦ some (record { sd = sd; port = s.port }) ]

-- `~Socket`
unfoldable pub destroy : Socket → List ℕ → List ℕ
unfolding close_sd
destroy s fds = elim s.sd [ none ↦ fds | some zero ↦ fds | some (suc n) ↦ close_sd (suc n) fds ]

-- What a constructor makes or throws, and the descriptors that are open behind it.
abbrev pub Made : Type 0
Made = Result HttpClient × List ℕ

-- `HTTPClient(socket, timeout)`, by whether the timeout can be set
unfoldable pub new_with_timeout : Bool → Option Connection → Result HttpClient
new_with_timeout set none = err undefined_behaviour
new_with_timeout set (some s) = if set then ok (new_client (some s)) else err runtime_error

-- behind `createServerSocket`
unfoldable pub listening : Bool → Outcome → Made
unfolding destroy
listening set (err e, fds) = (err e, fds)
listening set (ok s, fds) =
    if set then (ok (new_client (connection_of s)), fds) else (err runtime_error, destroy s fds)

-- `HTTPClient(port, queueSize, timeout)`; what throws destroys the socket
unfoldable pub new_listening : Answers → ℕ → ℕ → ℕ → Bool → List ℕ → Made
unfolding listening create_server_socket
new_listening a memory port queue_size set fds =
    listening set (create_server_socket a port queue_size (fresh memory) fds)

abbrev pub connected : Outcome → Made
connected (err e, fds) = (err e, fds)
connected (ok s, fds) = (ok (new_client (connection_of s)), fds)

-- `HTTPClient(host, port)`
unfoldable pub new_connecting : Answers → ℕ → List ℕ → Made
unfolding connect
new_connecting a memory fds = connected (connect a (fresh memory) fds)

-- The client owns the one new descriptor, or the constructor throws and none is left open.
abbrev pub Owns : List ℕ → Made → Type 0
Owns fds made =
    ((sd : ℕ) × (port : ℕ) × (made
        ≡ (ok (new_client (some (record { sd = sd; port = port }))), sd ∷ fds)))
    ⊎ (made ≡ (err runtime_error, fds))

connected-Owns : (o : Outcome) (fds : List ℕ) → IsBalanced fds o → Owns fds (connected o)
connected-Owns o fds (inl (sd, s, e, held)) = inl (sd, s.port, rw e (rw held refl))
connected-Owns o fds (inr e) = inr (rw e refl)

destroy-front :
    (s : Socket) (sd : ℕ) (fds : List ℕ) → s.sd ≡ some sd → sd ≢ 0 → destroy s (sd ∷ fds) ≡ fds
unfolding destroy
destroy-front s zero fds e ne = absurd (ne refl)
destroy-front s (suc n) fds e ne = rw (destroy, e) (close_sd-front (suc n) fds)

listening-Owns :
    (o : Outcome) (set : Bool) (fds : List ℕ)
    → IsBalanced fds o
    → ((sd : ℕ) → (s : Socket) → o ≡ (ok s, sd ∷ fds) → sd ≢ 0)
    → Owns fds (listening set o)
unfolding listening
listening-Owns o true fds (inl (sd, s, e, held)) ne = inl (sd, s.port, rw e (rw held refl))
listening-Owns o false fds (inl (sd, s, e, held)) ne =
    inr (rw e (rw (destroy-front s sd fds held (ne sd s e)) refl))
listening-Owns o set fds (inr e) ne = inr (rw e refl)

created-descriptor :
    (a : Answers) (port queue_size : ℕ) (s s' : Socket) (sd : ℕ) (fds : List ℕ)
    → create_server_socket a port queue_size s fds ≡ (ok s', sd ∷ fds)
    → sd ≢ 0
unfolding create_server_socket
created-descriptor a port queue_size s s' sd fds e = ground arith

-- `HTTPClient(host, port)` and `HTTPClient(port, queueSize, timeout)` make a client that holds the
-- one descriptor that they have opened, or throw with none left open, also where the timeout cannot
-- be set; if the new descriptor is not 0.
pub new_connecting-new_listening-Owns :
    (a : Answers) (memory port queue_size : ℕ) (set : Bool) (fds : List ℕ)
    → a.created ≢ some 0
    → Owns fds (new_connecting a memory fds)
      × Owns fds (new_listening a memory port queue_size set fds)
unfolding new_connecting new_listening
new_connecting-new_listening-Owns a memory port queue_size set fds ne = (
  connected-Owns (connect a (fresh memory) fds) fds (connect-IsBalanced fds a (fresh memory) ne),
  listening-Owns (create_server_socket a port queue_size (fresh memory) fds) set fds
      (create_server_socket-IsBalanced fds a port queue_size (fresh memory) ne)
      (λ sd s. created-descriptor a port queue_size (fresh memory) s sd fds),
)
