-- ===== src/Socket/Open/Balance.antt =====
-- Which descriptors are open behind a call.
use technopark_highload.Prelude.{
  ℕ, zero, suc, ◌≡◌, ◌≢◌, refl, ap, ◌∙◌, ◌⊎◌, inl, inr, Bool, true, false, ==_iff, not, ◌&&◌,
  Option, none, some, List, ◌∷◌, arith, if◌then◌else◌,
}
use technopark_highload.Result.{ok, err, runtime_error}
use technopark_highload.Socket.Open.{
  Socket, Answers, Outcome, close_sd, connect, connect_timed, create_server_socket, close,
  move_from, move_assign,
}

pub close_sd-front : (sd : ℕ) (fds : List ℕ) → close_sd sd (sd ∷ fds) ≡ fds
unfolding close_sd
close_sd-front sd fds = ground (arith, ==_iff sd sd)

-- A call either opens one descriptor and keeps it in the socket, or throws with none left open.
abbrev pub IsBalanced : List ℕ → Outcome → Type 0
IsBalanced fds o =
    ((sd : ℕ) × (s : Socket) × (o ≡ (ok s, sd ∷ fds)) × (s.sd ≡ some sd))
    ⊎ (o ≡ (err runtime_error, fds))

module _ (fds : List ℕ) where
  if-IsBalanced :
      (b : Bool) {x y : Outcome}
      → IsBalanced fds x
      → IsBalanced fds y
      → IsBalanced fds (if b then x else y)
  if-IsBalanced true p q = p
  if-IsBalanced false p q = q

  if_not-IsBalanced :
      (b : Bool) (x : Outcome) {y : Outcome}
      → b ≡ true
      → IsBalanced fds y
      → IsBalanced fds (if not b then x else y)
  if_not-IsBalanced true x e q = q
  if_not-IsBalanced false x e q = cc

  created-IsBalanced :
      (o : Option ℕ) (f : ℕ → Outcome)
      → o ≢ some 0
      → ((n : ℕ) → IsBalanced fds (f n))
      → IsBalanced fds (elim o [
        | none ↦ (err runtime_error, fds)
        | some zero ↦ (err runtime_error, zero ∷ fds)
        | some (suc n) ↦ f n
      ])
  created-IsBalanced none f ne h = inr refl
  created-IsBalanced (some zero) f ne h = absurd (ne refl)
  created-IsBalanced (some (suc n)) f ne h = h n

  kept-IsBalanced : (sd : ℕ) (s : Socket) → s.sd ≡ some sd → IsBalanced fds (ok s, sd ∷ fds)
  kept-IsBalanced sd s e = inl (sd, s, refl, e)

  closed-IsBalanced : (sd : ℕ) → IsBalanced fds (err runtime_error, close_sd sd (sd ∷ fds))
  closed-IsBalanced sd = inr (rw (close_sd-front sd fds) refl)

  -- `connect` either keeps the one descriptor that it opened, or throws with none left open, if the
  -- new descriptor is not 0.
  pub connect-IsBalanced :
      (a : Answers) (s : Socket) → a.created ≢ some 0 → IsBalanced fds (connect a s fds)
  unfolding connect
  connect-IsBalanced a s ne = if-IsBalanced (not a.resolved) (inr refl) (
      created-IsBalanced a.created _ ne (λ n.
        if-IsBalanced a.connected (kept-IsBalanced (suc n) (record s { sd = some (suc n) }) refl)
          (closed-IsBalanced (suc n))))

  -- `createServerSocket` either keeps the one descriptor that it opened, or throws with none left
  -- open, if the new descriptor is not 0.
  pub create_server_socket-IsBalanced :
      (a : Answers) (port queue_size : ℕ) (s : Socket)
      → a.created ≢ some 0
      → IsBalanced fds (create_server_socket a port queue_size s fds)
  unfolding create_server_socket
  create_server_socket-IsBalanced a port queue_size s ne = created-IsBalanced a.created _ ne (λ n.
      if-IsBalanced (not a.reusable) (closed-IsBalanced (suc n)) (
        if-IsBalanced (not a.bound) (closed-IsBalanced (suc n)) (
          kept-IsBalanced (suc n)
            (record { sd = some (suc n); port = port; queue_size = queue_size }) refl)))

  -- The timed `connect` is balanced too, if the new descriptor can also be made non-blocking.
  connect_timed-IsBalanced :
      (a : Answers) (s : Socket)
      → a.created ≢ some 0
      → a.non_blocked ≡ true
      → IsBalanced fds (connect_timed a s fds)
  unfolding connect_timed
  connect_timed-IsBalanced a s ne made = if-IsBalanced (not a.resolved) (inr refl) (
      created-IsBalanced a.created _ ne (λ n. if_not-IsBalanced a.non_blocked _ made (
        if-IsBalanced (not a.connected && not a.in_progress) (closed-IsBalanced (suc n)) (
          if-IsBalanced (not a.selected) (closed-IsBalanced (suc n))
            (kept-IsBalanced (suc n) (record s { sd = some (suc n) }) refl)))))

  -- If the host resolves and the new descriptor cannot be made non-blocking, the timed `connect`
  -- throws and leaves that descriptor open, which no socket holds.
  connect_timed-leaks :
      (a : Answers) (s : Socket) (n : ℕ)
      → a.resolved ≡ true
      → a.created ≡ some (suc n)
      → a.non_blocked ≡ false
      → connect_timed a s fds ≡ (err runtime_error, suc n ∷ fds)
  unfolding connect_timed
  connect_timed-leaks a s n found opened failed = ground arith

close-front : (s : Socket) (sd : ℕ) (fds : List ℕ) → s.sd ≡ some sd → (close s (sd ∷ fds)).1 ≡ fds
unfolding close
close-front s sd fds e = rw (e, close_sd-front sd fds) refl

-- Moving a socket, and assigning one over another, closes the descriptors that the sockets held: what
-- is open besides the others is one new listening descriptor, or none where the call throws. The
-- socket that is assigned to holds the descriptor opened last, and the other the one before it. The
-- new descriptor is not 0.
move_from-move_assign-IsBalanced :
    (a : Answers) (s other : Socket) (sd sd' : ℕ) (fds : List ℕ)
    → s.sd ≡ some sd
    → other.sd ≡ some sd'
    → a.created ≢ some 0
    → IsBalanced fds (move_from a other (sd' ∷ fds))
      × IsBalanced fds (move_assign a s other (sd ∷ sd' ∷ fds))
unfolding move_from move_assign
move_from-move_assign-IsBalanced a s other sd sd' fds e e' ne =
    let opened =
      create_server_socket-IsBalanced fds a other.port other.queue_size
        (record { sd = none; port = other.port; queue_size = other.queue_size }) ne in
    let closed = close-front other sd' fds e' in
    let both =
      ap (λ open_fds. (close other open_fds).1) (close-front s sd (sd' ∷ fds) e) ∙ closed in
    (rw closed opened, rw both opened)
