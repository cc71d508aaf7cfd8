-- ===== src/Pipeline/Handled.antt =====
-- What the handler of an event comes to: `MoveTask` and `ReceiveInput` of async/src/TasksController.cpp.
use technopark_highload.Client.{
  HttpClient, recv_header_async, recv_body_async, parse_buffer, find_header_end, npos, split_async,
}
use technopark_highload.Decimal.{
  stoi, skip_spaces, after_spaces, signed, starts_with_digit, read_digits,
}
use technopark_highload.Dict.{Dict, at, lookup}
use technopark_highload.Http.Request.Ends.{Ends, bind-Ends, if-Ends, parse-Ends}
use technopark_highload.Http.Request.{HttpRequest, parse, get_content_length, or_zero}
use technopark_highload.Pipeline.Invariant.{keys, keys-write_task}
use technopark_highload.Pipeline.Reachability.{Reachable, Reachable-IsSound}
use technopark_highload.Pipeline.{
  Sd, same_sd, Pipeline, find_task, erase, free_event, Arrival, receive_client, remove_task,
  pass_on, received, move_task,
}
use technopark_highload.Prelude.Int.{ℤ, pos, negsuc, clamp}
use technopark_highload.Prelude.{
  ℕ, ◌+◌, ◌-◌, ◌≡◌, refl, ◌⊎◌, inl, inr, Bool, true, false, ◌==◌, ◌||◌, leb, ltb, ◌^◌, List, [],
  ◌∷◌, ◌++◌, arith, length, Option-cases, Bool-cases, Bytes, codes,
}
use technopark_highload.Result.{
  Result, ok, err, ◌>>=◌, out_of_fuel, out_of_range, invalid_argument, undefined_behaviour,
}
use technopark_highload.Socket.Receive.{
  Answer, bytes, again, broken, recv_vector, recv_exact, recv_vector_exact, recv_vector_max,
}
use technopark_highload.Worker.{Task}

recv_vector-Ends : (a : Answer) → Ends (recv_vector a)
unfolding recv_vector
recv_vector-Ends (bytes []) = λ e. cc
recv_vector-Ends (bytes (c ∷ s)) = if-Ends (leb (length (c ∷ s)) 256) _ _ tt (λ e. cc)
recv_vector-Ends again = λ e. cc
recv_vector-Ends broken = λ e. cc

recv_exact-Ends :
    (answers : List Answer) (left : ℕ) (buf : Bytes) → Ends (recv_exact left answers buf)
unfolding recv_exact
recv_exact-Ends [] left buf = if-Ends (left == 0) _ _ tt (λ e. cc)
recv_exact-Ends (bytes [] ∷ answers) left buf = if-Ends (left == 0) _ _ tt (λ e. cc)
recv_exact-Ends (again ∷ answers) left buf = if-Ends (left == 0) _ _ tt (λ e. cc)
recv_exact-Ends (broken ∷ answers) left buf = if-Ends (left == 0) _ _ tt (λ e. cc)
recv_exact-Ends (bytes (c ∷ s) ∷ answers) left buf = if-Ends (left == 0) _ _ tt (
    if-Ends (leb (length (c ∷ s)) left) _ _
      (recv_exact-Ends answers (left - length (c ∷ s)) (buf ++ c ∷ s)) (λ e. cc))

recv_body_async-Ends : (c : HttpClient) (n : ℤ) (a : List Answer) → Ends (recv_body_async c n a)
unfolding recv_body_async recv_vector_max recv_vector_exact
recv_body_async-Ends c n a =
    if-Ends (leb c.content_length (length c.body)) _ _ tt
      (bind-Ends (recv_vector_max (c.content_length - length c.body) n a) _ (max n) (λ b read. tt))
  where
    max : (k : ℤ) → Ends (recv_vector_max (c.content_length - length c.body) k a)
    max (negsuc k) = tt
    max (pos k) = recv_exact-Ends a _ []

split_async-Ends :
    (c : HttpClient) (text binary : Bytes) (i shift : ℕ) (received : Bool)
    → Ends (split_async c text binary i shift received)
unfolding split_async
split_async-Ends c text binary i shift received =
    if-Ends (leb (i + shift) (length text)) _ _ tt (λ e. cc)

recv_header_async-Ends : (c : HttpClient) (a : Answer) → Ends (recv_header_async c a)
unfolding recv_header_async
recv_header_async-Ends c a = bind-Ends (recv_vector a) _ (recv_vector-Ends a) (λ buffer read.
    elim (Option-cases (find_header_end (parse_buffer buffer []).0)) [
      | inl missing ↦ rw missing (split_async-Ends c _ _ npos 0 c.received_header)
      | inr ((i, shift), found) ↦ rw found (split_async-Ends c _ _ i shift true)
    ])

signed-Ends : (negative : Bool) (s : Bytes) → Ends (signed negative s)
unfolding signed
signed-Ends true s =
    if-Ends (starts_with_digit s) _ _ (if-Ends (leb (read_digits 0 s) (2 ^ 31)) _ _ tt (λ e. cc))
      (λ e. cc)
signed-Ends false s =
    if-Ends (starts_with_digit s) _ _ (if-Ends (ltb (read_digits 0 s) (2 ^ 31)) _ _ tt (λ e. cc))
      (λ e. cc)

after_spaces-Ends : (s : Bytes) → Ends (after_spaces s)
unfolding after_spaces
after_spaces-Ends [] = λ e. cc
after_spaces-Ends (c ∷ s) =
    if-Ends (c == b'-') _ _ (signed-Ends true s)
      (if-Ends (c == b'+') _ _ (signed-Ends false s) (signed-Ends false (c ∷ s)))

at-Ends : (m : Dict) (k : Bytes) → Ends (at m k)
unfolding at
at-Ends m k = elim (Option-cases (lookup k m)) [
  | inl missing ↦ rw (at, missing) (λ e. cc)
  | inr (v, found) ↦ rw (at, found) tt
]

or_zero-Ends : (r : Result ℕ) → Ends r → Ends (or_zero r)
or_zero-Ends (err invalid_argument) h = tt
or_zero-Ends (err out_of_range) h = tt
or_zero-Ends (err e) h = h
or_zero-Ends (ok n) h = tt

get_content_length-Ends : (r : HttpRequest) → Ends (get_content_length r)
unfolding get_content_length stoi
get_content_length-Ends r =
    let name = codes "Content-Length" in
    or_zero-Ends (do text ← at r.headers name; n ← stoi text; ok (clamp n))
      (bind-Ends (at r.headers name) _ (at-Ends r.headers name) (λ text found.
        bind-Ends (stoi text) _ (after_spaces-Ends (skip_spaces text)) (λ n read. tt)))

pub receive_client-Ends : (c : HttpClient) (a : Arrival) → Ends (receive_client c a)
unfolding receive_client
receive_client-Ends c a = if-Ends c.received_header _ _ (recv_body_async-Ends c a.count a.more) (
    bind-Ends (recv_header_async c a.first) _ (recv_header_async-Ends c a.first) (λ c' read.
      if-Ends c'.received_header _ _
        (bind-Ends (parse c'.header) _ (parse-Ends c'.header) (λ r parsed.
          bind-Ends (get_content_length r) _ (get_content_length-Ends r)
            (λ n size. recv_body_async-Ends (record c' { content_length = n }) a.count a.more)))
        tt))

-- whether an event for the descriptor is among these
unfoldable pub has_event : Sd → List Sd → Bool
has_event sd [] = false
has_event sd (k ∷ ks) = same_sd k sd || has_event sd ks

pub find_task-keys :
    (sd : Sd) (m : List (Sd × Task))
    → has_event sd (keys m) ≡ true
    → (task : Task) × (find_task sd m ≡ ok task)
unfolding find_task has_event
find_task-keys sd [] added = cc
find_task-keys sd ((k, t) ∷ m) added = elim (Bool-cases (same_sd k sd)) [
  | inl same ↦ (t, rw (find_task, same) refl)
  | inr other ↦
      let (task, found) = find_task-keys sd m (ground arith) in (task, rw (find_task, other) found)
]

-- The handler has removed the event with the task, or has left both where they were; or the read of
-- the input was undefined.
abbrev pub IsHandled : Sd → Pipeline → Result (HttpClient × Bool) → Result Pipeline → Type 0
IsHandled sd p input result =
    ((p' : Pipeline) × (result ≡ ok p')
      × (((p'.events ≡ free_event sd p.events) × (p'.have_no_data ≡ erase sd p.have_no_data))
          ⊎ ((p'.events ≡ p.events) × (keys p'.have_no_data ≡ keys p.have_no_data))))
    ⊎ ((result ≡ err undefined_behaviour) × (input ≡ err undefined_behaviour))

module _ (sd : Sd) (p : Pipeline) where
  received-IsHandled :
      (task : Task) (input : Result (HttpClient × Bool))
      → Ends input
      → IsHandled sd p input (received sd task p input)
  unfolding received pass_on remove_task
  received-IsHandled task (err undefined_behaviour) h = inr (refl, refl)
  received-IsHandled task (err out_of_fuel) h = absurd (h refl)
  received-IsHandled task (err e) h = inl (remove_task sd p, refl, inl (refl, refl))
  received-IsHandled task (ok (c, true)) h =
      inl (pass_on sd (record task { input = c }) p, refl, inl (refl, refl))
  received-IsHandled task (ok (c, false)) h =
      inl (_, refl, inr (refl, keys-write_task sd (record task { input = c }) p.have_no_data))

  found-IsHandled :
      (timed_out : Bool) (a : Arrival) (task : Task)
      → find_task sd p.have_no_data ≡ ok task
      → IsHandled sd p (receive_client task.input a) (move_task sd timed_out a p)
  unfolding move_task remove_task
  found-IsHandled true a task found = inl (remove_task sd p, refl, inl (refl, refl))
  found-IsHandled false a task found =
      rw (move_task, found)
        (received-IsHandled task (receive_client task.input a) (receive_client-Ends task.input a))

-- In every state that can be reached, by clients created under descriptors that no task waits under,
-- an event that has been added, timed out or not, finds its task: `at` does not throw with the mutex
-- locked. The handler then removes the event and the task from those that wait, or leaves them there
-- with all others; only where the read of the input is undefined is the handler.
Reachable-move_task-IsHandled :
    {p : Pipeline} (sd : Sd) (timed_out : Bool) (a : Arrival)
    → Reachable p
    → has_event sd p.events ≡ true
    → (task : Task) × (find_task sd p.have_no_data ≡ ok task)
      × IsHandled sd p (receive_client task.input a) (move_task sd timed_out a p)
Reachable-move_task-IsHandled {p = p} sd timed_out a reached added =
    let (task, found) =
      find_task-keys sd p.have_no_data (rw (Reachable-IsSound reached).keyed at added) in
    (task, found, found-IsHandled sd p timed_out a task found)
