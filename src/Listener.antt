-- ===== src/Listener.antt =====
-- async/src/Listener.cpp and async/include/Listener.hpp, without the thread: a round of its loop is
-- `accept_client` of Pipeline.
use technopark_highload.Prelude.{ℕ, Bool, true, false, none, List, if◌then◌else◌}
use technopark_highload.Result.{Result, ok, ◌>>=◌}
use technopark_highload.Socket.Open.{Socket, Answers, Outcome, move_assign}

pub record Listener : Type 0 where
  pub socket : Socket
  pub stop : Bool

-- the constructor, with what `createServerSocket(port, 5)` makes or throws
unfoldable pub new_listener : Result Socket → Result Listener
new_listener opened = do s ← opened; ok (record { socket = s; stop = true })

-- `Listener::Start` and `Stop`, without the thread
unfoldable pub start_listener : Listener → Listener
start_listener l = if l.stop then record l { stop = false } else l

unfoldable pub stop_listener : Listener → Listener
stop_listener l = if l.stop then l else record l { stop = true }

-- what is open behind the call is that of the socket
abbrev pub listening : Outcome → Result Listener × List ℕ
unfolding new_listener
listening (opened, fds) = (new_listener opened, fds)

-- `Listener(Listener&& other)`, which closes the socket of the other and listens again, and
-- `operator=`, which closes its own socket too; both stop the other. The queue that both refer to
-- is the same. The listener and the descriptors, and the other as it is left.
unfoldable pub move_listener : Answers → Listener → List ℕ → (Result Listener × List ℕ) × Listener
unfolding move_assign stop_listener new_listener
move_listener a other fds =
    let fresh : Socket = record { sd = none; port = 0; queue_size = 0 } in
    let left = record (stop_listener other) { socket = record other.socket { sd = none } } in
    (listening (move_assign a fresh other.socket fds), left)

unfoldable pub assign_listener :
    Answers → Listener → Listener → List ℕ → (Result Listener × List ℕ) × Listener
unfolding move_assign stop_listener new_listener
assign_listener a l other fds =
    let left = record (stop_listener other) { socket = record other.socket { sd = none } } in
    (listening (move_assign a l.socket other.socket fds), left)
