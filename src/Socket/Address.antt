-- ===== src/Socket/Address.antt =====
-- socket.cpp: addresses, the flag of a descriptor that does not block, and a query that waits for
-- its whole answer.
use technopark_highload.Decimal.{to_string}
use technopark_highload.Prelude.{
  ℕ, ◌+◌, ◌-◌, ◌/◌, ◌%◌, ◌^◌, Bool, ◌==◌, leb, Option, none, some, List, [], ◌∷◌, ◌++◌,
  if◌then◌else◌, length, Bytes, codes,
}
use technopark_highload.Result.{Result, ok, err, runtime_error, undefined_behaviour}
use technopark_highload.Socket.Receive
use technopark_highload.Socket.Receive.{recv_loop}
use technopark_highload.Socket.Send
use technopark_highload.Socket.Send.{send}

-- `int2ipv4`, of a `uint32_t`
unfoldable pub int2ipv4 : ℕ → Bytes
unfolding to_string
int2ipv4 ip =
    to_string (ip % 256)
    ++ codes "."
    ++ to_string (ip / 2 ^ 8 % 256)
    ++ codes "."
    ++ to_string (ip / 2 ^ 16 % 256)
    ++ codes "."
    ++ to_string (ip / 2 ^ 24 % 256)

-- `struct sockaddr_in`: the port and the address as bytes in the order of the network
pub record SockAddr : Type 0 where
  pub sin_port : Bytes
  pub sin_addr : Bytes

-- `htons`
abbrev pub htons : ℕ → Bytes
htons port = port / 2 ^ 8 % 256 ∷ port % 256 ∷ []

-- `resolve`, by the list of addresses that `gethostbyname` finds. The loop over them keeps nothing;
-- the first is copied, and must not be longer than the four bytes it is copied to.
unfoldable pub resolve : Option (List Bytes) → ℕ → Result SockAddr
resolve none port = err runtime_error
resolve (some []) port = err undefined_behaviour
resolve (some (address ∷ _)) port =
    if leb (length address) 4
    then ok (record { sin_port = htons port; sin_addr = address })
    else err undefined_behaviour

-- `flags | O_NONBLOCK` and `flags & ~O_NONBLOCK`, where that is the bit of value `bit`
abbrev pub with_bit : ℕ → Bool → ℕ → ℕ
with_bit bit opt flags =
    if flags / bit % 2 == 1
    then (if opt then flags else flags - bit)
    else (if opt then flags + bit else flags)

-- `setNonBlocked`: the flags behind it, by whether the second `fcntl` succeeds
unfoldable pub set_non_blocked : ℕ → Bool → ℕ → Bool → Result ℕ
set_non_blocked bit opt flags succeeds =
    if succeeds then ok (with_bit bit opt flags) else err runtime_error

-- `httpQuery`: what the callback is called with, or what is thrown before that; `none` while the query
-- is being sent
unfoldable pub http_query : Bytes → List Send.Answer → List Receive.Answer → Option (Result Bytes)
unfolding send recv_loop
http_query query sending answers = elim (send query sending).0 [
  | Send.returned ↦ some (recv_loop answers [])
  | Send.thrown ↦ some (err runtime_error)
  | Send.waiting ↦ none
]
