-- ===== src/Client.antt =====
-- http_server/HTTPClient: one end of a connection, and the helpers that split and join bodies. The
-- socket's answers are arguments of the calls that read from it.
pub mod Pieces
pub mod Reads
pub mod Header
pub mod Opening
pub mod Gathering
use technopark_highload.Prelude.Int.{ℤ}
use technopark_highload.Prelude.{
  ℕ, ◌+◌, ◌-◌, ◌/◌, ◌^◌, Bool, true, false, Option, none, some, List, [], ◌∷◌, ◌++◌, leb, ltb, ◌==◌,
  if◌then◌else◌, length, take, drop, Bytes, codes,
}
use technopark_highload.Result.{Result, ok, err, ◌>>=◌, runtime_error, undefined_behaviour}
use technopark_highload.Socket.Receive
use technopark_highload.Socket.Receive.{Answer, recv_vector, recv_vector_exact, recv_vector_max}
use technopark_highload.Socket.Send
use technopark_highload.Text.{find}

-- A descriptor and the port that it was accepted on; a client without a socket has a null pointer.
pub record Connection : Type 0 where
  pub sd : ℕ
  pub port : ℕ

pub record HttpClient : Type 0 where
  pub header : Bytes
  pub body : Bytes
  pub socket : Option Connection
  pub received_header : Bool
  pub content_length : ℕ

-- the constructor from a socket
unfoldable pub new_client : Option Connection → HttpClient
new_client socket = record {
  header = [];
  body = [];
  socket = socket;
  received_header = false;
  content_length = 0;
}

-- the bytes in front of the first byte 0
unfoldable pub before_nul : Bytes → Bytes
before_nul [] = []
before_nul (c ∷ s) = let rest = c ∷ before_nul s in if c == 0 then [] else rest

-- `ParseBuffer`: the text with the bytes in front of the first byte 0, and the bytes from it on
unfoldable pub parse_buffer : Bytes → Bytes → Bytes × Bytes
unfolding before_nul
parse_buffer buffer target = (target ++ before_nul buffer, drop (length (before_nul buffer)) buffer)

abbrev pub blank_line : Bytes
blank_line = codes "\r\n\r\n"

abbrev pub bare_blank_line : Bytes
bare_blank_line = codes "\n\n"

-- where the header ends, and the length of what ends it
unfoldable pub find_header_end : Bytes → Option (ℕ × ℕ)
find_header_end text = elim (find blank_line text) [
  | some i ↦ some (i, 4)
  | none ↦ elim (find bare_blank_line text) [ some i ↦ some (i, 2) | none ↦ none ]
]

-- The header ends in half of what ends it, and the body starts behind it; then comes what stood
-- from the first byte 0 on, before what the body held already. The body's old content is lost if
-- there is no byte 0.
unfoldable pub split_message : HttpClient → Bytes → Bytes → ℕ → ℕ → HttpClient
split_message c text binary i shift =
    let rest = drop (i + shift) text in
    record c {
      header = c.header ++ take (i + shift / 2) text;
      body = elim binary [ [] ↦ rest | b ∷ bs ↦ rest ++ ((b ∷ bs) ++ c.body) ];
      received_header = true;
    }

abbrev pub npos : ℕ
npos = 2 ^ 64 - 1

-- The body is built from the iterator `result.begin() + i + shift`, which is undefined if it does not
-- point into the text or to its end.
unfoldable pub split_async : HttpClient → Bytes → Bytes → ℕ → ℕ → Bool → Result HttpClient
unfolding split_message
split_async c text binary i shift received =
    if leb (i + shift) (length text)
    then ok (record (split_message c text binary i shift) { received_header = received })
    else err undefined_behaviour

-- `RecvHeaderAsync`, from one answer of the socket. Without a blank line `bodyStartIndex` is `npos`,
-- `shift` is 0, and the header has not been received.
unfoldable pub recv_header_async : HttpClient → Answer → Result HttpClient
unfolding split_async
recv_header_async c answer = do
  buffer ← recv_vector answer
  let (text, binary) = parse_buffer buffer []
  elim (find_header_end text) [
    | none ↦ split_async c text binary npos 0 c.received_header
    | some (i, shift) ↦ split_async c text binary i shift true
  ]

-- The loop of `RecvHeader`: the text that has come, and what stands from the first byte 0 on, which
-- ends the loop. Where the answers given end, the peer is gone.
unfoldable pub recv_header_loop : Bytes → List Answer → Result (Bytes × Bytes)
recv_header_loop text [] = elim (find_header_end text) [
  | some _ ↦ ok (text, [])
  | none ↦ err runtime_error
]
recv_header_loop text (answer ∷ answers) = elim (find_header_end text) [
  | some _ ↦ ok (text, [])
  | none ↦ do
    buffer ← recv_vector answer
    let (longer, binary) = parse_buffer buffer text
    elim binary [ [] ↦ recv_header_loop longer answers | b ∷ bs ↦ ok (longer, b ∷ bs) ]
]

-- `RecvHeader`, which leaves `receivedHeader` as it is
unfoldable pub recv_header : HttpClient → List Answer → Result HttpClient
unfolding recv_header_loop
recv_header c answers = do
  (text, binary) ← recv_header_loop [] answers
  elim (find_header_end text) [
    | none ↦ err runtime_error
    | some (i, shift) ↦
        ok (record (split_message (record c { header = []; body = [] }) text binary i shift) {
          received_header = c.received_header;
        })
  ]

-- `RecvBodyAsync`: the client, and whether the body is complete. Both functions are members of one
-- object, so that what is left is counted from the body as it is.
unfoldable pub recv_body_async : HttpClient → ℤ → List Answer → Result (HttpClient × Bool)
recv_body_async c count answers = if leb c.content_length (length c.body) then ok (c, true) else (do
  received ← recv_vector_max (c.content_length - length c.body) count answers
  let body = c.body ++ received
  ok (record c { body = body }, length body == c.content_length))

-- `RecvBody`: exactly the rest. If the body is longer already the count wraps, and the buffer of that
-- size cannot be allocated.
unfoldable pub recv_body : HttpClient → List Answer → Result HttpClient
recv_body c answers = if ltb c.content_length (length c.body) then err runtime_error else (do
  received ← recv_vector_exact (c.content_length - length c.body) answers
  ok (record c { body = c.body ++ received }))

-- `SetBody` of a queue: the reference to the front is used after `pop` has destroyed the front.
unfoldable pub set_body : List Bytes → HttpClient → Result HttpClient
set_body [] c = ok (record c { body = [] })
set_body (_ ∷ _) c = err undefined_behaviour

-- `GetPort`; `none` is the -1 of a client without a socket
unfoldable pub get_port : HttpClient → Option ℕ
get_port c = elim c.socket [ none ↦ none | some s ↦ some s.port ]

-- `Send(data, close)`: the client, and what the peer has got. What `Socket::send` throws is caught;
-- `none` where it waits.
unfoldable pub sent_data : Bool → HttpClient → Send.Ending × Bytes → Option (HttpClient × Bytes)
sent_data close c (Send.waiting, wire) = none
sent_data close c (Send.returned, wire) =
    some (if close then record c { socket = none } else c, wire)
sent_data close c (Send.thrown, wire) = some (if close then record c { socket = none } else c, wire)

unfoldable pub send_data :
    Bool → HttpClient → Bytes → List Send.Answer → Option (HttpClient × Bytes)
unfolding sent_data Send.send
send_data close c body answers = sent_data close c (Send.send body answers)

-- the second call of `Send(close)`, behind what the first has sent
unfoldable pub send_rest :
    Bool → HttpClient → List Send.Answer → Send.Ending × Bytes → Send.Ending × HttpClient × Bytes
unfolding Send.send
send_rest close c second (Send.returned, wire) =
    let (ending, more) = Send.send c.body second in
    elim ending [
      | Send.returned ↦
          (Send.returned, if close then record c { socket = none } else c, wire ++ more)
      | stuck ↦ (stuck, c, wire ++ more)
    ]
send_rest close c second (Send.thrown, wire) = (Send.thrown, c, wire)
send_rest close c second (Send.waiting, wire) = (Send.waiting, c, wire)

-- `Send(close)`: how it ends, the client, and what the peer has got; each of the two calls of
-- `Socket::send` has its answers.
unfoldable pub send_message :
    Bool → HttpClient → List Send.Answer → List Send.Answer → Send.Ending × HttpClient × Bytes
unfolding send_rest Send.send
send_message close c first second =
    send_rest close c second (Send.send (c.header ++ blank_line) first)

-- `Clear` and `Close`
unfoldable pub clear : HttpClient → HttpClient
clear c = record c { header = []; body = [] }

unfoldable pub close : HttpClient → HttpClient
unfolding clear
close c = clear (record c { socket = none })
