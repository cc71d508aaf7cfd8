-- ===== src/Pipeline/Received.antt =====
-- What is known of a client whose input the controller calls complete.
use technopark_highload.Client.{HttpClient, recv_header_async, recv_body_async}
use technopark_highload.Http.Request.{HttpRequest, parse, get_content_length}
use technopark_highload.Pipeline.{Arrival, receive_client}
use technopark_highload.Prelude.Int.{ℤ}
use technopark_highload.Prelude.{
  ℕ, ◌≤◌, ◌-◌, ◌≡◌, ◌⊎◌, inl, inr, Bool, true, false, ==_iff, leb, List, ◌++◌, arith, length,
  Bool-cases, Bytes,
}
use technopark_highload.Result.{ok, Result-cases}
use technopark_highload.Socket.Receive.{Answer, recv_vector_max}

-- The header is one that `HttpRequest` parses, and `n` is the length that it asks for.
abbrev pub AsksFor : Bytes → ℕ → Type 0
AsksFor header n = (r : HttpRequest) × (parse header ≡ ok r) × (get_content_length r ≡ ok n)

-- No header yet, or one that `HttpRequest` parses, with the length that it asks for.
abbrev pub IsWaiting : HttpClient → Type 0
IsWaiting c = (c.received_header ≡ false) ⊎ AsksFor c.header c.content_length

-- The header is one that `HttpRequest` parses, and a body of at least the length that it asks for is
-- there.
abbrev pub IsReady : HttpClient → Type 0
IsReady c =
    (r : HttpRequest) × (n : ℕ) × (parse c.header ≡ ok r)
    × (get_content_length r ≡ ok n)
    × (n ≤ length c.body)

-- Whether the body is complete or not, the header stays.
recv_body_async-keeps :
    (c : HttpClient) (n : ℤ) (a : List Answer) {c' : HttpClient} {done : Bool}
    → recv_body_async c n a ≡ ok (c', done)
    → (c'.header ≡ c.header)
      × (c'.received_header ≡ c.received_header)
      × (c'.content_length ≡ c.content_length)
unfolding recv_body_async
recv_body_async-keeps c n a e = ground arith

recv_body_async_complete :
    (c : HttpClient) (n : ℤ) (a : List Answer) {c' : HttpClient}
    → recv_body_async c n a ≡ ok (c', true)
    → c'.content_length ≤ length c'.body
unfolding recv_body_async
recv_body_async_complete c n a e = elim (Bool-cases (leb c.content_length (length c.body))) [
  | inl whole ↦ ground arith
  | inr part ↦ elim (Result-cases (recv_vector_max (c.content_length - length c.body) n a)) [
    | inl (x, thrown) ↦ ground arith
    | inr (b, read) ↦ ground (arith, ==_iff (length (c.body ++ b)) c.content_length)
  ]
]

-- Either the header is not there yet, or the body has been read behind a header that parses.
abbrev Received : Arrival → HttpClient → Bool → Type 0
Received a c' done =
    ((done ≡ false) × (c'.received_header ≡ false))
    ⊎ ((start : HttpClient) × AsksFor start.header start.content_length
        × (recv_body_async start a.count a.more ≡ ok (c', done)))

unread-Received :
    (c : HttpClient) (a : Arrival) {c' : HttpClient} {done : Bool}
    → c.received_header ≡ false
    → receive_client c a ≡ ok (c', done)
    → Received a c' done
unfolding receive_client
unread-Received c a unread e = elim (Result-cases (recv_header_async c a.first)) [
  | inl (x, thrown) ↦ ground arith
  | inr (c'', read) ↦ elim (Bool-cases c''.received_header) [
    | inl there ↦ elim (Result-cases (parse c''.header)) [
      | inl (x, refused) ↦ ground arith
      | inr (r, parsed) ↦ elim (Result-cases (get_content_length r)) [
        | inl (x, thrown) ↦ ground arith
        | inr (n, size) ↦ inr (record c'' { content_length = n }, (r, parsed, size), ground arith)
      ]
    ]
    | inr absent ↦ inl (ground arith)
  ]
]

receive_client-Received :
    (c : HttpClient) (a : Arrival) {c' : HttpClient} {done : Bool}
    → IsWaiting c
    → receive_client c a ≡ ok (c', done)
    → Received a c' done
unfolding receive_client
receive_client-Received c a (inl unread) e = unread-Received c a unread e
receive_client-Received c a (inr asks) e = elim (Bool-cases c.received_header) [
  | inl there ↦ inr (c, asks, ground arith)
  | inr absent ↦ unread-Received c a absent e
]

-- What the header asks for stays while the body is read.
recv_body_async-AsksFor :
    (c : HttpClient) (n : ℤ) (a : List Answer) {c' : HttpClient} {done : Bool}
    → AsksFor c.header c.content_length
    → recv_body_async c n a ≡ ok (c', done)
    → AsksFor c'.header c'.content_length
recv_body_async-AsksFor c n a asks e =
    let (header, _, size) = recv_body_async-keeps c n a e in rw (header, size) asks

-- The header of a client that waits is read once, and parsed then.
pub receive_client-IsWaiting :
    (c : HttpClient) (a : Arrival) {c' : HttpClient} {done : Bool}
    → IsWaiting c
    → receive_client c a ≡ ok (c', done)
    → IsWaiting c'
receive_client-IsWaiting c a waiting e = elim (receive_client-Received c a waiting e) [
  | inl (_, absent) ↦ inl absent
  | inr (start, asks, read) ↦ inr (recv_body_async-AsksFor start a.count a.more asks read)
]

-- For a client that has no header yet, or one that `HttpRequest` parses with the length that it asks
-- for, an input that `ReceiveInput` calls complete has a header that `HttpRequest` parses, and a body
-- of at least the length that this request asks for.
pub receive_client-IsReady :
    (c : HttpClient) (a : Arrival) {c' : HttpClient}
    → IsWaiting c
    → receive_client c a ≡ ok (c', true)
    → IsReady c'
receive_client-IsReady c a {c' = c'} waiting e = elim (receive_client-Received c a waiting e) [
  | inl (unfinished, _) ↦ cc
  | inr (start, asks, read) ↦
      let (r, parsed, size) = recv_body_async-AsksFor start a.count a.more asks read in
      (r, c'.content_length, parsed, size, recv_body_async_complete start a.count a.more read)
]
