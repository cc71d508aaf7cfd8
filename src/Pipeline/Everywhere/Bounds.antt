-- ===== src/Pipeline/Everywhere/Bounds.antt =====
-- How much a client can make the server hold.
use mathlib.Core.Path.{subst}
use technopark_highload.Client.{HttpClient, new_client, recv_header_async, recv_body_async}
use technopark_highload.Http.Request.{parse, get_content_length}
use technopark_highload.Pipeline.Everywhere.{Everywhere, Reachable-Everywhere}
use technopark_highload.Pipeline.Reachability.{Reachable}
use technopark_highload.Pipeline.Received.{AsksFor}
use technopark_highload.Pipeline.{Pipeline, Arrival, receive_client}
use technopark_highload.Prelude.Int.{ℤ}
use technopark_highload.Prelude.{
  ◌-◌, ◌^◌, ◌≤◌, ◌<◌, ◌≡◌, refl, ◌⊎◌, inl, inr, arith, Bool, true, false, leb, List, [], ◌++◌,
  length, length-append, Bool-cases,
}
use technopark_highload.Result.{ok, Result-cases}
use technopark_highload.Socket.Receive.Exact.{recv_vector_max-le}
use technopark_highload.Socket.Receive.{Answer, recv_vector_max}
use technopark_highload.Pipeline.Everywhere.Sizes.{
  recv_header_async-le, recv_header_async_received, get_content_length-lt,
}

-- A header has been read, of at most 256 bytes, which `HttpRequest` parses to a request that asks for
-- less than 2 ^ 31 bytes, and a body of at most 256 bytes or as many as the request asks for.
abbrev pub IsBoundedHeader : HttpClient → Type 0
IsBoundedHeader c =
    (c.received_header ≡ true)
    × (length c.header ≤ 256)
    × AsksFor c.header c.content_length
    × (c.content_length < 2 ^ 31)
    × ((length c.body ≤ 256) ⊎ (length c.body ≤ c.content_length))

-- Nothing has been read, or a header and maybe some of the body.
abbrev pub IsBounded : HttpClient → Type 0
IsBounded c =
    ((c.received_header ≡ false) × (c.header ≡ []) × (c.body ≡ []) × (c.content_length ≡ 0))
    ⊎ IsBoundedHeader c

-- Of the body at most the rest is read.
recv_body_async-IsBounded :
    (c c' : HttpClient) (n : ℤ) (a : List Answer) (done : Bool)
    → IsBoundedHeader c
    → recv_body_async c n a ≡ ok (c', done)
    → IsBoundedHeader c'
unfolding recv_body_async
recv_body_async-IsBounded c c' n a done (there, header, asks, size, body) e =
    elim (Bool-cases (leb c.content_length (length c.body))) [
      | inl whole ↦
          let same : c ≡ c' = ground arith in
          let bounded : IsBoundedHeader c = (there, header, asks, size, body) in rw same at bounded
      | inr part ↦ elim (Result-cases (recv_vector_max (c.content_length - length c.body) n a)) [
        | inl (x, thrown) ↦ ground arith
        | inr (b, read) ↦
            let fits = recv_vector_max-le (c.content_length - length c.body) n a read in
            let sum = length-append c.body b in
            let open_end : length c.body < c.content_length = ground arith in
            let same : record c { body = c.body ++ b } ≡ c' = ground arith in
            let bounded : IsBoundedHeader (record c { body = c.body ++ b }) =
              (there, header, asks, size, inr (omega arith)) in
            subst IsBoundedHeader same bounded
      ]
    ]

read_header-IsBounded :
    (c c' : HttpClient) (a : Arrival) (done : Bool)
    → c.received_header ≡ false
    → c.header ≡ []
    → c.body ≡ []
    → c.content_length ≡ 0
    → receive_client c a ≡ ok (c', done)
    → IsBoundedHeader c'
unfolding receive_client
read_header-IsBounded c c' a done unread no_header no_body no_length e =
    elim (Result-cases (recv_header_async c a.first)) [
      | inl (x, thrown) ↦ ground arith
      | inr (d, read) ↦
          let (header, body) = recv_header_async-le c a.first no_header no_body read in
          let there : d.received_header ≡ true = recv_header_async_received c a.first read in
          elim (Result-cases (parse d.header)) [
            | inl (x, refused) ↦ ground arith
            | inr (r, parsed) ↦ elim (Result-cases (get_content_length r)) [
              | inl (x, thrown) ↦ ground arith
              | inr (n, value) ↦
                  recv_body_async-IsBounded (record d { content_length = n }) c' a.count a.more done
                    (there, header, (r, parsed, value), get_content_length-lt r value, inl body)
                    (ground arith)
            ]
          ]
    ]

receive_client-IsBounded :
    (c c' : HttpClient) (a : Arrival) (done : Bool)
    → IsBounded c
    → receive_client c a ≡ ok (c', done)
    → IsBounded c'
unfolding receive_client
receive_client-IsBounded c c' a done (inl (unread, no_header, no_body, no_length)) e =
    inr (read_header-IsBounded c c' a done unread no_header no_body no_length e)
receive_client-IsBounded c c' a done (inr bounded) e =
    let there = bounded.0 in
    inr (recv_body_async-IsBounded c c' a.count a.more done bounded (ground arith))

-- In every state that can be reached, by clients created under descriptors that no task waits under:
-- a client whose header has not been read is empty; of any other the header has at most 256 bytes, and
-- `HttpRequest` parses it to a request whose Content-Length is below 2 ^ 31, and the body has at most
-- 256 bytes or at most as many as this Content-Length. The steps are those that are defined: a first
-- read without a blank line is not.
pub Reachable-IsBounded : {p : Pipeline} → Reachable p → Everywhere IsBounded p
unfolding new_client
Reachable-IsBounded reached =
    Reachable-Everywhere IsBounded (λ s. inl (refl, refl, refl, refl)) receive_client-IsBounded
      reached
