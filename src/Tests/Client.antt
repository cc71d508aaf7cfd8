-- ===== src/Tests/Client.antt =====
-- The client of a connection: its helpers and its first read at concrete bytes.
use technopark_highload.Client.Header.{recv_header_async_lem, recv_header_async_partial}
use technopark_highload.Client.Pieces.Maps.{split-merge_map}
use technopark_highload.Client.Pieces.RoundTrip.{split-merge_queue}
use technopark_highload.Client.Pieces.{
  split_vector_to_map, merge_map_to_vector, split_vector_to_queue, merge_queue_to_vector,
}
use technopark_highload.Client.Gathering.{arriving, recv_header-arriving}
use technopark_highload.Client.{
  recv_header, set_body, find_header_end, HttpClient, new_client, recv_header_async, before_nul,
}
use technopark_highload.Dict.{Dict, less}
use technopark_highload.Prelude.{◌≡◌, ◌↔◌, refl, none, true, List, [], ◌∷◌, arith, Bytes, codes}
use technopark_highload.Result.{ok, err, undefined_behaviour}
use technopark_highload.Socket.Receive.{bytes}
use technopark_highload.Text.{find, starts_with}

abbrev buffer : Bytes
buffer = codes "GET / HTTP/1.1\r\n\r\nxyz"

abbrev received : HttpClient
unfolding new_client
received = record (new_client none) {
  header = codes "GET / HTTP/1.1\r\n";
  body = codes "xyz";
  received_header = true;
}

recv_header_async_example : recv_header_async (new_client none) (bytes buffer) ≡ ok received
unfolding before_nul find starts_with new_client
recv_header_async_example =
    recv_header_async_lem (new_client none) buffer 14 refl (omega arith) refl

recv_header_async_partial_example :
    (recv_header_async (new_client none) (bytes (codes "GET / HT")) ≡ err undefined_behaviour) ↔ (
      (find (codes "\r\n\r\n") (before_nul (codes "GET / HT")) ≡ none)
      × (find (codes "\n\n") (before_nul (codes "GET / HT")) ≡ none))
recv_header_async_partial_example =
    recv_header_async_partial (new_client none) (codes "GET / HT") (λ e. cc) (omega arith)

-- A header in two pieces
recv_header_async_half :
    recv_header_async (new_client none) (bytes (codes "GET / HT")) ≡ err undefined_behaviour
unfolding before_nul find starts_with
recv_header_async_half =
    (recv_header_async_partial (new_client none) (codes "GET / HT") (λ e. cc) (omega arith)).1
      (refl, refl)

abbrev items : List Bytes
items = codes "ab" ∷ codes "" ∷ codes "c" ∷ []

split-merge_queue_example :
    split_vector_to_queue (codes "\r\n") (merge_queue_to_vector (codes "\r\n") items).0 ≡ ok items
split-merge_queue_example =
    split-merge_queue 13 (codes "\n") items (omega arith, (tt, (omega arith, tt)))

-- A header in two pieces, the first of which ends inside the blank line.
abbrev halves : List Bytes
halves = codes "GET / HTTP/1.1\r\n\r" ∷ codes "\nxyz" ∷ []

recv_header-arriving_example :
    recv_header (new_client none) (arriving halves [])
    ≡ ok (record (new_client none) { header = codes "GET / HTTP/1.1\r\n"; body = codes "xyz" })
unfolding find_header_end find starts_with new_client
recv_header-arriving_example =
    recv_header-arriving (new_client none) halves [] 14 4
      (refl, λ e. cc, ground arith, ground arith, (refl, λ e. cc, ground arith, ground arith, tt))
      refl

set_body_queue : set_body (codes "a" ∷ []) (new_client none) ≡ err undefined_behaviour
unfolding set_body
set_body_queue = refl

abbrev settings : Dict
settings = (codes "Host", codes "a:80") ∷ (codes "X", []) ∷ []

split-merge_map_example :
    split_vector_to_map
      (codes "\r\n")
      (codes ": ")
      (merge_map_to_vector (codes "\r\n") (codes ": ") settings)
    ≡ ok settings
unfolding less
split-merge_map_example =
    split-merge_map 13 (codes "\n") b':' b' ' (omega arith) (omega arith) settings (refl, (tt, tt))
      (ground arith)
