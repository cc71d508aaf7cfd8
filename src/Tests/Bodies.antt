-- ===== src/Tests/Bodies.antt =====
-- A body of five bytes that comes in two events, and a peer that sends only three of them.
use technopark_highload.Client.{HttpClient}
use technopark_highload.Pipeline.Bodies.{receive_events, receive_events-brought}
use technopark_highload.Pipeline.Gone.{move_all, move_all_nothing}
use technopark_highload.Pipeline.{same_sd, Pipeline, find_task, Arrival}
use technopark_highload.Prelude.Int.{pos}
use technopark_highload.Prelude.{◌≡◌, refl, true, some, [], ◌∷◌, arith, codes}
use technopark_highload.Result.{ok}
use technopark_highload.Socket.Receive.{again, bytes}
use technopark_highload.Worker.{new_task}

abbrev client : HttpClient
client = record {
  header = codes "GET /a HTTP/1.1\r\nContent-Length: 5\r\n";
  body = codes "a";
  socket = some (record { sd = 7; port = 80 });
  received_header = true;
  content_length = 5;
}

receive_events-brought_example :
    receive_events again client ((codes "bc" ∷ codes "d" ∷ []) ∷ (codes "e" ∷ []) ∷ [])
    ≡ ok (record client { body = codes "abcde" }, true)
receive_events-brought_example =
    receive_events-brought again ((codes "bc" ∷ codes "d" ∷ []) ∷ (codes "e" ∷ []) ∷ []) client refl
      (omega arith) (((λ e. cc), ((λ e. cc), ((λ e. cc), tt))), (((λ e. cc), ((λ e. cc), tt)), tt))
      refl

abbrev left_alone : Pipeline
left_alone = record {
  unprocessed_clients = [];
  have_no_data = (some 7, new_task client) ∷ [];
  events = some 7 ∷ [];
  have_data = [];
}

abbrev nothing : Arrival
nothing = record { first = bytes []; count = pos 0; more = bytes [] ∷ [] }

move_all_nothing_example : move_all (some 7) (nothing ∷ nothing ∷ []) left_alone ≡ ok left_alone
unfolding find_task same_sd
move_all_nothing_example =
    move_all_nothing (some 7) (nothing ∷ nothing ∷ []) left_alone (new_task client) refl refl
      (omega arith) (refl, (refl, tt))
