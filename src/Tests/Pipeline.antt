-- ===== src/Tests/Pipeline.antt =====
-- The pipeline on a connection that sends one request.
use technopark_highload.Client.{Connection, HttpClient, new_client}
use technopark_highload.Client
use technopark_highload.Dict.{lookup, put, insert, less, at}
use technopark_highload.Http.Method
use technopark_highload.Http.Request.{
  parse, parse_target, parse_version, parse_headers, get_content_length,
}
use technopark_highload.Pipeline.Conserved.Steps.{IsConserved, Logged-IsConserved}
use technopark_highload.Pipeline.Conserved.{log_step, Logged, begun, next}
use technopark_highload.Pipeline.Everywhere.Bounds.{IsBounded, Reachable-IsBounded}
use technopark_highload.Pipeline.Everywhere.{Everywhere}
use technopark_highload.Pipeline.Invariant.{IsSound}
use technopark_highload.Pipeline.Reachability.{
  accepted, created, fired, Reachable, started, stepped, Reachable-IsSound,
}
use technopark_highload.Pipeline.{
  same_sd, Pipeline, empty, accept_client, create_task, move_task, receive_client, received,
  pass_on, Arrival, find_task, erase, emplace, free_event,
}
use technopark_highload.Prelude.Int.{pos}
use technopark_highload.Prelude.{◌≡◌, refl, true, false, none, some, [], ◌∷◌, codes}
use technopark_highload.Result.{ok}
use technopark_highload.Socket.Receive.{bytes, recv_vector}
use technopark_highload.Text.{
  equal, starts_with, find, find_from, find_char, substr, scan, scan_from,
}
use technopark_highload.Worker.{Task, new_task}

abbrev pub peer : Connection
peer = record { sd = 7; port = 80 }

abbrev pub request : Arrival
request = record { first = bytes (codes "GET /a HTTP/1.0\r\n\r\n"); count = pos 0; more = [] }

abbrev pub complete : HttpClient
complete = record {
  header = codes "GET /a HTTP/1.0\r\n";
  body = [];
  socket = some peer;
  received_header = true;
  content_length = 0;
}

abbrev waiting : Pipeline
waiting = record {
  unprocessed_clients = [];
  have_no_data = (some 7, new_task (new_client (some peer))) ∷ [];
  events = some 7 ∷ [];
  have_data = [];
}

pub receive_run : receive_client (new_client (some peer)) request ≡ ok (complete, true)
unfolding receive_client Client.recv_header_async recv_vector Client.parse_buffer Client.before_nul
    Client.find_header_end Client.split_async Client.split_message Client.recv_body_async find
    starts_with new_client parse parse_target parse_version parse_headers
    Method.string_to_request_method insert less lookup put at equal find_from find_char substr
    scan_from scan get_content_length
receive_run = refl

abbrev pub done : Task
done = record { input = complete; output = new_client none }

abbrev ready : Pipeline
ready = record { unprocessed_clients = []; have_no_data = []; events = []; have_data = done ∷ [] }

created_run : create_task (accept_client (some peer) empty) ≡ waiting
unfolding create_task accept_client emplace find_task new_client
created_run = refl

fired_run : move_task (some 7) false request waiting ≡ ok ready
unfolding same_sd move_task find_task received pass_on erase free_event receive_client
    Client.recv_header_async recv_vector Client.parse_buffer Client.before_nul
    Client.find_header_end Client.split_async Client.split_message Client.recv_body_async find
    starts_with new_client parse parse_target parse_version parse_headers
    Method.string_to_request_method insert less lookup put at equal find_from find_char substr
    scan_from scan get_content_length
fired_run = refl

waiting_Reachable : Reachable waiting
unfolding create_task accept_client emplace find_task new_client same_sd
waiting_Reachable =
    stepped (stepped started (accepted (some peer) empty))
      (created (accept_client (some peer) empty) (new_client (some peer)) [] refl refl)

ready_Reachable : Reachable ready
ready_Reachable = stepped waiting_Reachable (fired (some 7) false request fired_run)

Reachable-IsSound_example : IsSound ready
Reachable-IsSound_example = Reachable-IsSound ready_Reachable

-- One client has been accepted, and waits for a worker.
ready_Logged :
    Logged (record { accepted_clients = some 7 ∷ []; taken_tasks = []; removed_tasks = [] }) ready
unfolding create_task accept_client emplace find_task new_client same_sd log_step receive_client
    Client.recv_header_async recv_vector Client.parse_buffer Client.before_nul
    Client.find_header_end Client.split_async Client.split_message Client.recv_body_async find
    starts_with parse parse_target parse_version parse_headers Method.string_to_request_method
    insert less lookup put at equal find_from find_char substr scan_from scan get_content_length
ready_Logged =
    next
      (next (next begun (accepted (some peer) empty))
        (created (accept_client (some peer) empty) (new_client (some peer)) [] refl refl))
      (fired (some 7) false request fired_run)

Logged-IsConserved_example :
    IsConserved
      (record { accepted_clients = some 7 ∷ []; taken_tasks = []; removed_tasks = [] })
      ready
Logged-IsConserved_example = Logged-IsConserved ready_Logged

Reachable-IsBounded_example : Everywhere IsBounded ready
Reachable-IsBounded_example = Reachable-IsBounded ready_Reachable
