-- ===== src/Tests/Master.antt =====
-- A server that serves nobody: its worker does not get to the one complete task before `Stop` ends.
use technopark_highload.Client
use technopark_highload.Client.{Connection, HttpClient, new_client}
use technopark_highload.Dict.{lookup, put, insert, less, at}
use technopark_highload.Http.Method
use technopark_highload.Http.Request.{
  parse, parse_target, parse_version, parse_headers, get_content_length,
}
use technopark_highload.Master.Drained.{stopped_drained}
use technopark_highload.Listener.{new_listener, start_listener, stop_listener}
use technopark_highload.Master.{
  Master, at_rest, create_listeners, create_workers, new_master, start, start_builder,
  start_controller, stop_builder, stop_controller, call_stop, stop_step, Step, accepted, created,
  fired, started, stop_called, stopping, Reachable, made, next,
}
use technopark_highload.Pipeline.{
  same_sd, Pipeline, accept_client, create_task, move_task, receive_client, received, pass_on,
  Arrival, find_task, erase, emplace, free_event,
}
use technopark_highload.Prelude.Int.{pos}
use technopark_highload.Prelude.{ℕ, ◌≡◌, refl, ◌⊎◌, true, false, some, List, [], ◌∷◌, Bytes, codes}
use technopark_highload.Result.{Result, ok, err, runtime_error, undefined_behaviour}
use technopark_highload.Socket.Open.{Socket}
use technopark_highload.Socket.Receive.{bytes, recv_vector}
use technopark_highload.Text.{
  equal, starts_with, find, find_from, find_char, substr, scan, scan_from,
}
use technopark_highload.Worker
use technopark_highload.Worker.{Worker, Task, new_task, new_worker, stopped_worker}

abbrev listen : ℕ → Result Socket
listen port = ok (record { sd = some 3; port = port; queue_size = 5 })

abbrev ports : List (Bytes × ℕ)
ports = (codes "external", 80) ∷ []

abbrev peer : Connection
peer = record { sd = 7; port = 80 }

abbrev request : Arrival
request = record { first = bytes (codes "GET /a HTTP/1.0\r\n\r\n"); count = pos 0; more = [] }

-- behind `Stop`, which begins when the one request has been read
abbrev left : Pipeline
left = record {
  unprocessed_clients = [];
  have_no_data = [];
  events = [];
  have_data =
      new_task (record {
        header = codes "GET /a HTTP/1.0\r\n";
        body = [];
        socket = some peer;
        received_header = true;
        content_length = 0;
      })
      ∷ [];
}

abbrev stopped : Master
unfolding new_worker
stopped = record {
  pipeline = left;
  listeners =
      record { socket = record { sd = some 3; port = 80; queue_size = 5 }; stop = true } ∷ [];
  builder_stop = true;
  controller_stop = true;
  workers = new_worker ∷ [];
  stop = true;
  stop_at = at_rest;
}

stopped-Reachable : Reachable listen ports 1 stopped
unfolding new_master create_listeners new_listener create_workers equal start start_builder
    start_controller stop_builder stop_controller Worker.start start_listener accept_client
    create_task emplace find_task same_sd move_task received pass_on erase free_event receive_client
    Client.recv_header_async recv_vector Client.parse_buffer Client.before_nul
    Client.find_header_end Client.split_async Client.split_message Client.recv_body_async find
    starts_with new_client parse parse_target parse_version parse_headers
    Method.string_to_request_method insert less lookup put at find_from find_char substr scan_from
    scan get_content_length call_stop stop_step stopped_worker stop_listener new_worker
stopped-Reachable =
    let m0 : Reachable listen ports 1 _ = made refl in
    let m1 = next (next m0 (started refl)) (accepted refl (some peer)) in
    let m2 = next m1 (created refl (new_client (some peer)) [] refl refl) in
    let m3 = next m2 (fired refl (some 7) false request refl) in
    let m4 = next (next (next m3 (stop_called refl)) (stopping refl)) (stopping refl) in
    let m5 = next (next (next m4 (stopping refl)) (stopping refl)) (stopping refl) in
    next (next m5 (stopping refl)) (stopping refl)

stopped_drained_example :
    (left.unprocessed_clients ≡ [])
    × (left.have_no_data ≡ [])
    × (left.events ≡ [])
    × ((m' : Master) → Step stopped m' → (m'.stop ≡ false) ⊎ (m'.pipeline ≡ left))
unfolding stopped
stopped_drained_example = stopped_drained stopped-Reachable refl refl

-- No port named `external`, and no workers.
new_master_no_port : new_master listen ((codes "internal", 80) ∷ []) 1 ≡ err runtime_error
unfolding new_master equal
new_master_no_port = refl

new_master_no_workers : new_master listen ports 0 ≡ err undefined_behaviour
unfolding new_master equal create_listeners new_listener create_workers
new_master_no_workers = refl
