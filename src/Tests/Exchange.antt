-- ===== src/Tests/Exchange.antt =====
-- A GET of the site's one file, from the wire to the response.
use technopark_highload.Client.{Connection, new_client}
use technopark_highload.Decimal.{to_string}
use technopark_highload.Dict.{Dict, lookup, insert, less, put}
use technopark_highload.Exchange.Arriving.{IsWire}
use technopark_highload.Exchange.Served.{receive-loop_round_get}
use technopark_highload.Http.Method
use technopark_highload.Http.Method.{get}
use technopark_highload.Http.Request.RoundTrip.{render}
use technopark_highload.Http.ResponseReader.{extract_headers}
use technopark_highload.Exchange.Passing.{delivered}
use technopark_highload.Pipeline.{Pipeline, find_task, same_sd}
use technopark_highload.Prelude.Int.{pos}
use technopark_highload.Prelude.{
  false, ◌≡◌, refl, none, some, List, [], ◌∷◌, ◌++◌, arith, length, Bytes, codes,
}
use technopark_highload.Result.{ok}
use technopark_highload.Socket.Receive.{bytes}
use technopark_highload.Tasks.FileCache.{IsCoherent}
use technopark_highload.Tests.Site.{unbounded, files, script, empty-IsCoherent}
use technopark_highload.Text.Search.{line_end}
use technopark_highload.Text.{equal, find, starts_with}
use technopark_highload.Worker.{Worker, new_worker, Task, new_task, no_task, loop_round}

abbrev peer : Connection
peer = record { sd = 7; port = 80 }

abbrev host : List (Bytes × Bytes)
host = (codes "Host", codes "b") ∷ []

script-IsWire : IsWire get (codes "/a.js?v=1") (codes "1.1") host []
unfolding lookup insert less put equal Method.request_method_to_string
script-IsWire = record {
  known = λ e. cc;
  url_ne = λ e. cc;
  url_clean = (refl, (refl, (refl, (refl, (refl, (refl, (refl, (refl, (refl, tt)))))))));
  version_clean = omega arith;
  headers = omega arith;
  lines = omega arith;
  unsized = refl;
  no_nul = omega arith;
  short = omega arith;
}

-- One task waits for its input, and one for a worker.
abbrev busy : Pipeline
busy = record {
  unprocessed_clients = [];
  have_no_data = (some 5, new_task (new_client none)) ∷ [];
  events = some 5 ∷ [];
  have_data = new_task (new_client none) ∷ [];
}

abbrev running : Worker
running = record new_worker { stop = false }

receive-loop_round_get_example :
    (task : Task) × (delivered peer
        (record {
          first = bytes (render get (codes "/a.js?v=1") (codes "1.1") host (line_end ++ []));
          count = pos 0;
          more = [];
        })
        busy
      ≡ ok (record busy { have_data = new_task (new_client none) ∷ task ∷ [] }))
    × (w' : Worker) × (c' : Dict) × (header : Bytes) × (loop_round unbounded
          (codes "/srv")
          files
          (codes "2021")
          running
          []
          (some task)
        ≡ ok (w', c', header ++ script))
    × (headers : Dict) × (extract_headers header ≡ ok headers)
    × (lookup (codes "Content-Length") headers ≡ some (to_string (length script)))
    × (w'.state ≡ no_task)
    × IsCoherent unbounded files c'
unfolding new_worker files equal find starts_with find_task same_sd
receive-loop_round_get_example =
    receive-loop_round_get unbounded (codes "/srv") files (codes "2021") running [] peer (pos 0) []
      none (codes "a") (codes "js") (codes "1.1") script [] (some (codes "v=1")) host busy
      script-IsWire (λ e. cc) (omega arith) (omega arith) (omega arith) refl refl (omega arith) refl
      refl empty-IsCoherent (omega arith) (λ e. cc) refl refl
