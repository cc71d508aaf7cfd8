-- ===== src/Tests/Worker.antt =====
-- Rounds of a worker at concrete tasks.
use technopark_highload.Client.{new_client}
use technopark_highload.Dict.{lookup, put, insert, less}
use technopark_highload.Http.Method
use technopark_highload.Http.Method.{RequestMethod, get, head, post}
use technopark_highload.Http.Request.{
  HttpRequest, parse, parse_target, parse_version, parse_headers,
}
use technopark_highload.Prelude.{◌≡◌, refl, false, none, some, [], Bytes, codes}
use technopark_highload.Result.{ok, err, invalid_argument}
use technopark_highload.Tests.Site.{unbounded, files}
use technopark_highload.Text.{
  equal, starts_with, find, find_from, find_char, substr, scan, scan_from,
}
use technopark_highload.Worker.Rounds.{loop_round-refused}
use technopark_highload.Worker.{
  Worker, Task, new_task, new_worker, loop_round, stop_worker, stopped_worker,
}

abbrev now : Bytes
now = codes "2021-01-01 00:00:00"

abbrev idle : Worker
idle = record new_worker { body = codes "secret"; stop = false }

abbrev task_of : Bytes → Task
task_of header = new_task (record (new_client none) { header = header })

abbrev request_of : RequestMethod → Bytes → HttpRequest
request_of method url = record {
  request_method = method;
  url = url;
  http_version = codes "1.1";
  headers = [];
}

loop_round-refused_example :
    loop_round unbounded
      (codes "/srv")
      files
      now
      idle
      []
      (some (task_of (codes "POST /a.js HTTP/1.1\r\n")))
    ≡ err invalid_argument
unfolding new_worker new_client parse parse_target parse_version parse_headers
    Method.string_to_request_method Method.request_method_to_string insert less lookup put equal
    find_from find find_char starts_with substr scan_from scan
loop_round-refused_example =
    loop_round-refused unbounded (codes "/srv") files now idle []
      (task_of (codes "POST /a.js HTTP/1.1\r\n")) (request_of post (codes "/a.js")) refl refl refl
      refl refl

-- Else the thread ends behind its round.
stop_worker_between : stop_worker false idle ≡ ok (stopped_worker idle)
unfolding stop_worker new_worker
stop_worker_between = refl
