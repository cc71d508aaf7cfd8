-- ===== src/Worker/Sending.antt =====
-- What a round sends behind its main function, and what `PostProcess` builds.
use technopark_highload.Decimal.RoundTrip.{stoi-to_string}
use technopark_highload.Decimal.{to_string, stoi}
use technopark_highload.Dict.Laws.{lookup-put}
use technopark_highload.Dict.{Dict, index, put, lookup, or_empty}
use technopark_highload.Http.Headers.{is_empty_ne}
use technopark_highload.Http.Method.{string_to_request_method-request_method_to_string}
use technopark_highload.Http.Request.{HttpRequest, parse}
use technopark_highload.Http.Response.{
  HttpResponse, create, initial, form_response_data, form_response_header,
}
use technopark_highload.Prelude.{
  ℕ, ◌<◌, ◌≡◌, ◌≢◌, refl, ◌∙◌, Bool, false, Option, none, some, [], arith, ◌^◌, Bytes, codes,
}
use technopark_highload.Result.{Error, ok, err, invalid_argument}
use technopark_highload.Tasks.FileCache.{FileCache}
use technopark_highload.Tasks.Process.{
  request_headers, return_code, content_length, pre_process, Processed, main_process_basic,
  post_process,
}
use technopark_highload.Text.{equal}
use technopark_highload.Worker.{
  Worker, Task, no_task, task_received, take_new_task, run_pre_func, run_main_func, run_post_func,
  loop_round, moved,
}

-- what `index` reads of a key that is there
value_present : (k v : Bytes) (m : Dict) → lookup k m ≡ some v → (index k m).0 ≡ v
unfolding index
value_present k v m e = rw e refl

-- A running and idle worker takes the task that comes.
pub take_new_task_lem :
    (w : Worker) (task : Task)
    → w.state ≡ no_task
    → w.stop ≡ false
    → take_new_task w (some task) ≡ ok (record w { current_task = task; state = task_received })
unfolding take_new_task
take_new_task_lem w task idle runs = ground arith

module _ (cache : FileCache) (root : Bytes) (files : Bytes → Option Bytes) (now : Bytes)
    (w : Worker) (c : cache.Cache) where
  -- the worker behind a round
  abbrev pub finished : Task → Dict → Bytes → Worker
  finished task headers body = record w {
    current_task = record {
      input = moved task.input;
      output = record task.input { socket = none };
    };
    state = no_task;
    headers = headers;
    body = body;
  }

  module _ (task : Task) (r : HttpRequest) (done : Processed cache) (idle : w.state ≡ no_task)
      (runs : w.stop ≡ false) (parsed : parse task.input.header ≡ ok r)
      (processed : main_process_basic cache root files (request_headers r) w.body c ≡ ok done) where
    pub loop_round-sends :
        (response : HttpResponse)
        → post_process now done.headers done.body ≡ ok response
        → loop_round cache root files now w c (some task)
          ≡ ok (finished task done.headers done.body, done.kept, response.response)
    unfolding loop_round run_pre_func pre_process run_main_func run_post_func
    loop_round-sends response sent =
        rw (take_new_task_lem w task idle runs, parsed, processed, sent) refl

    pub loop_round-throws :
        (e : Error)
        → post_process now done.headers done.body ≡ err e
        → loop_round cache root files now w c (some task) ≡ err e
    unfolding loop_round run_pre_func pre_process run_main_func run_post_func
    loop_round-throws e thrown =
        rw (take_new_task_lem w task idle runs, parsed, processed, thrown) refl

-- `PostProcess` behind the headers of a request, with a return code and maybe a length put in front
module _ (now : Bytes) (r : HttpRequest) (code body : Bytes) where
  pub post_process-no_length :
      lookup content_length r.headers ≡ none
      → post_process now (put return_code code (request_headers r)) body ≡ err invalid_argument
  unfolding post_process index equal request_headers create stoi
  post_process-no_length missing =
      let nothing : lookup content_length (put return_code code (request_headers r)) ≡ none =
        simp (lookup-put, missing) in
      rw nothing refl

  abbrev pub keeps_alive : Bool
  keeps_alive = equal (or_empty (lookup (codes "Connection") r.headers)) (codes "Keep-Alive")

  post_process-sized :
      (n : Bytes)
      → post_process now (put content_length n (put return_code code (request_headers r))) body
        ≡ create now r.http_version r.request_method r.url code keeps_alive n body
  unfolding post_process index equal request_headers
  post_process-sized n = simp (lookup-put, string_to_request_method-request_method_to_string)

-- the response of version 1 and up
abbrev pub formed : Bytes → HttpRequest → Bytes → ℕ → Bytes → HttpResponse
formed now r code n body = form_response_data (
    form_response_header now
      (initial r.http_version r.url code (keeps_alive now r code body) n body))

pub post_process-formed :
    (now : Bytes) (r : HttpRequest) (code body : Bytes) (n : ℕ)
    → r.http_version ≢ []
    → n < 2 ^ 31
    → (post_process now
          (put content_length (to_string n) (put return_code code (request_headers r)))
          body
        ≡ ok (formed now r code n body))
unfolding create
post_process-formed now r code body n versioned small =
    let number = stoi-to_string n in
    let numbered = is_empty_ne r.http_version versioned in
    post_process-sized now r code body (to_string n) ∙ ground arith
