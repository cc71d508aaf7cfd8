-- ===== src/Worker/Rounds.antt =====
-- What one round of a worker's loop makes of a task.
use technopark_highload.Decimal.{to_string}
use technopark_highload.Dict.{put, lookup}
use technopark_highload.Http.Method
use technopark_highload.Http.Method.{
  RequestMethod, get, head, string_to_request_method-request_method_to_string,
}
use technopark_highload.Http.Request.{HttpRequest, parse}
use technopark_highload.Http.Response.{form_response_data, form_response_header}
use technopark_highload.Prelude.{
  ℕ, ◌<◌, ◌≡◌, ◌≢◌, refl, inl, inr, Bool, Bool-cases, true, false, not, ◌&&◌, Option, none, some,
  [], ◌++◌, arith, if◌then◌else◌, length, ◌^◌, Bytes, codes,
}
use technopark_highload.Result.{Error, ok, err, invalid_argument, runtime_error}
use technopark_highload.Tasks.FileCache.{
  FileCache, Reading, to_int-lt, read_file, IsCoherent, read_file-IsCoherent,
}
use technopark_highload.Tasks.Locate.{Location, locate, index_html}
use technopark_highload.Tasks.Process.Outcomes.{
  main_process_basic-refused, main_process_basic-forbidden, main_process_basic-served,
}
use technopark_highload.Tasks.Process.{
  request_headers, return_code, content_length, pre_process, answer,
}
use technopark_highload.Text.{equal, find}
use technopark_highload.Worker.Sending.{
  take_new_task_lem, loop_round-sends, loop_round-throws, post_process-no_length, formed,
  post_process-formed,
}
use technopark_highload.Worker.{Worker, Task, no_task, take_new_task, run_pre_func, loop_round}

module _ (cache : FileCache) (root : Bytes) (files : Bytes → Option Bytes) (now : Bytes)
    (w : Worker) (c : cache.Cache) where
  -- A worker that is stopped while it waits for a task throws out of its thread.
  loop_round-stopped :
      w.state ≡ no_task → loop_round cache root files now w c none ≡ err runtime_error
  unfolding loop_round take_new_task run_pre_func
  loop_round-stopped idle = elim (Bool-cases w.stop) [
    | inl stopped ↦ rw (idle, stopped) refl
    | inr runs ↦ rw (idle, runs) refl
  ]

  -- A task whose header does not parse ends the thread with what the parser threw.
  loop_round-malformed :
      (task : Task) (e : Error)
      → w.state ≡ no_task
      → w.stop ≡ false
      → parse task.input.header ≡ err e
      → loop_round cache root files now w c (some task) ≡ err e
  unfolding loop_round run_pre_func pre_process
  loop_round-malformed task e idle runs refused =
      rw (take_new_task_lem w task idle runs, refused) refl

module _ (cache : FileCache) (root : Bytes) (files : Bytes → Option Bytes) (now : Bytes)
    (w : Worker) (c : cache.Cache) (task : Task) (r : HttpRequest) where
  -- What is sent is a header for the length `n`, and `body` behind it; the worker waits for the
  -- next task, and holds what it has sent.
  abbrev pub Sends : Bytes → ℕ → Bytes → Type 0
  Sends code n body =
      (w' : Worker) × (c' : cache.Cache) × (loop_round cache root files now w c (some task)
        ≡ ok (w', c', (formed now r code n body).response_header ++ body))
      × (w'.state ≡ no_task)
      × (w'.body ≡ body)
      × (w'.stop ≡ w.stop)
      × IsCoherent cache files c'

module _ (cache : FileCache) (root : Bytes) (files : Bytes → Option Bytes) (now : Bytes)
    (w : Worker) (c : cache.Cache) (task : Task) (r : HttpRequest) (idle : w.state ≡ no_task)
    (runs : w.stop ≡ false) (parsed : parse task.input.header ≡ ok r) where
  -- For a running and idle worker and a task whose header parses as a request with another method than GET and
  -- HEAD and without a Content-Length of its own, the response 405 is never built: the round throws
  -- `std::invalid_argument`.
  pub loop_round-refused :
      not (equal (Method.request_method_to_string r.request_method) (codes "GET"))
          && not (equal (Method.request_method_to_string r.request_method) (codes "HEAD"))
        ≡ true
      → lookup content_length r.headers ≡ none
      → loop_round cache root files now w c (some task) ≡ err invalid_argument
  loop_round-refused refused missing =
      loop_round-throws cache root files now w c task r _ idle runs parsed
        (main_process_basic-refused cache root files r w.body c refused) invalid_argument
        (post_process-no_length now r (codes "405 Method Not Allowed") w.body missing)

  -- A URL with `/../`, whatever it names: a header for 403, and the body that the worker holds.
  pub loop_round-forbidden :
      (i : ℕ)
      → not (equal (Method.request_method_to_string r.request_method) (codes "GET"))
          && not (equal (Method.request_method_to_string r.request_method) (codes "HEAD"))
        ≡ false
      → r.http_version ≢ []
      → find (codes "/../") r.url ≡ some i
      → IsCoherent cache files c
      → Sends cache root files now w c task r (codes "403 Forbidden") 0 w.body
  unfolding form_response_data form_response_header to_string
  loop_round-forbidden i allowed versioned found coherent = (
    _,
    _,
    loop_round-sends cache root files now w c task r _ idle runs parsed
        (main_process_basic-forbidden cache root files r w.body c i allowed found)
        (formed now r (codes "403 Forbidden") 0 w.body)
        (post_process-formed now r (codes "403 Forbidden") w.body 0 versioned (omega arith)),
    refl,
    refl,
    refl,
    coherent,
  )

  module _ (l : Location) (versioned : r.http_version ≢ [])
      (clean : find (codes "/../") r.url ≡ none) (place : locate root r.url ≡ ok l)
      (coherent : IsCoherent cache files c) where
    abbrev pub reading_of : Bool → Reading cache
    reading_of b = read_file cache files c (l.path ++ l.filename) w.body b

    -- from what `ReadFile` returns to what is sent
    pub loop_round-reads :
        (b : Bool) (code : Bytes) (n : ℕ) (body : Bytes)
        → not (equal (Method.request_method_to_string r.request_method) (codes "GET"))
            && not (equal (Method.request_method_to_string r.request_method) (codes "HEAD"))
          ≡ false
        → equal (Method.request_method_to_string r.request_method) (codes "GET") ≡ b
        → answer cache l.filename (reading_of b).amount (request_headers r)
          ≡ put content_length (to_string n) (put return_code code (request_headers r))
        → (reading_of b).body ≡ body
        → n < 2 ^ 31
        → Sends cache root files now w c task r code n body
    unfolding form_response_data form_response_header
    loop_round-reads b code n body allowed method answered read small =
        let served = main_process_basic-served cache root files r w.body c l allowed clean place in
        let posted = post_process-formed now r code body n versioned small in
        (
          _,
          _,
          loop_round-sends cache root files now w c task r _ idle runs parsed served
              (formed now r code n body) (rw (method, answered, read) posted),
          refl,
          rw method read,
          refl,
          rw method (read_file-IsCoherent cache files c (l.path ++ l.filename) w.body b coherent).2,
        )

    -- A running and idle worker, a coherent cache, and a task whose header parses as a GET with a version and a
    -- URL without `/../`, of a file that is there and shorter than 2 ^ 31 bytes: what is sent is a
    -- header for 200 and the file's length with the file's content behind it, whether it was cached
    -- or not. The worker is idle again and the cache coherent.
    pub loop_round-get :
        (content : Bytes)
        → r.request_method ≡ get
        → files (l.path ++ l.filename) ≡ some content
        → length content < 2 ^ 31
        → Sends cache root files now w c task r (codes "200 OK") (length content) content
    unfolding answer Method.request_method_to_string equal
    loop_round-get content method present small =
        let read = read_file-IsCoherent cache files c (l.path ++ l.filename) w.body true coherent in
        loop_round-reads true (codes "200 OK") (length content) content (rw method refl)
          (rw method refl) (rw (read.0, present, to_int-lt (length content) small) refl)
          (rw (read.1, present) refl) small

    -- A running and idle worker, a coherent cache, and a task whose header parses as a HEAD with a version and a
    -- URL without `/../`, of a file that is there and shorter than 2 ^ 31 bytes: what is sent is a
    -- header for 200 and the file's length, and behind it not nothing, but the body that the worker
    -- still holds from its task before. The worker is idle again and the cache coherent.
    loop_round-head :
        (content : Bytes)
        → r.request_method ≡ head
        → files (l.path ++ l.filename) ≡ some content
        → length content < 2 ^ 31
        → Sends cache root files now w c task r (codes "200 OK") (length content) w.body
    unfolding answer Method.request_method_to_string equal
    loop_round-head content method present small =
        let read =
          read_file-IsCoherent cache files c (l.path ++ l.filename) w.body false coherent in
        loop_round-reads false (codes "200 OK") (length content) w.body (rw method refl)
          (rw method refl) (rw (read.0, present, to_int-lt (length content) small) refl) read.1
          small

    -- A running and idle worker, a coherent cache, and a task whose header parses as a GET with a version and a
    -- URL without `/../`, of a file that is not there: what is sent is a header for the length 0, with
    -- 403 for index.html and 404 else, and behind it the body that the worker still holds from its
    -- task before. The worker is idle again and the cache coherent.
    loop_round-absent :
        r.request_method ≡ get
        → files (l.path ++ l.filename) ≡ none
        → Sends cache root files now w c task r
            (if equal l.filename index_html then codes "403 Forbidden" else codes "404 Not_Found")
            0
            w.body
    unfolding answer Method.request_method_to_string equal to_string
    loop_round-absent method missing =
        let read = read_file-IsCoherent cache files c (l.path ++ l.filename) w.body true coherent in
        loop_round-reads true _ 0 w.body (rw method refl) (rw method refl)
          (rw (read.0, missing) refl) (rw (read.1, missing) refl) (omega arith)
