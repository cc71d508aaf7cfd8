-- ===== src/Exchange/Served.antt =====
-- From a GET on the wire to the file in the response.
use technopark_highload.Client.{Connection}
use technopark_highload.Decimal.{to_string}
use technopark_highload.Dict.{Dict, lookup}
use technopark_highload.Exchange.Arriving.{
  IsWire, arrived, parsed_request, parse-arrived, receive_client-render,
}
use technopark_highload.Http.Headers.{is_empty}
use technopark_highload.Http.Method.{get}
use technopark_highload.Http.Request.{HttpRequest}
use technopark_highload.Http.Request.RoundTrip.{render}
use technopark_highload.Http.Response.Printed.{response_headers_lem}
use technopark_highload.Http.Response.{initial, response_headers, form_response_data}
use technopark_highload.Http.ResponseReader.RoundTrip.{extract_headers-form_response_header}
use technopark_highload.Http.ResponseReader.{extract_headers}
use technopark_highload.Exchange.Passing.{delivered, delivered-one_more}
use technopark_highload.Pipeline.{Pipeline, find_task}
use technopark_highload.Prelude.Int.{ℤ}
use technopark_highload.Prelude.{
  ◌^◌, ◌<◌, ◌≡◌, ◌≢◌, refl, ap, false, Option, none, some, List, [], ◌∷◌, ◌++◌, arith,
  if◌then◌else◌, length, Lacks, Bytes, codes,
}
use technopark_highload.Result.{ok, err, out_of_range}
use technopark_highload.Socket.Receive.{Answer, bytes}
use technopark_highload.Tasks.FileCache.{FileCache, IsCoherent}
use technopark_highload.Tasks.Locate.Root.{stem, query_text, folder_of, locate-under_root}
use technopark_highload.Text.Search.{line_end}
use technopark_highload.Text.{equal, find}
use technopark_highload.Worker.Rounds.{loop_round-get}
use technopark_highload.Worker.Sending.{formed, keeps_alive}
use technopark_highload.Worker.{Worker, Task, new_task, no_task, loop_round}

length_or :
    (content : Bytes)
    → (if is_empty content then length content else length content) ≡ length content
length_or content = ground arith

-- The reader finds the given length in a header for 200.
extract-length :
    (now : Bytes) (r : HttpRequest) (content : Bytes)
    → Lacks 13 r.http_version
    → Lacks 13 now
    → now ≢ []
    → (headers : Dict) × (extract_headers
          (formed now r (codes "200 OK") (length content) content).response_header
        ≡ ok headers)
      × (lookup (codes "Content-Length") headers ≡ some (to_string (length content)))
unfolding form_response_data
extract-length now r content version clean dated =
    let code = codes "200 OK" in
    let start =
      initial r.http_version r.url code (keeps_alive now r code content) (length content) content in
    (
      response_headers now start,
      extract_headers-form_response_header now start refl version (omega arith) clean dated,
      rw (response_headers_lem now start refl)
          (unfold lookup equal in (ap (λ n. some (to_string n)) (length_or content))),
    )

module _ (cache : FileCache) (root : Bytes) (files : Bytes → Option Bytes) (now : Bytes)
    (w : Worker) (c : cache.Cache) (peer : Connection) (count : ℤ) (more : List Answer) where
  -- the URL `/base.ext` or `/folder/base.ext`, with or without a query
  abbrev pub url_of : Option Bytes → Bytes → Bytes → Option Bytes → Bytes
  url_of folder base ext query = stem (folder_of folder) base ext ++ query_text query

  -- A client is accepted, with a descriptor under which no task waits, where no other client waits
  -- for the builder, and gets a task; its first input is a well-formed GET of `/base.ext` or
  -- `/folder/base.ext`, with or without a query, in one piece of at most 256 bytes with no byte 0,
  -- with a version and without a Content-Length. Then the event passes the task to the workers,
  -- behind the tasks that wait for them, and leaves the rest of the pipeline as it was. If the
  -- printed time is not empty and in one line, the URL holds no `/../`, and the file of that name
  -- under the document root is there and shorter than 2 ^ 31 bytes, the round of a running and
  -- idle worker with a coherent cache that takes this task sends a header and, behind it, the
  -- content of the file. Of the header `HttpResponseReader` extracts the length of the content as
  -- Content-Length. The worker is idle again, and the cache coherent.
  pub receive-loop_round_get :
      (folder : Option Bytes) (base ext version content body : Bytes) (query : Option Bytes)
      (hs : List (Bytes × Bytes)) (p : Pipeline)
      → IsWire get (url_of folder base ext query) version hs body
      → version ≢ []
      → Lacks b'?' (stem (folder_of folder) base ext)
      → Lacks b'/' base
      → Lacks b'.' ext
      → find (codes "/../") (url_of folder base ext query) ≡ none
      → files (root ++ stem (folder_of folder) base ext) ≡ some content
      → length content < 2 ^ 31
      → w.state ≡ no_task
      → w.stop ≡ false
      → IsCoherent cache files c
      → Lacks 13 now
      → now ≢ []
      → p.unprocessed_clients ≡ []
      → find_task (some peer.sd) p.have_no_data ≡ err out_of_range
      → (task : Task) × (delivered peer
            (record {
              first =
                  bytes (render get (url_of folder base ext query) version hs (line_end ++ body));
              count = count;
              more = more;
            })
            p
          ≡ ok (record p { have_data = p.have_data ++ task ∷ [] }))
        × (w' : Worker) × (c' : cache.Cache) × (header : Bytes) × (loop_round cache root files now w
              c
              (some task)
            ≡ ok (w', c', header ++ content))
        × (headers : Dict) × (extract_headers header ≡ ok headers)
        × (lookup (codes "Content-Length") headers ≡ some (to_string (length content)))
        × (w'.state ≡ no_task)
        × IsCoherent cache files c'
  receive-loop_round_get folder base ext version content body query hs p wire versioned clean slash
        dot inside present small idle runs coherent clean_now dated none_wait fresh =
      let (l, place, path) = locate-under_root root folder base ext query clean slash dot in
      let client = arrived wire peer count more in
      let r = parsed_request wire peer count more in
      let (w', c', round, idle', _, _, coherent') =
        loop_round-get cache root files now w c (new_task client) r idle runs
          (parse-arrived wire peer count more) l versioned inside place coherent content refl
          (rw path present) small in
      let (headers, extracted, sized) =
        extract-length now r content wire.version_clean clean_now dated in
      (
        new_task client,
        delivered-one_more peer _ client p (receive_client-render wire peer count more) none_wait
            fresh,
        w',
        c',
        _,
        round,
        headers,
        extracted,
        sized,
        idle',
        coherent',
      )
