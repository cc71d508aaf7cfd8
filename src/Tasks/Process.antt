-- ===== src/Tasks/Process.antt =====
-- `PreProcess`, `MainProcessBasic` and `PostProcess`. The vector that the worker shares with them is
-- a value that goes in and comes out: `PreProcess` only overwrites its own pointer to it. The moves
-- between the input and the output client are made by the worker.
pub mod Outcomes
pub mod Outside
use technopark_highload.Decimal.{to_string}
use technopark_highload.Dict.{Dict, index, put}
use technopark_highload.Http.Method
use technopark_highload.Http.Request.{HttpRequest, parse}
use technopark_highload.Http.Response
use technopark_highload.Http.Response.{HttpResponse}
use technopark_highload.Prelude.{
  ℕ, zero, suc, ◌+◌, Bool, true, false, not, ◌&&◌, Option, none, some, [], ◌∷◌, ◌++◌, if◌then◌else◌,
  Bytes, codes,
}
use technopark_highload.Prelude.Int.{ℤ, pos, negsuc}
use technopark_highload.Result.{Result, ok, err, ◌>>=◌}
use technopark_highload.Tasks.FileCache.{FileCache, Reading, read_file}
use technopark_highload.Tasks.Locate.{Location, locate, index_html}
use technopark_highload.Text.{equal, find}

abbrev pub return_code : Bytes
return_code = codes "return_code"

abbrev pub content_length : Bytes
content_length = codes "Content-Length"

-- the map of headers that the worker hands on
unfoldable pub request_headers : HttpRequest → Dict
request_headers r = put (codes "http_version") r.http_version (
    put (codes "method") (Method.request_method_to_string r.request_method)
      (put (codes "url") r.url r.headers))

-- `PreProcess`: the worker's headers are replaced
unfoldable pub pre_process : Bytes → Result Dict
pre_process header = do request ← parse header; ok (request_headers request)

module _ (cache : FileCache) where
  open cache use {Cache}

  -- the worker's headers and body, and the cache
  pub record Processed : Type 0 where
    pub headers : Dict
    pub body : Bytes
    pub kept : Cache

  -- the `if`s behind `ReadFile`
  unfoldable pub answer : Bytes → ℤ → Dict → Dict
  answer filename (pos n) headers =
      put content_length (to_string n) (put return_code (codes "200 OK") headers)
  answer filename (negsuc (suc n)) headers =
      put content_length (b'-' ∷ to_string (n + 2)) (put return_code (codes "200 OK") headers)
  answer filename (negsuc zero) headers = put content_length (codes "0") (
      put return_code
        (if equal filename index_html then codes "403 Forbidden" else codes "404 Not_Found")
        headers)

  -- the rest of `MainProcessBasic`, for a URL without `/../`
  unfoldable pub serve_file :
      Bytes → (Bytes → Option Bytes) → Bytes → Bytes → Dict → Bytes → Cache → Result Processed
  serve_file root files url method headers body c = do
    place ← locate root url
    let reading =
        read_file cache files c (place.path ++ place.filename) body (equal method (codes "GET"))
    ok (record {
      headers = answer place.filename reading.amount headers;
      body = reading.body;
      kept = reading.kept;
    })

  -- `MainProcessBasic`; the first use of a key puts it into the map
  unfoldable pub main_process_basic :
      Bytes → (Bytes → Option Bytes) → Dict → Bytes → Cache → Result Processed
  main_process_basic root files headers body c =
      let (method, headers') = index (codes "method") headers in
      let (url, headers'') = index (codes "url") headers' in
      if not (equal method (codes "GET")) && not (equal method (codes "HEAD"))
      then ok (record {
        headers = put return_code (codes "405 Method Not Allowed") headers';
        body = body;
        kept = c;
      })
      else elim (find (codes "/../") url) [
        | some _ ↦ ok (record {
          headers =
              put content_length (codes "0") (put return_code (codes "403 Forbidden") headers'');
          body = body;
          kept = c;
        })
        | none ↦ serve_file root files url method headers'' body c
      ]

-- `PostProcess` up to the call of `Send`, which both branches make alike; the values of the map
unfoldable pub post_process : Bytes → Dict → Bytes → Result HttpResponse
post_process now headers body =
    let value = λ (k : Bytes). (index k headers).0 in
    Response.create now (value (codes "http_version"))
      (Method.string_to_request_method (value (codes "method"))) (value (codes "url"))
      (value return_code) (equal (value (codes "Connection")) (codes "Keep-Alive"))
      (value content_length) body
