-- ===== src/Tasks/Process/Outcomes.antt =====
-- What the three functions make of a request that has been parsed.
use technopark_highload.Dict.Laws.{lookup-put}
use technopark_highload.Dict.{Dict, index, put, insert, lookup}
use technopark_highload.Http.Method
use technopark_highload.Http.Method.{
  RequestMethod, get, head, string_to_request_method-request_method_to_string,
}
use technopark_highload.Http.Request.{HttpRequest}
use technopark_highload.Prelude.{
  ℕ, ◌≡◌, true, false, not, ◌&&◌, Option, none, some, [], ◌++◌, arith, Bytes, codes,
}
use technopark_highload.Result.{ok}
use technopark_highload.Tasks.FileCache.{FileCache, read_file}
use technopark_highload.Tasks.Locate.{Location, locate}
use technopark_highload.Tasks.Process.{
  request_headers, return_code, content_length, answer, serve_file, main_process_basic,
}
use technopark_highload.Text.{equal, find}

-- The keys that `PreProcess` sets, and any other.
module _ (r : HttpRequest) where
  pub lookup_method :
      lookup (codes "method") (request_headers r)
      ≡ some (Method.request_method_to_string r.request_method)
  unfolding request_headers equal
  lookup_method = simp lookup-put

  pub lookup_url : lookup (codes "url") (request_headers r) ≡ some r.url
  unfolding request_headers equal
  lookup_url = simp lookup-put

  pub lookup_version : lookup (codes "http_version") (request_headers r) ≡ some r.http_version
  unfolding request_headers equal
  lookup_version = simp lookup-put

  pub lookup_length : lookup content_length (request_headers r) ≡ lookup content_length r.headers
  unfolding request_headers equal
  lookup_length = simp lookup-put

insert_present : (k v w : Bytes) (m : Dict) → lookup k m ≡ some v → insert k w m ≡ m
unfolding insert
insert_present k v w m e = rw (e, insert)

-- reading a key that is there changes nothing
index_present : (k v : Bytes) (m : Dict) → lookup k m ≡ some v → index k m ≡ (v, m)
unfolding index
index_present k v m e = ground (arith, insert_present k v [] m e)

module _ (cache : FileCache) (root : Bytes) (files : Bytes → Option Bytes) (r : HttpRequest)
    (body : Bytes) (c : cache.Cache) where
  -- Another method than GET and HEAD: 405, with no length of its own.
  pub main_process_basic-refused :
      not (equal (Method.request_method_to_string r.request_method) (codes "GET"))
          && not (equal (Method.request_method_to_string r.request_method) (codes "HEAD"))
        ≡ true
      → main_process_basic cache root files (request_headers r) body c
        ≡ ok (record {
          headers = put return_code (codes "405 Method Not Allowed") (request_headers r);
          body = body;
          kept = c;
        })
  unfolding main_process_basic
  main_process_basic-refused refused =
      let method = index_present (codes "method") _ (request_headers r) (lookup_method r) in
      ground arith

  -- `/../` in the URL: 403 and the length 0.
  pub main_process_basic-forbidden :
      (i : ℕ)
      → not (equal (Method.request_method_to_string r.request_method) (codes "GET"))
          && not (equal (Method.request_method_to_string r.request_method) (codes "HEAD"))
        ≡ false
      → find (codes "/../") r.url ≡ some i
      → main_process_basic cache root files (request_headers r) body c
        ≡ ok (record {
          headers =
              put content_length
                (codes "0")
                (put return_code (codes "403 Forbidden") (request_headers r));
          body = body;
          kept = c;
        })
  unfolding main_process_basic
  main_process_basic-forbidden i allowed found =
      let method = index_present (codes "method") _ (request_headers r) (lookup_method r) in
      let url = index_present (codes "url") _ (request_headers r) (lookup_url r) in ground arith

  -- Any other URL: what `ReadFile` makes of the file that the URL names.
  pub main_process_basic-served :
      (l : Location)
      → not (equal (Method.request_method_to_string r.request_method) (codes "GET"))
          && not (equal (Method.request_method_to_string r.request_method) (codes "HEAD"))
        ≡ false
      → find (codes "/../") r.url ≡ none
      → locate root r.url ≡ ok l
      → main_process_basic cache root files (request_headers r) body c ≡ (
          let reading =
            read_file cache files c
              (l.path ++ l.filename)
              body
              (equal (Method.request_method_to_string r.request_method) (codes "GET")) in
          ok (record {
            headers = answer cache l.filename reading.amount (request_headers r);
            body = reading.body;
            kept = reading.kept;
          }))
  unfolding main_process_basic serve_file
  main_process_basic-served l allowed clean place =
      let method = index_present (codes "method") _ (request_headers r) (lookup_method r) in
      let url = index_present (codes "url") _ (request_headers r) (lookup_url r) in ground arith
