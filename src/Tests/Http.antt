-- ===== src/Tests/Http.antt =====
-- The messages of HTTP: runs, and the theorems at concrete messages.
use technopark_highload.Decimal.{to_string, stoi}
use technopark_highload.Dict.{less, lookup, put, insert}
use technopark_highload.Http.Headers.{is_empty}
use technopark_highload.Http.Method
use technopark_highload.Http.Method.{get, head, options, unknown}
use technopark_highload.Http.Request.Ends.{Ends, parse-Ends}
use technopark_highload.Http.Request.RoundTrip.{render, insert_all, parse-render}
use technopark_highload.Http.Request.Total.{
  BuildsOrRefuses, parse-BuildsOrRefuses, parse_bare_newlines,
}
use technopark_highload.Http.Request.{
  HttpRequest, parse_headers, parse_version, parse_target, parse,
}
use technopark_highload.Http.RequestCreator
use technopark_highload.Http.RequestCreator.Parsed.{parse-create}
use technopark_highload.Http.RequestCreator.Query.{process_query_string_loops}
use technopark_highload.Http.RequestCreator.{HttpRequestCreator, process_query_string}
use technopark_highload.Http.Response
use technopark_highload.Http.Response.{HttpResponse}
use technopark_highload.Http.ResponseReader.RoundTrip.{extract_headers-create}
use technopark_highload.Http.ResponseReader.Status.{get_return_code-last_byte}
use technopark_highload.Http.ResponseReader.{get_return_code, extract_headers}
use technopark_highload.Prelude.Int.{pos, to_size}
use technopark_highload.Prelude.{
  ◌≡◌, refl, true, false, none, some, [], ◌∷◌, ◌++◌, arith, if◌then◌else◌, length, Bytes, codes,
}
use technopark_highload.Result.{ok, err, bad_format, out_of_fuel, undefined_behaviour}
use technopark_highload.Text.Search.{line_end}
use technopark_highload.Text.{
  equal, starts_with, find, find_from, find_char, substr, scan, scan_from,
}

abbrev body : Bytes
body = codes "GET /a.html HTTP/1.1\r\nHost: example.com"

abbrev expected : HttpRequest
expected = record {
  request_method = get;
  url = codes "/a.html";
  http_version = codes "1.1";
  headers = (codes "Host", codes "example.com") ∷ [];
}

parse_run : parse (body ++ line_end) ≡ ok expected
unfolding parse parse_target parse_version parse_headers Method.string_to_request_method insert less
    lookup put equal find_from find find_char starts_with substr scan_from scan
parse_run = refl

parse_refused : parse (codes "FETCH /\r\n") ≡ err bad_format
unfolding parse Method.string_to_request_method equal find_char substr
parse_refused = refl

parse-BuildsOrRefuses_example : BuildsOrRefuses (parse (body ++ line_end))
parse-BuildsOrRefuses_example = parse-BuildsOrRefuses body

parse-render_example :
    parse
      (render get (codes "/a.html") (codes "1.1") ((codes "Host", codes "b") ∷ []) (codes "\r\n"))
    ≡ ok (record {
      request_method = get;
      url = codes "/a.html";
      http_version = codes "1.1";
      headers = insert_all ((codes "Host", codes "b") ∷ []) [];
    })
parse-render_example =
    parse-render get (codes "/a.html") (codes "1.1") (codes "\r\n") ((codes "Host", codes "b") ∷ [])
      (λ e. cc) (λ e. cc) (refl, (refl, (refl, (refl, (refl, (refl, (refl, tt))))))) (omega arith)
      (omega arith) (omega arith)

parse_bare_newlines_example : parse (codes "GET / HTTP/1.0\n") ≡ err undefined_behaviour
unfolding Method.request_method_to_string find starts_with
parse_bare_newlines_example =
    parse_bare_newlines get (codes "/") (codes "HTTP/1.0\n") 1 (λ e. cc) (λ e. cc) (refl, tt)
      (omega arith) refl

parse-create_example :
    (c : HttpRequestCreator) × (RequestCreator.create
        (codes "1.0")
        head
        (codes "/x")
        true
        (codes "a=1")
      ≡ ok c)
    × (parse c.request
        ≡ ok (record {
          request_method = head;
          url = codes "/x";
          http_version = codes "1.0" ++ codes " ";
          headers = c.headers;
        }))
parse-create_example =
    parse-create (codes "1.0") head (codes "/x") true (codes "a=1") (λ e. cc) (λ e. cc) (λ e. cc)
      (refl, (refl, tt)) (omega arith) (omega arith)

parse-Ends_example : Ends (parse (codes "GET /a HTTP/1.1"))
parse-Ends_example = parse-Ends (codes "GET /a HTTP/1.1")

process_query_string_loops_example :
    process_query_string 1000 (codes "/a?b=1") 0 []
    ≡ elim (find_char b'?' (codes "/a?b=1")) [ some _ ↦ err out_of_fuel | none ↦ ok [] ]
process_query_string_loops_example = process_query_string_loops (codes "/a?b=1") [] 999

get_return_code-last_byte_example :
    get_return_code ((codes "HTTP/1.1 " ++ codes "200 OK") ++ codes "\r\n") ≡ ok (codes "200 O")
get_return_code-last_byte_example =
    get_return_code-last_byte (codes "HTTP/1.1 ") b'2' b'0' b'0' (codes " O") b'K' (codes "\n")
      (omega arith) refl (refl, (refl, (refl, tt)))

extract_headers-create_example :
    (r : HttpResponse) × (Response.create
        (codes "2021-01-01 00:00:00")
        (codes "1.1")
        get
        (codes "/a.js")
        (codes "200 OK")
        false
        (codes "5")
        (codes "hello")
      ≡ ok r)
    × (extract_headers r.response ≡ ok r.headers)
    × (lookup (codes "Content-Length") r.headers
        ≡ some (
            to_string
              (if is_empty (codes "hello") then to_size (pos 5) else length (codes "hello"))))
unfolding stoi
extract_headers-create_example =
    extract_headers-create (codes "2021-01-01 00:00:00") (codes "1.1") get (codes "/a.js")
      (codes "200 OK") false (codes "5") (codes "hello") (pos 5) (λ e. cc) refl (omega arith)
      (omega arith) (omega arith) (λ e. cc) (omega arith)
