-- ===== src/Http/ResponseReader/RoundTrip.antt =====
-- What `HttpResponseReader` finds in a response that `HttpResponse` has built.
use technopark_highload.Decimal.RoundTrip.{to_string-AllDigits, to_string-ne-nil, Lacks-AllDigits}
use technopark_highload.Decimal.{to_string, stoi}
use technopark_highload.Dict.{Dict, less, lookup, put}
use technopark_highload.Http.ContentType.{ContentType, undef, get_content_type, content_type_name}
use technopark_highload.Http.Headers.{crlf, is_empty, is_empty_ne, print_headers-render_headers}
use technopark_highload.Http.Method.{RequestMethod}
use technopark_highload.Http.Request.RoundTrip.{render_headers, AreHeaders}
use technopark_highload.Http.Response.{
  HttpResponse, create, initial, response_headers, form_response_header, form_response_data,
}
use technopark_highload.Http.Response.Printed.{connection_of, length_of, response_headers_lem}
use technopark_highload.Http.ResponseReader.Headers.{put_all, extract_headers-render}
use technopark_highload.Http.ResponseReader.{extract_headers}
use technopark_highload.Prelude.Int.{ℤ, to_size}
use technopark_highload.Prelude.{
  ℕ, ◌≡◌, ◌≢◌, refl, ap, ◌∙◌, Bool, true, false, ◌&&◌, some, [], ◌∷◌, ◌++◌, arith, append_assoc,
  if◌then◌else◌, length, All, All-append, Lacks, Bytes, codes,
}
use technopark_highload.Result.{ok}
use technopark_highload.Text.{equal}

-- A value that can stand on a line of its own.
abbrev IsPrintable : Bytes → Type 0
IsPrintable v = Lacks 13 v × (v ≢ [])

content_type_name-IsPrintable : (t : ContentType) → IsPrintable (content_type_name t)
unfolding content_type_name
content_type_name-IsPrintable undef = (omega arith, λ e. cc)
content_type_name-IsPrintable _ = (omega arith, λ e. cc)

to_string-IsPrintable : (n : ℕ) → IsPrintable (to_string n)
to_string-IsPrintable n =
    (Lacks-AllDigits 13 (to_string n) (λ e. cc) (to_string-AllDigits n), to_string-ne-nil n)

connection-IsPrintable : (b : Bool) → IsPrintable (if b then codes "Keep-Alive" else codes "close")
connection-IsPrintable true = (omega arith, λ e. cc)
connection-IsPrintable false = (omega arith, λ e. cc)

-- five headers with these values
abbrev headers_of : Bytes → Bytes → Bytes → Bytes → Dict
headers_of connection size type now =
    (codes "Connection", connection)
    ∷ (codes "Content-Length", size)
    ∷ (codes "Content-type", type)
    ∷ (codes "Date", now)
    ∷ (codes "Server", codes "My cool async server lol")
    ∷ []

record IsReadable (hs : Dict) : Type 0 where
  lines : AreHeaders hs
  no_empty : All (λ h. h.1 ≢ []) hs
  same : put_all hs [] ≡ hs

headers_of-IsReadable :
    (connection size type now : Bytes)
    → IsPrintable connection
    → IsPrintable size
    → IsPrintable type
    → IsPrintable now
    → IsReadable (headers_of connection size type now)
unfolding put equal less
headers_of-IsReadable connection size type now c s t n = record {
  lines = (
    (omega arith, c.0),
    ((omega arith, s.0), ((omega arith, t.0), ((omega arith, n.0), (omega arith, tt)))),
  );
  no_empty = (c.1, (s.1, (t.1, (n.1, (λ e. cc, tt)))));
  same = refl;
}

response_headers-IsReadable :
    (now : Bytes) (r : HttpResponse)
    → r.headers ≡ []
    → IsPrintable now
    → IsReadable (response_headers now r)
response_headers-IsReadable now r e n = rw (response_headers_lem now r e) (
    headers_of-IsReadable (connection_of r) (to_string (length_of r))
      (content_type_name (get_content_type r.url)) now
      (connection-IsPrintable (equal r.http_version (codes "1.0") && r.keep_alive))
      (to_string-IsPrintable (length_of r)) (content_type_name-IsPrintable (get_content_type r.url))
      n)

abbrev formed : Bytes → HttpResponse → HttpResponse
formed now r = form_response_data (form_response_header now r)

abbrev status_line : HttpResponse → Bytes
status_line r = codes "HTTP/" ++ (r.http_version ++ (codes " " ++ r.return_code))

formed-render :
    (now : Bytes) (r : HttpResponse)
    → r.headers ≡ []
    → IsPrintable now
    → (formed now r).response
      ≡ status_line r ++ (crlf ++ render_headers (response_headers now r) (crlf ++ r.response_body))
unfolding form_response_data form_response_header
formed-render now r e n =
    let readable = response_headers-IsReadable now r e n in
    let printed =
      print_headers-render_headers (response_headers now r) (crlf ++ r.response_body)
        readable.no_empty in
    simp (append_assoc, printed)

status_line-Lacks :
    (r : HttpResponse) → Lacks 13 r.http_version → Lacks 13 r.return_code → Lacks 13 (status_line r)
status_line-Lacks r version code =
    All-append (λ c. c ≢ 13) (codes "HTTP/") (r.http_version ++ (codes " " ++ r.return_code))
      (omega arith)
      (All-append (λ c. c ≢ 13) r.http_version (codes " " ++ r.return_code) version
        (omega arith, code))

-- The header of a response alone gives back the headers that were set.
pub extract_headers-form_response_header :
    (now : Bytes) (r : HttpResponse)
    → r.headers ≡ []
    → Lacks 13 r.http_version
    → Lacks 13 r.return_code
    → Lacks 13 now
    → now ≢ []
    → extract_headers (form_response_header now r).response_header ≡ ok (response_headers now r)
unfolding form_response_header
extract_headers-form_response_header now r e version code clean dated =
    let readable = response_headers-IsReadable now r e (clean, dated) in
    let printed = print_headers-render_headers (response_headers now r) crlf readable.no_empty in
    let split : (form_response_header now r).response_header
        ≡ status_line r ++ (crlf ++ render_headers (response_headers now r) crlf) =
      simp (append_assoc, printed) in
    let read =
      extract_headers-render (status_line r) crlf (response_headers now r)
        (status_line-Lacks r version code) readable.lines (omega arith) in
    rw split (read ∙ ap ok readable.same)

-- Of a response of version 1 and up the reader extracts exactly the headers that were set, if no
-- part of it holds a delimiter. Among them, Content-Length is the size of the body, or the given
-- length for an empty body.
pub extract_headers-create :
    (now version : Bytes) (method : RequestMethod) (url return_code : Bytes) (keep_alive : Bool)
    (content_length body : Bytes) (n : ℤ)
    → version ≢ []
    → stoi content_length ≡ ok n
    → Lacks 13 version
    → Lacks 13 return_code
    → Lacks 13 now
    → now ≢ []
    → Lacks b':' body
    → (r : HttpResponse) × (create now version method url return_code keep_alive content_length body
        ≡ ok r)
      × (extract_headers r.response ≡ ok r.headers)
      × (lookup (codes "Content-Length") r.headers
          ≡ some (to_string (if is_empty body then to_size n else length body)))
unfolding create
extract_headers-create now version method url return_code keep_alive content_length body n versioned
      number clean_version clean_code clean_now dated none =
    let start = initial version url return_code keep_alive (to_size n) body in
    let readable = response_headers-IsReadable now start refl (clean_now, dated) in
    let clean_line = status_line-Lacks start clean_version clean_code in
    let read =
      extract_headers-render (status_line start) (crlf ++ body) (response_headers now start)
        clean_line readable.lines (omega arith, (omega arith, none)) in
    let numbered = is_empty_ne version versioned in
    (
      formed now start,
      ground arith,
      rw (formed-render now start refl (clean_now, dated)) (read ∙ ap ok readable.same),
      rw (response_headers_lem now start refl) (unfold lookup equal in refl),
    )
