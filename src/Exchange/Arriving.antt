-- ===== src/Exchange/Arriving.antt =====
-- A request whose header arrives in one piece: what the controller makes of its client.
use technopark_highload.Client.Header.{recv_header_async_lem}
use technopark_highload.Client.{
  HttpClient, Connection, new_client, before_nul, blank_line, recv_header_async, recv_body_async,
}
use technopark_highload.Dict.{lookup, at}
use technopark_highload.Http.Method.{RequestMethod, unknown, request_method_to_string}
use technopark_highload.Http.Request.RoundTrip.{
  AreHeaders, render, render_headers, insert_all, parse-render,
}
use technopark_highload.Http.Request.{HttpRequest, colon, ends_url, parse, get_content_length}
use technopark_highload.Pipeline.{receive_client}
use technopark_highload.Prelude.Int.{ℤ}
use technopark_highload.Prelude.{
  ℕ, ◌+◌, ◌≤◌, ◌≡◌, ◌≢◌, refl, ap, ◌∙◌, true, false, none, some, List, [], ◌∷◌, ◌++◌, append_assoc,
  arith, length, length-append, take, take-append, take-length_add, drop, drop-length_add, All,
  All-append, Lacks, Bytes, codes,
}
use technopark_highload.Result.{ok}
use technopark_highload.Socket.Receive.{Answer, bytes}
use technopark_highload.Text.Search.{line_end}
use technopark_highload.Text.Laws.{find-append}
use technopark_highload.Text.{shift, starts_with, find}

-- A line without a carriage return is no part of a blank line, if the text goes on behind it.
find-line :
    (a : Bytes) (c : ℕ) (rest : Bytes)
    → Lacks 13 a
    → c ≢ 13
    → find blank_line (a ++ (line_end ++ c ∷ rest))
      ≡ shift (length a + 2) (find blank_line (c ∷ rest))
unfolding find starts_with
find-line [] c rest clean ne = ground arith
find-line (b ∷ a) c rest (nb, clean) ne = ground (arith, find-line a c rest clean ne)

-- Where the blank line stands, with what is in front of it and behind it.
record Divides (s header body : Bytes) : Type 0 where
  index : ℕ
  found : find blank_line s ≡ some index
  front : take index s ++ line_end ≡ header
  behind : drop (index + 4) s ≡ body

Divides-line :
    (a : Bytes) (c : ℕ) (rest header body : Bytes)
    → Lacks 13 a
    → c ≢ 13
    → Divides (c ∷ rest) header body
    → Divides (a ++ (line_end ++ c ∷ rest)) (a ++ (line_end ++ header)) body
Divides-line a c rest header body clean ne d =
    let line = a ++ line_end in
    let size : length a + 2 + d.index ≡ length line + d.index =
      omega (arith, length-append a line_end) in
    let size' : length a + 2 + d.index + 4 ≡ length line + (d.index + 4) =
      omega (arith, length-append a line_end) in
    let split : a ++ (line_end ++ c ∷ rest) ≡ line ++ c ∷ rest = simp append_assoc in
    record {
      index = length a + 2 + d.index;
      found = find-line a c rest clean ne ∙ ap (shift (length a + 2)) d.found;
      front =
          rw (size, split)
            (ap (λ t. t ++ line_end) (take-length_add d.index line (c ∷ rest))
              ∙ append_assoc line (take d.index (c ∷ rest)) line_end
              ∙ ap (λ h. line ++ h) d.front
              ∙ append_assoc a line_end header);
      behind = rw (size', split) (drop-length_add (d.index + 4) line (c ∷ rest) ∙ d.behind);
    }

-- No key holds a carriage return.
abbrev pub AreLines : List (Bytes × Bytes) → Type 0
AreLines = All (λ h. Lacks 13 h.0)

Divides-headers :
    (a : Bytes) (hs : List (Bytes × Bytes)) (body : Bytes)
    → Lacks 13 a
    → AreHeaders hs
    → AreLines hs
    → Divides
        (a ++ (line_end ++ render_headers hs (line_end ++ body)))
        (a ++ (line_end ++ render_headers hs []))
        body
Divides-headers a [] body clean good lines = record {
  index = length a;
  found = find-append 13 (10 ∷ line_end) a body clean;
  front = ap (λ t. t ++ line_end) (take-append a (blank_line ++ body));
  behind = drop-length_add 4 a (blank_line ++ body);
}
Divides-headers a (([], v) ∷ hs) body clean ((_, gv), good) (_, lines) =
    Divides-line a b':' _ _ body clean (omega arith)
      (Divides-headers (colon ++ v) hs body (omega arith, (omega arith, gv)) good lines)
Divides-headers a ((c ∷ k, v) ∷ hs) body clean ((_, gv), good) ((ne, lk), lines) =
    let tail = k ++ (colon ++ v) in
    let tail_clean : Lacks 13 tail =
      All-append (λ b. b ≢ 13) k (colon ++ v) lk (omega arith, (omega arith, gv)) in
    let regroup = λ (x : Bytes). append_assoc k (colon ++ v) (line_end ++ x) in
    let inner = Divides-headers (c ∷ tail) hs body (ne, tail_clean) good lines in
    Divides-line a c _ _ body clean ne
      (rw (regroup (render_headers hs (line_end ++ body)), regroup (render_headers hs [])) at inner)

Lacks-request_method_to_string : (m : RequestMethod) → Lacks 13 (request_method_to_string m)
unfolding request_method_to_string
Lacks-request_method_to_string unknown = omega arith
Lacks-request_method_to_string _ = omega arith

Lacks-ends_url : (url : Bytes) → All (λ c. ends_url c ≡ false) url → Lacks 13 url
Lacks-ends_url [] h = tt
Lacks-ends_url (c ∷ url) (e, h) = (ground arith, Lacks-ends_url url h)

before_nul-Lacks : (s : Bytes) → Lacks 0 s → before_nul s ≡ s
unfolding before_nul
before_nul-Lacks [] h = refl
before_nul-Lacks (c ∷ s) (ne, h) = ground (arith, before_nul-Lacks s h)

-- The parts of a request on the wire: a known method, a URL without a space or a carriage return,
-- a version and lines without one, and no Content-Length; what stands behind the blank line is at
-- hand with it, in at most 256 bytes, none of them 0.
pub record IsWire (method : RequestMethod) (url version : Bytes) (hs : List (Bytes × Bytes))
    (body : Bytes) : Type 0 where
  pub known : method ≢ unknown
  pub url_ne : url ≢ []
  pub url_clean : All (λ c. ends_url c ≡ false) url
  pub version_clean : Lacks 13 version
  pub headers : AreHeaders hs
  pub lines : AreLines hs
  pub unsized : lookup (codes "Content-Length") (insert_all hs []) ≡ none
  pub no_nul : Lacks 0 (render method url version hs (line_end ++ body))
  pub short : length (render method url version hs (line_end ++ body)) ≤ 256

module _ {method : RequestMethod} {url version : Bytes} {hs : List (Bytes × Bytes)} {body : Bytes}
    (wire : IsWire method url version hs body) (peer : Connection) (count : ℤ)
    (more : List Answer) where
  abbrev pub arrived : HttpClient
  arrived = record {
    header = render method url version hs [];
    body = body;
    socket = some peer;
    received_header = true;
    content_length = 0;
  }

  abbrev request_line : Bytes
  request_line =
      request_method_to_string method ++ (codes " " ++ (url ++ (codes " HTTP/" ++ version)))

  request_line_clean : Lacks 13 request_line
  request_line_clean =
      let behind =
        All-append (λ c. c ≢ 13) (codes " HTTP/") version (omega arith) wire.version_clean in
      All-append (λ c. c ≢ 13) (request_method_to_string method)
        (codes " " ++ (url ++ (codes " HTTP/" ++ version))) (Lacks-request_method_to_string method)
        (
          omega arith,
          All-append (λ c. c ≢ 13) url (codes " HTTP/" ++ version)
              (Lacks-ends_url url wire.url_clean) behind,
        )

  render_split :
      (rest : Bytes)
      → render method url version hs rest ≡ request_line ++ (line_end ++ render_headers hs rest)
  render_split rest = simp append_assoc

  divided :
      Divides
        (render method url version hs (line_end ++ body))
        (render method url version hs [])
        body
  divided =
      rw (render_split (line_end ++ body), render_split [])
        (Divides-headers request_line hs body request_line_clean wire.headers wire.lines)

  abbrev pub parsed_request : HttpRequest
  parsed_request = record {
    request_method = method;
    url = url;
    http_version = version;
    headers = insert_all hs [];
  }

  pub parse-arrived : parse arrived.header ≡ ok parsed_request
  parse-arrived =
      parse-render method url version [] hs wire.known wire.url_ne wire.url_clean wire.version_clean
        wire.headers tt

  sized : get_content_length parsed_request ≡ ok 0
  unfolding get_content_length at
  sized = rw (wire.unsized, at) refl

  -- A request that arrives in one piece is complete at once: its client has the header without the
  -- blank line, and what stands behind that as its body.
  pub receive_client-render :
      receive_client (new_client (some peer)) (record {
        first = bytes (render method url version hs (line_end ++ body));
        count = count;
        more = more;
      })
      ≡ ok (arrived, true)
  unfolding receive_client new_client recv_body_async
  receive_client-render =
      let text = render method url version hs (line_end ++ body) in
      let d = divided in
      let whole = before_nul-Lacks text wire.no_nul in
      let read =
        recv_header_async_lem (new_client (some peer)) text d.index refl wire.short
          (ap (find blank_line) whole ∙ d.found) in
      let whole_client : recv_header_async (new_client (some peer)) (bytes text) ≡ ok arrived =
        read ∙ rw (d.front, d.behind) refl in
      rw whole_client (rw parse-arrived (rw sized (ground arith)))
