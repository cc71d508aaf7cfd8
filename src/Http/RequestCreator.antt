-- ===== src/Http/RequestCreator.antt =====
-- src/HttpRequestCreator.cpp: builds the text of a request.
pub mod Parsed
pub mod Query
use technopark_highload.Decimal.{to_string}
use technopark_highload.Dict.{Dict, lookup, insert, put, or_empty}
use technopark_highload.Http.Headers.{crlf, is_empty, print_headers}
use technopark_highload.Http.Method.{
  RequestMethod, unknown, get, post, options, head, put as put_method, patch, delete, connect,
}
use technopark_highload.Prelude.{
  ℕ, zero, suc, ◌+◌, ◌-◌, Bool, true, false, ◌&&◌, ◌||◌, Option, none, some, [], ◌∷◌, ◌++◌, leb,
  ◌==◌, if◌then◌else◌, length, drop, Bytes, codes,
}
use technopark_highload.Result.{Result, ok, err, ◌>>=◌, old_version, out_of_fuel}
use technopark_highload.Text.{equal, find_char_from, scan, substr}

pub record HttpRequestCreator : Type 0 where
  pub http_version : Bytes
  pub req_type : RequestMethod
  pub url : Bytes
  pub keep_alive : Bool
  pub request_body : Bytes
  pub headers : Dict
  pub request_header : Bytes
  pub request : Bytes
  pub query : Dict

unfoldable pub request_method_to_string : RequestMethod → Bytes
request_method_to_string get = codes "GET"
request_method_to_string post = codes "POST"
request_method_to_string options = codes "OPTIONS"
request_method_to_string head = codes "HEAD"
request_method_to_string put_method = codes "PUT"
request_method_to_string patch = codes "PATCH"
request_method_to_string delete = codes "DELETE"
request_method_to_string connect = codes "CONNECT"
request_method_to_string unknown = codes "UNKNOWN"

unfoldable pub string_to_request_method : Bytes → RequestMethod
string_to_request_method s =
    if equal s (codes "GET")
    then get
    else if equal s (codes "POST")
    then post
    else if equal s (codes "OPTIONS")
    then options
    else if equal s (codes "HEAD")
    then head
    else if equal s (codes "PUT")
    then put_method
    else if equal s (codes "PATCH")
    then patch
    else if equal s (codes "DELETE")
    then delete
    else if equal s (codes "CONNECT")
    then connect
    else unknown

unfoldable pub set_request_body : HttpRequestCreator → Bytes → HttpRequestCreator
set_request_body c body = record c { request_body = body }

-- the map of headers after the two `insert`s
unfoldable pub request_headers : HttpRequestCreator → Dict
request_headers c =
    let kept =
      if equal c.http_version (codes "1.0") && c.keep_alive
      then insert (codes "Connection") (codes "Keep-Alive") c.headers
      else c.headers in
    if is_empty c.request_body
    then kept
    else insert (codes "Content-Length") (to_string (length c.request_body)) kept

unfoldable pub form_request_header : HttpRequestCreator → HttpRequestCreator
unfolding request_method_to_string request_headers
form_request_header c =
    let line = request_method_to_string c.req_type ++ (codes " " ++ (c.url ++ codes " ")) in
    let version = codes "HTTP/" ++ (c.http_version ++ (codes " " ++ crlf)) in
    record c {
      headers = request_headers c;
      request_header = (line ++ version) ++ print_headers (request_headers c);
    }

unfoldable pub form_request_data : HttpRequestCreator → HttpRequestCreator
form_request_data c = record c { request = (c.request_header ++ crlf) ++ c.request_body }

-- the members after the initialiser list
abbrev pub initial : Bytes → RequestMethod → Bytes → Bool → HttpRequestCreator
initial version req_type url keep_alive = record {
  http_version = version;
  req_type = req_type;
  url = url;
  keep_alive = keep_alive;
  request_body = [];
  headers = [];
  request_header = [];
  request = [];
  query = [];
}

-- the branch of HTTP 0.9
unfoldable pub create_old : HttpRequestCreator → Result HttpRequestCreator
create_old c = elim c.req_type [
  | get ↦
      let header = codes "GET " ++ (c.url ++ crlf) in
      ok (record c { http_version = codes "0.9"; request_header = header; request = header })
  | _ ↦ err old_version
]

-- the constructor
unfoldable pub create : Bytes → RequestMethod → Bytes → Bool → Bytes → Result HttpRequestCreator
unfolding create_old set_request_body form_request_header form_request_data
create version req_type url keep_alive body =
    let c = initial version req_type url keep_alive in
    if is_empty version
    then create_old c
    else ok (form_request_data (form_request_header (set_request_body c body)))

unfoldable pub get_query_parameter : HttpRequestCreator → Bytes → Bytes
get_query_parameter c name = or_empty (lookup name c.query)

-- `while (url[pos] != '?' && url[pos] != '\0') ++pos;` from the front of the rest of `url`, whose
-- end is the byte 0
unfoldable pub skip_to_mark : Bytes → ℕ
skip_to_mark [] = 0
skip_to_mark (c ∷ s) = let rest = skip_to_mark s in if c == b'?' || c == 0 then 0 else suc rest

-- `url.substr(pos + 1, end_key - pos - 1)`; with `npos` for `end_key` the count is past the end
unfoldable pub query_key : Bytes → ℕ → Option ℕ → Result Bytes
query_key url pos none = substr url (pos + 1) none
query_key url pos (some end_key) = substr url (pos + 1) (some (end_key - pos - 1))

-- `url.substr(end_key + 1, pos - end_key - 1)`: `npos + 1` is 0, and a negative count wraps to one
-- that is past the end
unfoldable pub query_value : Bytes → ℕ → Option ℕ → Result Bytes
query_value url pos none = substr url 0 (some pos)
query_value url pos (some end_key) =
    substr url (end_key + 1) (if leb (end_key + 1) pos then some (pos - (end_key + 1)) else none)

-- The loop of `ProcessQueryString`.
unfoldable pub process_query_string : ℕ → Bytes → ℕ → Dict → Result Dict
unfolding query_key query_value skip_to_mark
process_query_string zero url pos query = err out_of_fuel
process_query_string (suc fuel) url pos query = elim (find_char_from b'?' url pos) [
  | none ↦ ok query
  | some mark ↦ do
    let end_key = find_char_from b'=' url mark
    key ← query_key url mark end_key
    let pos' = mark + skip_to_mark (drop mark url)
    value ← query_value url pos' end_key
    process_query_string fuel url pos' (put key value query)
]
