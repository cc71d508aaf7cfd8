-- ===== src/Http/Response.antt =====
-- src/HttpResponse.cpp: builds the text of a response. The printed time is an argument; the shared
-- pointers to the two vectors are their contents, which nothing else writes meanwhile.
pub mod Printed
use technopark_highload.Decimal.{to_string, stoi}
use technopark_highload.Dict.{Dict, insert}
use technopark_highload.Http.ContentType.{ContentType, get_content_type, content_type_name}
use technopark_highload.Http.Headers.{crlf, is_empty, print_headers}
use technopark_highload.Http.Method.{RequestMethod, get}
use technopark_highload.Prelude.Int.{to_size}
use technopark_highload.Prelude.{ℕ, Bool, ◌&&◌, [], ◌++◌, if◌then◌else◌, length, Bytes, codes}
use technopark_highload.Result.{Result, ok, err, ◌>>=◌, old_version}
use technopark_highload.Text.{equal}

pub record HttpResponse : Type 0 where
  pub http_version : Bytes
  pub url : Bytes
  pub return_code : Bytes
  pub keep_alive : Bool
  pub headers : Dict
  pub response_header : Bytes
  pub content_length : ℕ
  pub response_body : Bytes
  pub response : Bytes

unfoldable pub set_content_type : ContentType → Dict → Dict
set_content_type type headers = insert (codes "Content-type") (content_type_name type) headers

-- the map of headers after all `insert`s
unfoldable pub response_headers : Bytes → HttpResponse → Dict
unfolding set_content_type
response_headers now r =
    let connection =
      if equal r.http_version (codes "1.0") && r.keep_alive
      then insert (codes "Connection") (codes "Keep-Alive") r.headers
      else insert (codes "Connection") (codes "close") r.headers in
    let sized =
      if is_empty r.response_body
      then connection
      else insert (codes "Content-Length") (to_string (length r.response_body)) connection in
    let served = insert (codes "Server") (codes "My cool async server lol") sized in
    let dated = insert (codes "Date") now served in
    let given = insert (codes "Content-Length") (to_string r.content_length) dated in
    set_content_type (get_content_type r.url) given

unfoldable pub form_response_header : Bytes → HttpResponse → HttpResponse
unfolding response_headers
form_response_header now r =
    let line = codes "HTTP/" ++ (r.http_version ++ (codes " " ++ (r.return_code ++ crlf))) in
    record r {
      headers = response_headers now r;
      response_header = line ++ (print_headers (response_headers now r) ++ crlf);
    }

unfoldable pub form_response_data : HttpResponse → HttpResponse
form_response_data r = record r { response = r.response_header ++ r.response_body }

-- the branch of HTTP 0.9
unfoldable pub create_old : RequestMethod → HttpResponse → Result HttpResponse
create_old req_type r = elim req_type [
  | get ↦ ok (record r { http_version = codes "0.9"; response = r.response_body })
  | _ ↦ err old_version
]

-- the members after the initialiser list
abbrev pub initial : Bytes → Bytes → Bytes → Bool → ℕ → Bytes → HttpResponse
initial version url return_code keep_alive content_length body = record {
  http_version = version;
  url = url;
  return_code = return_code;
  keep_alive = keep_alive;
  headers = [];
  response_header = [];
  content_length = content_length;
  response_body = body;
  response = [];
}

-- the constructor at the time `now`; `std::stoi` comes first, and may throw
unfoldable pub create :
    Bytes → Bytes → RequestMethod → Bytes → Bytes → Bool → Bytes → Bytes → Result HttpResponse
unfolding create_old form_response_header form_response_data
create now version req_type url return_code keep_alive content_length body = do
  n ← stoi content_length
  let r = initial version url return_code keep_alive (to_size n) body
  if is_empty version
      then create_old req_type r
      else ok (form_response_data (form_response_header now r))
