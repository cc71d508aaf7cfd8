-- ===== src/Http/Request.antt =====
-- src/HttpRequest.cpp: the parser of a request's header, and the getters.
pub mod RoundTrip
pub mod Total
pub mod Ends
use technopark_highload.Decimal.{stoi}
use technopark_highload.Dict.{Dict, lookup, insert, at, or_empty}
use technopark_highload.Http.Method.{RequestMethod, unknown, string_to_request_method}
use technopark_highload.Prelude.Int.{clamp}
use technopark_highload.Prelude.{
  ℕ, zero, suc, ◌+◌, ◌-◌, Bool, true, false, ◌||◌, Option, none, some, [], ◌∷◌, ◌==◌, if◌then◌else◌,
  length, Bytes, codes,
}
use technopark_highload.Result.{
  Error, Result, ok, err, ◌>>=◌, bad_format, invalid_argument, out_of_range, out_of_fuel,
}
use technopark_highload.Text.{find_from, find_char, substr, scan_from}

pub record HttpRequest : Type 0 where
  pub request_method : RequestMethod
  pub url : Bytes
  pub http_version : Bytes
  pub headers : Dict

abbrev pub is_return : ℕ → Bool
is_return c = c == b'\r'

abbrev pub ends_url : ℕ → Bool
ends_url c = c == b' ' || c == b'\r'

abbrev pub colon : Bytes
colon = codes ": "

-- The `while` loop over the headers. `search` grows in each round, so one more round than the
-- message has bytes is enough.
unfoldable pub parse_headers : ℕ → Bytes → ℕ → Dict → Result Dict
parse_headers zero message search headers = err out_of_fuel
parse_headers (suc fuel) message search headers = elim (find_from colon message search) [
  | none ↦ ok headers
  | some pos ↦ do
    key ← substr message search (some (pos - search))
    search' ← scan_from is_return message (pos + 2)
    value ← substr message (pos + 2) (some (search' - (pos + 2)))
    parse_headers fuel message (search' + 2) (insert key value headers)
]

-- The version and the position behind it; with no `HTTP/` in the rest of the message the version
-- is empty. `search` stands behind the byte that ended the URL.
unfoldable pub parse_version : Bytes → ℕ → Result (Bytes × ℕ)
parse_version message search = elim (find_from (codes "HTTP/") message (search - 1)) [
  | some found ↦ do
    search' ← scan_from is_return message (found + 5)
    version ← substr message (found + 5) (some (search' - (found + 5)))
    ok (version, search')
  | none ↦ ok ([], search)
]

-- `++search` takes `npos` to 0
abbrev pub after_space : Option ℕ → ℕ
after_space none = 0
after_space (some i) = i + 1

-- what follows the method, from position `pos`
unfoldable pub parse_target : RequestMethod → Bytes → ℕ → Result HttpRequest
unfolding parse_version parse_headers
parse_target method message pos = do
  search ← scan_from ends_url message pos
  if search == pos then err bad_format else do
    url ← substr message pos (some (search - pos))
    (version, search') ← parse_version message (search + 1)
    headers ← parse_headers (suc (length message)) message (search' + 2) []
    ok (record { request_method = method; url = url; http_version = version; headers = headers })

abbrev pub is_unknown : RequestMethod → Bool
is_unknown unknown = true
is_unknown _ = false

-- the constructor
unfoldable pub parse : Bytes → Result HttpRequest
parse message = do
  name ← substr message 0 (find_char b' ' message)
  let method = string_to_request_method name
  if is_unknown method
      then err bad_format
      else parse_target method message (after_space (find_char b' ' message))

unfoldable pub get_header : HttpRequest → Bytes → Bytes
get_header r name = or_empty (lookup name r.headers)

-- the value of `Content-Length` under `try`: the two exceptions caught give 0
abbrev pub or_zero : Result ℕ → Result ℕ
or_zero (err invalid_argument) = ok 0
or_zero (err out_of_range) = ok 0
or_zero r = r

unfoldable pub get_content_length : HttpRequest → Result ℕ
get_content_length r =
    or_zero (do text ← at r.headers (codes "Content-Length"); n ← stoi text; ok (clamp n))
