-- ===== src/Http/Response/Printed.antt =====
-- The headers of a response, whole.
use technopark_highload.Decimal.{to_string}
use technopark_highload.Dict.{less, lookup, put, insert}
use technopark_highload.Http.ContentType.{get_content_type, content_type_name}
use technopark_highload.Http.Headers.{is_empty}
use technopark_highload.Http.Response.{HttpResponse, response_headers}
use technopark_highload.Prelude.{
  ℕ, ◌≡◌, ◌&&◌, inl, inr, [], ◌∷◌, if◌then◌else◌, length, Bool-cases, Bytes, codes,
}
use technopark_highload.Text.{equal}

abbrev pub connection_of : HttpResponse → Bytes
connection_of r =
    if equal r.http_version (codes "1.0") && r.keep_alive then codes "Keep-Alive" else codes "close"

-- the size of the body, or the given length where there is no body
abbrev pub length_of : HttpResponse → ℕ
length_of r = if is_empty r.response_body then r.content_length else length r.response_body

-- The headers are these five, in this order.
pub response_headers_lem :
    (now : Bytes) (r : HttpResponse)
    → r.headers ≡ []
    → response_headers now r ≡ (
        (codes "Connection", connection_of r)
        ∷ (codes "Content-Length", to_string (length_of r))
        ∷ (codes "Content-type", content_type_name (get_content_type r.url))
        ∷ (codes "Date", now)
        ∷ (codes "Server", codes "My cool async server lol")
        ∷ [])
unfolding response_headers insert lookup put equal less
response_headers_lem now r e =
    elim (Bool-cases (equal r.http_version (codes "1.0") && r.keep_alive)) [
      | inl kept ↦ elim (Bool-cases (is_empty r.response_body)) [
        | inl no_body ↦ rw (no_body, kept, e)
        | inr body ↦ rw (body, kept, e)
      ]
      | inr dropped ↦ elim (Bool-cases (is_empty r.response_body)) [
        | inl no_body ↦ rw (no_body, dropped, e)
        | inr body ↦ rw (body, dropped, e)
      ]
    ]
