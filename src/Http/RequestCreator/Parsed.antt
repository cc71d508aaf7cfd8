-- ===== src/Http/RequestCreator/Parsed.antt =====
-- What `HttpRequest` reads in the text that `HttpRequestCreator` builds.
use technopark_highload.Decimal.RoundTrip.{to_string-AllDigits, to_string-ne-nil, Lacks-AllDigits}
use technopark_highload.Decimal.{to_string}
use technopark_highload.Dict.{Dict, less, insert, lookup, put}
use technopark_highload.Http.Headers.{crlf, is_empty, print_headers-render_headers}
use technopark_highload.Http.Method
use technopark_highload.Http.Method.{RequestMethod, unknown}
use technopark_highload.Http.Request.RoundTrip.{AreHeaders, insert_all, render, parse-render}
use technopark_highload.Http.Request.{ends_url, parse}
use technopark_highload.Http.RequestCreator.{
  HttpRequestCreator, request_method_to_string, string_to_request_method, set_request_body,
  request_headers, form_request_header, form_request_data, initial, create,
}
use technopark_highload.Prelude.{
  ℕ, ◌≡◌, ◌≢◌, refl, ap, ◌∙◌, Bool, false, ◌&&◌, [], ◌∷◌, ◌++◌, append_assoc, arith, length,
  Bool-cases, inl, inr, All, All-append, Lacks, Bytes, codes,
}
use technopark_highload.Result.{ok}
use technopark_highload.Text.{equal}

-- The two classes convert methods and names in the same way.
methods_agree :
    (m : RequestMethod) (s : Bytes)
    → (request_method_to_string m ≡ Method.request_method_to_string m)
      × (string_to_request_method s ≡ Method.string_to_request_method s)
unfolding request_method_to_string Method.request_method_to_string string_to_request_method
    Method.string_to_request_method
methods_agree unknown s = (refl, refl)
methods_agree _ s = (refl, refl)

-- A map of headers that is read back pair by pair.
record IsReadable (hs : Dict) : Type 0 where
  lines : AreHeaders hs
  no_empty : All (λ h. h.1 ≢ []) hs
  same : insert_all hs [] ≡ hs

abbrev keep_alive_header : Bytes × Bytes
keep_alive_header = (codes "Connection", codes "Keep-Alive")

abbrev length_header : ℕ → Bytes × Bytes
length_header n = (codes "Content-Length", to_string n)

clean_number : (n : ℕ) → Lacks 13 (to_string n)
clean_number n = Lacks-AllDigits 13 (to_string n) (λ e. cc) (to_string-AllDigits n)

none-IsReadable : IsReadable []
none-IsReadable = record { lines = tt; no_empty = tt; same = refl }

kept-IsReadable : IsReadable (keep_alive_header ∷ [])
unfolding insert lookup put equal
kept-IsReadable = record { lines = omega arith; no_empty = (λ e. cc, tt); same = refl }

sized-IsReadable : (n : ℕ) → IsReadable (length_header n ∷ [])
unfolding insert lookup put equal
sized-IsReadable n = record {
  lines = ((omega arith, clean_number n), tt);
  no_empty = (to_string-ne-nil n, tt);
  same = refl;
}

both-IsReadable : (n : ℕ) → IsReadable (keep_alive_header ∷ length_header n ∷ [])
unfolding insert lookup put equal less
both-IsReadable n = record {
  lines = (omega arith, ((omega arith, clean_number n), tt));
  no_empty = (λ e. cc, (to_string-ne-nil n, tt));
  same = refl;
}

request_headers-IsReadable :
    (c : HttpRequestCreator) → c.headers ≡ [] → IsReadable (request_headers c)
unfolding request_headers insert lookup put equal less
request_headers-IsReadable c e =
    let n = length c.request_body in
    elim (Bool-cases (equal c.http_version (codes "1.0") && c.keep_alive)) [
      | inl kept ↦ elim (Bool-cases (is_empty c.request_body)) [
        | inl no_body ↦ rw (no_body, kept, e) kept-IsReadable
        | inr body ↦ rw (body, kept, e) (both-IsReadable n)
      ]
      | inr dropped ↦ elim (Bool-cases (is_empty c.request_body)) [
        | inl no_body ↦ rw (no_body, dropped, e) none-IsReadable
        | inr body ↦ rw (body, dropped, e) (sized-IsReadable n)
      ]
    ]

abbrev formed : Bytes → RequestMethod → Bytes → Bool → Bytes → HttpRequestCreator
formed version method url keep_alive body =
    form_request_data
      (form_request_header (set_request_body (initial version method url keep_alive) body))

formed-render :
    (version : Bytes) (method : RequestMethod) (url : Bytes) (keep_alive : Bool) (body : Bytes)
    → (formed version method url keep_alive body).request
      ≡ render method url
          (version ++ codes " ")
          (formed version method url keep_alive body).headers
          (crlf ++ body)
unfolding form_request_data form_request_header set_request_body
formed-render version method url keep_alive body =
    let c = formed version method url keep_alive body in
    let readable =
      request_headers-IsReadable (set_request_body (initial version method url keep_alive) body)
        refl in
    let printed = print_headers-render_headers c.headers (crlf ++ body) readable.no_empty in
    simp (append_assoc, printed, (methods_agree method []).0)

-- A request of version 1 and up is parsed back to its method, its URL and exactly its headers, if
-- neither of these nor the body holds a delimiter; the version comes back with a space behind it,
-- since the builder prints one before the line end.
pub parse-create :
    (version : Bytes) (method : RequestMethod) (url : Bytes) (keep_alive : Bool) (body : Bytes)
    → version ≢ []
    → method ≢ unknown
    → url ≢ []
    → All (λ c. ends_url c ≡ false) url
    → Lacks 13 version
    → Lacks b':' body
    → (c : HttpRequestCreator) × (create version method url keep_alive body ≡ ok c)
      × (parse c.request
          ≡ ok (record {
            request_method = method;
            url = url;
            http_version = version ++ codes " ";
            headers = c.headers;
          }))
unfolding create
parse-create version method url keep_alive body versioned known ne clean_url clean none =
    let readable =
      request_headers-IsReadable (set_request_body (initial version method url keep_alive) body)
        refl in
    let c = formed version method url keep_alive body in
    let read =
      parse-render method url (version ++ codes " ") (crlf ++ body) c.headers known ne clean_url
        (All-append (λ b. b ≢ 13) version (codes " ") clean (omega arith)) readable.lines
        (omega arith, (omega arith, none)) in
    (
      c,
      ground arith,
      rw formed-render (
          read
          ∙ ap
              (λ h. ok (record {
                request_method = method;
                url = url;
                http_version = version ++ codes " ";
                headers = h;
              }))
              readable.same),
    )
