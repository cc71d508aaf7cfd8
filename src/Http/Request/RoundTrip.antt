-- ===== src/Http/Request/RoundTrip.antt =====
-- A request line and its headers are read back as they were written.
use technopark_highload.Dict.{Dict, insert}
use technopark_highload.Http.Method.{
  RequestMethod, unknown, request_method_to_string,
  string_to_request_method-request_method_to_string, no_space-request_method_to_string,
}
use technopark_highload.Http.Request.{
  is_return, ends_url, colon, parse_headers, parse_version, parse_target, parse,
}
use technopark_highload.Prelude.{
  ℕ, zero, suc, ◌+◌, ◌-◌, ◌≤◌, ◌<◌, ◌≡◌, ◌≢◌, refl, ap, ◌∙◌, false, List, [], ◌∷◌, ◌++◌, arith,
  length, length-append, All, Lacks, Bytes, codes,
}
use technopark_highload.Result.{ok}
use technopark_highload.Text.Laws.{
  Lacks-decided, At, At-zero, At-append-At, find_from-At, substr-At, scan_from-append, find-append,
  find-eq-none, find_char-append,
}
use technopark_highload.Text.{shift}

abbrev crlf : Bytes
crlf = codes "\r\n"

-- The lines `key: value`, and what stands behind them.
abbrev pub render_headers : List (Bytes × Bytes) → Bytes → Bytes
render_headers [] rest = rest
render_headers ((k, v) ∷ hs) rest = k ++ (colon ++ (v ++ (crlf ++ render_headers hs rest)))

abbrev pub insert_all : List (Bytes × Bytes) → Dict → Dict
insert_all [] m = m
insert_all ((k, v) ∷ hs) m = insert_all hs (insert k v m)

-- No key holds a colon and no value the end of a line.
abbrev pub AreHeaders : List (Bytes × Bytes) → Type 0
AreHeaders = All (λ h. Lacks b':' h.0 × Lacks 13 h.1)

-- One round of the loop, at a line `key: value`.
parse_header :
    (fuel : ℕ) (message : Bytes) (i : ℕ) (k v rest : Bytes) (m : Dict)
    → Lacks b':' k
    → Lacks 13 v
    → At message i (k ++ (colon ++ (v ++ (crlf ++ rest))))
    → (j : ℕ) × At message j rest
      × (parse_headers (suc fuel) message i m ≡ parse_headers fuel message j (insert k v m))
unfolding parse_headers
parse_header fuel message i k v rest m gk gv here =
    let found =
      find_from-At here colon
      ∙ ap (shift i) (find-append b':' (codes " ") k (v ++ (crlf ++ rest)) gk) in
    let key = substr-At k _ (i + length k - i) (omega arith) here in
    let at_value =
      At-append-At colon _ (i + length k + 2) (omega arith)
        (At-append-At k _ (i + length k) refl here) in
    let stopped =
      scan_from-append is_return message (i + length k + 2) v 13 (10 ∷ rest) at_value
        (Lacks-decided 13 v gv) refl in
    let value =
      substr-At v _ (i + length k + 2 + length v - (i + length k + 2)) (omega arith) at_value in
    (
      i + length k + 2 + length v + 2,
      At-append-At crlf rest _ (omega arith)
          (At-append-At v _ (i + length k + 2 + length v) refl at_value),
      ground arith,
    )

parse_headers-render :
    (hs : List (Bytes × Bytes)) (rest : Bytes) (fuel : ℕ) (message : Bytes) (i : ℕ) (m : Dict)
    → length hs < fuel
    → AreHeaders hs
    → Lacks b':' rest
    → At message i (render_headers hs rest)
    → parse_headers fuel message i m ≡ ok (insert_all hs m)
parse_headers-render hs rest zero message i m h good none here = absurd (omega arith)
parse_headers-render [] rest (suc fuel) message i m h good none here =
    let missing =
      find_from-At here colon ∙ ap (shift i) (find-eq-none b':' (codes " ") rest none) in
    unfold parse_headers in ground arith
parse_headers-render ((k, v) ∷ hs) rest (suc fuel) message i m h ((gk, gv), good) none here =
    let (j, behind, round) = parse_header fuel message i k v _ m gk gv here in
    round
    ∙ parse_headers-render hs rest fuel message j (insert k v m) (omega arith) good none behind

-- `GET /index.html HTTP/1.1`, the headers, and what stands behind them.
abbrev pub render : RequestMethod → Bytes → Bytes → List (Bytes × Bytes) → Bytes → Bytes
render method url version hs rest =
    request_method_to_string method
    ++ (codes " "
        ++ (url ++ (codes " " ++ (codes "HTTP/" ++ (version ++ (crlf ++ render_headers hs rest))))))

parse_version-render :
    (message : Bytes) (i : ℕ) (version rest : Bytes)
    → Lacks 13 version
    → At message i (codes " " ++ (codes "HTTP/" ++ (version ++ (crlf ++ rest))))
    → (j : ℕ) × At message (j + 2) rest × (parse_version message (i + 1) ≡ ok (version, j))
unfolding parse_version
parse_version-render message i version rest clean here =
    let found =
      find_from-At here (codes "HTTP/")
      ∙ ap (shift i)
          (find-append b'H' (codes "TTP/") (codes " ") (version ++ (crlf ++ rest)) (omega arith)) in
    let at_version = At-append-At (codes " HTTP/") _ (i + 1 + 5) (omega arith) here in
    let stopped =
      scan_from-append is_return message (i + 1 + 5) version 13 (10 ∷ rest) at_version
        (Lacks-decided 13 version clean) refl in
    let text =
      substr-At version _ (i + 1 + 5 + length version - (i + 1 + 5)) (omega arith) at_version in
    (
      i + 1 + 5 + length version,
      At-append-At crlf rest _ (omega arith)
          (At-append-At version _ (i + 1 + 5 + length version) refl at_version),
      let back : i + 1 - 1 ≡ i = omega arith in ground arith,
    )

-- The URL and all behind it, from the position behind the method's space.
parse_target-render :
    (method : RequestMethod) (message : Bytes) (i : ℕ) (url version rest : Bytes)
    (hs : List (Bytes × Bytes))
    → url ≢ []
    → All (λ c. ends_url c ≡ false) url
    → Lacks 13 version
    → AreHeaders hs
    → Lacks b':' rest
    → length hs ≤ length message
    → At message i
        (url ++ (codes " " ++ (codes "HTTP/" ++ (version ++ (crlf ++ render_headers hs rest)))))
    → parse_target method message i
      ≡ ok (record {
        request_method = method;
        url = url;
        http_version = version;
        headers = insert_all hs [];
      })
unfolding parse_target
parse_target-render method message i [] version rest hs ne clean_url clean good none fits here =
    absurd (ne refl)
parse_target-render method message i (c ∷ url) version rest hs ne clean_url clean good none fits
      here =
    let stopped = scan_from-append ends_url message i (c ∷ url) 32 _ here clean_url refl in
    let text = substr-At (c ∷ url) _ (i + suc (length url) - i) (omega arith) here in
    let (j, at_headers, version_read) =
      parse_version-render message (i + suc (length url)) version (render_headers hs rest) clean
        (At-append-At (c ∷ url) _ (i + suc (length url)) refl here) in
    let headers_read =
      parse_headers-render hs rest (suc (length message)) message (j + 2) [] (omega arith) good none
        at_headers in
    let moved : i + suc (length url) ≢ i = omega arith in ground arith

pub length-le-render_headers :
    (hs : List (Bytes × Bytes)) (rest : Bytes) → length hs ≤ length (render_headers hs rest)
length-le-render_headers [] rest = omega arith
length-le-render_headers ((k, v) ∷ hs) rest = omega (
  arith,
  length-append k (colon ++ (v ++ (crlf ++ render_headers hs rest))),
  length-append v (crlf ++ render_headers hs rest),
  length-le-render_headers hs rest,
)

-- A request that is written line by line, with a known method, a URL free of spaces, keys free of
-- colons, and no colon behind the headers, is parsed to what was written; of headers with one
-- key the first counts.
pub parse-render :
    (method : RequestMethod) (url version rest : Bytes) (hs : List (Bytes × Bytes))
    → method ≢ unknown
    → url ≢ []
    → All (λ c. ends_url c ≡ false) url
    → Lacks 13 version
    → AreHeaders hs
    → Lacks b':' rest
    → parse (render method url version hs rest)
      ≡ ok (record {
        request_method = method;
        url = url;
        http_version = version;
        headers = insert_all hs [];
      })
unfolding parse
parse-render method url version rest hs known ne clean_url clean good none =
    let name = request_method_to_string method in
    let message = render method url version hs rest in
    let tail =
      url ++ (codes " " ++ (codes "HTTP/" ++ (version ++ (crlf ++ render_headers hs rest)))) in
    let space = find_char-append 32 name tail (no_space-request_method_to_string method) in
    let text = substr-At name (codes " " ++ tail) (length name) refl (At-zero message) in
    let at_url =
      At-append-At (codes " ") tail (length name + 1) refl
        (At-append-At name _ (length name) (omega arith) (At-zero message)) in
    let read =
      parse_target-render method message (length name + 1) url version rest hs ne clean_url clean
        good none
        (omega (
          arith,
          length-append name (codes " " ++ tail),
          length-append url (codes " HTTP/" ++ (version ++ (crlf ++ render_headers hs rest))),
          length-append version (crlf ++ render_headers hs rest),
          length-le-render_headers hs rest,
        ))
        at_url in
    ground (arith, string_to_request_method-request_method_to_string method)
