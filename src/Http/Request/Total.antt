-- ===== src/Http/Request/Total.antt =====
-- The constructor on every header that a line end closes: it ends, reads inside the message only,
-- and either builds a request or throws `BadFormatException`. Without a carriage return it reads
-- past the end.
use technopark_highload.Dict.{Dict, insert}
use technopark_highload.Http.Method.{
  RequestMethod, unknown, string_to_request_method, request_method_to_string,
  request_method_to_string-string_to_request_method, no_return-request_method_to_string,
  no_space-request_method_to_string, string_to_request_method-request_method_to_string,
}
use technopark_highload.Http.Request.{
  HttpRequest, is_return, ends_url, colon, parse_headers, parse_version, parse_target, parse,
}
use technopark_highload.Prelude.{
  ℕ, zero, suc, ◌+◌, ◌-◌, ◌≤◌, ◌<◌, ◌≡◌, ◌≢◌, refl, ap, ◌∙◌, false, none, some, [], ◌∷◌, ◌++◌, ◌⊎◌,
  inl, inr, arith, ◌==◌, length, length-append, Bool-cases, Option-cases, All, Lacks, drop, Bytes,
  codes,
}
use technopark_highload.Result.{Result, ok, err, bad_format, undefined_behaviour}
use technopark_highload.Text.Search.{
  line_end, find_char-line_end, not-Lacks-line_end, find_from-fits, scan_from_ends, substr_within,
}
use technopark_highload.Text.Laws.{
  At-zero, At-append-At, find_from-At, find_char-append, substr-At, substr_rest-At,
  scan_from-append,
}
use technopark_highload.Text.{shift, find, find_from, find_char, substr, scan, scan_from}

known_or_unknown : (m : RequestMethod) → (m ≡ unknown) ⊎ (m ≢ unknown)
known_or_unknown unknown = inl refl
known_or_unknown _ = inr (ground arith)

abbrev pub BuildsOrRefuses : Result HttpRequest → Type 0
BuildsOrRefuses result = ((r : HttpRequest) × (result ≡ ok r)) ⊎ (result ≡ err bad_format)

module _ (body : Bytes) where
  abbrev message : Bytes
  message = body ++ line_end

  length-message : length message ≡ length body + 2
  length-message = length-append body line_end

  -- One round that finds a header: where it goes on, and what it adds.
  parse_headers_round :
      (fuel i p : ℕ) (m : Dict)
      → find_from colon message i ≡ some p
      → (j : ℕ) × (m' : Dict) × (i + 4 ≤ j)
        × (j ≤ length body + 2)
        × (parse_headers (suc fuel) message i m ≡ parse_headers fuel message j m')
  unfolding parse_headers
  parse_headers_round fuel i p m found =
      let (up, fits) = find_from-fits b':' (codes " ") body i p (omega arith) (omega arith) found in
      let (k, key) = substr_within message i (some (p - i)) (omega (arith, length-message)) in
      let (j, stopped, later, last) = scan_from_ends is_return body (p + 2) refl (omega arith) in
      let (v, value) =
        substr_within message (p + 2) (some (j - (p + 2))) (omega (arith, length-message)) in
      (j + 2, insert k v m, omega arith, omega arith, ground arith)

  parse_headers_ends :
      (fuel i : ℕ) (m : Dict)
      → length body + 3 < fuel + i
      → i ≤ length body + 3
      → (d : Dict) × (parse_headers fuel message i m ≡ ok d)
  unfolding parse_headers
  parse_headers_ends zero i m enough h = absurd (omega arith)
  parse_headers_ends (suc fuel) i m enough h = elim (Option-cases (find_from colon message i)) [
    | inl missing ↦ (m, ground arith)
    | inr (p, found) ↦
        let (j, m', later, last, round) = parse_headers_round fuel i p m found in
        let (d, rest) = parse_headers_ends fuel j m' (omega arith) (omega arith) in
        (d, round ∙ rest)
  ]

  parse_version_ends :
      (i : ℕ)
      → i ≤ length body
      → (v : Bytes) × (j : ℕ) × (parse_version message (i + 1) ≡ ok (v, j))
        × (j ≤ length body + 1)
        × (i ≤ j)
  unfolding parse_version
  parse_version_ends i h = elim (Option-cases (find_from (codes "HTTP/") message (i + 1 - 1))) [
    | inl missing ↦ ([], i + 1, ground arith, omega arith, omega arith)
    | inr (p, found) ↦
        let (up, fits) =
          find_from-fits b'H' (codes "TTP/") body (i + 1 - 1) p (omega arith) (omega arith) found in
        let (j, stopped, later, last) = scan_from_ends is_return body (p + 5) refl (omega arith) in
        let (v, version) =
          substr_within message (p + 5) (some (j - (p + 5))) (omega (arith, length-message)) in
        (v, j, ground arith, omega arith, omega arith)
  ]

  parse_target_ends :
      (method : RequestMethod) (i : ℕ)
      → i ≤ length body
      → BuildsOrRefuses (parse_target method message i)
  unfolding parse_target
  parse_target_ends method i h =
      let (j, stopped, later, last) = scan_from_ends ends_url body i refl h in
      let (url, read) = substr_within message i (some (j - i)) (omega (arith, length-message)) in
      let (v, k, version, bound, up) = parse_version_ends j last in
      let (d, headers) =
        parse_headers_ends (suc (length message)) (k + 2) [] (omega (arith, length-message))
          (omega arith) in
      elim (Bool-cases (j == i)) [
        | inl empty_url ↦ inr (ground arith)
        | inr some_url ↦ inl (
          record { request_method = method; url = url; http_version = v; headers = d },
          ground arith,
        )
      ]

  -- A method's name has no carriage return, so the whole message is none.
  whole_message_unknown : string_to_request_method message ≡ unknown
  whole_message_unknown = elim (known_or_unknown (string_to_request_method message)) [
    | inl e ↦ e
    | inr known ↦
        let name = no_return-request_method_to_string (string_to_request_method message) in
        let same = request_method_to_string-string_to_request_method message known in
        absurd (not-Lacks-line_end body (rw same at name))
  ]

  -- A message that a line end closes is parsed or refused as badly formed: the constructor neither
  -- reads past the end of the message, nor throws another exception, nor loops.
  pub parse-BuildsOrRefuses : BuildsOrRefuses (parse message)
  unfolding parse
  parse-BuildsOrRefuses = elim (Option-cases (find_char b' ' message)) [
    | inl missing ↦
        let name : substr message 0 none ≡ ok message = substr_rest-At (At-zero message) in
        inr (ground (arith, whole_message_unknown))
    | inr (i, found) ↦
        let fits = find_char-line_end b' ' body i (omega arith) (omega arith) found in
        let (name, read) = substr_within message 0 (some i) (omega arith) in
        let target = parse_target_ends (string_to_request_method name) (i + 1) (omega arith) in
        ground arith
  ]

-- An unbounded loop finds no carriage return: it reads past the end.
scan-Lacks : (s : Bytes) → Lacks 13 s → scan is_return s ≡ err undefined_behaviour
unfolding scan
scan-Lacks [] h = refl
scan-Lacks (c ∷ s) (ne, h) = ground (arith, scan-Lacks s h)

Lacks-drop : (b i : ℕ) (s : Bytes) → Lacks b s → Lacks b (drop i s)
Lacks-drop b zero s h = h
Lacks-drop b (suc i) [] h = tt
Lacks-drop b (suc i) (c ∷ s) (_, h) = Lacks-drop b i s h

scan_from-Lacks :
    (s : Bytes) (i : ℕ) → Lacks 13 s → scan_from is_return s i ≡ err undefined_behaviour
unfolding scan_from
scan_from-Lacks s i h = ground (arith, scan-Lacks (drop i s) (Lacks-drop 13 i s h))

-- A request whose lines end in a bare `\n`, which `RecvHeaderAsync` accepts, makes the constructor
-- read past the end of the message: with a known method, a URL and, behind it, an `HTTP/`.
pub parse_bare_newlines :
    (method : RequestMethod) (url tail : Bytes) (p : ℕ)
    → method ≢ unknown
    → url ≢ []
    → All (λ c. ends_url c ≡ false) url
    → Lacks 13 (request_method_to_string method ++ (codes " " ++ (url ++ (codes " " ++ tail))))
    → find (codes "HTTP/") (codes " " ++ tail) ≡ some p
    → parse (request_method_to_string method ++ (codes " " ++ (url ++ (codes " " ++ tail))))
      ≡ err undefined_behaviour
unfolding parse parse_target parse_version
parse_bare_newlines method [] tail p known ne clean bare found = absurd (ne refl)
parse_bare_newlines method (c ∷ url) tail p known ne clean bare found =
    let name = request_method_to_string method in
    let text = name ++ (codes " " ++ ((c ∷ url) ++ (codes " " ++ tail))) in
    let at_space = At-append-At name _ (length name) (omega arith) (At-zero text) in
    let at_url = At-append-At (codes " ") _ (length name + 1) refl at_space in
    let space =
      find_char-append 32 name ((c ∷ url) ++ (codes " " ++ tail))
        (no_space-request_method_to_string method) in
    let read = substr-At name _ (length name) refl (At-zero text) in
    let stopped =
      scan_from-append ends_url text (length name + 1) (c ∷ url) 32 tail at_url clean refl in
    let target =
      substr-At (c ∷ url) _ (length name + 1 + suc (length url) - (length name + 1)) (omega arith)
        at_url in
    let at_tail =
      At-append-At (c ∷ url) _ (length name + 1 + suc (length url) + 1 - 1) (omega arith) at_url in
    let version = find_from-At at_tail (codes "HTTP/") ∙ ap (shift _) found in
    let moved : length name + 1 + suc (length url) ≢ length name + 1 = omega arith in
    ground (
      arith,
      string_to_request_method-request_method_to_string method,
      scan_from-Lacks text (length name + 1 + suc (length url) + 1 - 1 + p + 5) bare,
    )
