-- ===== src/Http/ResponseReader/Headers.antt =====
-- `ExtractHeaders` reads back the headers that `HttpResponse` prints.
use technopark_highload.Dict.{Dict, put}
use technopark_highload.Http.Headers.{crlf}
use technopark_highload.Http.Request.RoundTrip.{
  render_headers, AreHeaders, length-le-render_headers,
}
use technopark_highload.Http.Request.{colon}
use technopark_highload.Http.ResponseReader.{extract_loop, extract_headers}
use technopark_highload.Prelude.{
  ℕ, zero, suc, ◌+◌, ◌-◌, ◌<◌, ◌≡◌, refl, ap, ◌∙◌, some, List, [], ◌∷◌, ◌++◌, arith, length,
  length-append, Lacks, Bytes, codes,
}
use technopark_highload.Result.{ok}
use technopark_highload.Text.Laws.{
  At, At-zero, At-append-At, find_from-At, substr-At, find-append, find-eq-none, find_char-append,
  At-leb, At-drop,
}
use technopark_highload.Text.{shift, find_char_from}

abbrev pub put_all : List (Bytes × Bytes) → Dict → Dict
put_all [] m = m
put_all ((k, v) ∷ hs) m = put_all hs (put k v m)

find_char_from-At :
    {s : Bytes} {i : ℕ} (b : ℕ) (a rest : Bytes)
    → Lacks b a
    → At s i (a ++ b ∷ rest)
    → find_char_from b s i ≡ some (i + length a)
unfolding find_char_from
find_char_from-At b a rest clean here =
    rw (At-leb here, At-drop here) (rw (find_char-append b a rest clean))

-- One round of the loop, at a line `name: value`.
extract_header :
    (fuel : ℕ) (message : Bytes) (i : ℕ) (k v rest : Bytes) (m : Dict)
    → Lacks b':' k
    → Lacks 13 v
    → At message i (k ++ (colon ++ (v ++ (crlf ++ rest))))
    → (j : ℕ) × At message j rest
      × (extract_loop (suc fuel) message i m ≡ extract_loop fuel message j (put k v m))
unfolding extract_loop
extract_header fuel message i k v rest m gk gv here =
    let found =
      find_from-At here colon
      ∙ ap (shift i) (find-append b':' (codes " ") k (v ++ (crlf ++ rest)) gk) in
    let key = substr-At k _ (i + length k - i) (omega arith) here in
    let at_value =
      At-append-At colon _ (i + length k + 2) (omega arith)
        (At-append-At k _ (i + length k) refl here) in
    let stopped = find_char_from-At 13 v (10 ∷ rest) gv at_value in
    let value =
      substr-At v _ (i + length k + 2 + length v - (i + length k + 2)) (omega arith) at_value in
    (
      i + length k + 2 + length v + 2,
      At-append-At crlf rest _ (omega arith)
          (At-append-At v _ (i + length k + 2 + length v) refl at_value),
      ground arith,
    )

extract_loop-render :
    (hs : List (Bytes × Bytes)) (rest : Bytes) (fuel : ℕ) (message : Bytes) (i : ℕ) (m : Dict)
    → length hs < fuel
    → AreHeaders hs
    → Lacks b':' rest
    → At message i (render_headers hs rest)
    → extract_loop fuel message i m ≡ ok (put_all hs m)
extract_loop-render hs rest zero message i m h good none here = absurd (omega arith)
extract_loop-render [] rest (suc fuel) message i m h good none here =
    let missing =
      find_from-At here colon ∙ ap (shift i) (find-eq-none b':' (codes " ") rest none) in
    unfold extract_loop in ground arith
extract_loop-render ((k, v) ∷ hs) rest (suc fuel) message i m h ((gk, gv), good) none here =
    let (j, behind, round) = extract_header fuel message i k v _ m gk gv here in
    round ∙ extract_loop-render hs rest fuel message j (put k v m) (omega arith) good none behind

-- The headers behind a status line are read as they were written; of one name the last counts.
pub extract_headers-render :
    (line rest : Bytes) (hs : List (Bytes × Bytes))
    → Lacks 13 line
    → AreHeaders hs
    → Lacks b':' rest
    → extract_headers (line ++ (crlf ++ render_headers hs rest)) ≡ ok (put_all hs [])
unfolding extract_headers
extract_headers-render line rest hs clean good none =
    let message = line ++ (crlf ++ render_headers hs rest) in
    let ends = find_char-append 13 line (10 ∷ render_headers hs rest) clean in
    let at_headers =
      At-append-At crlf (render_headers hs rest) (length line + 2) refl
        (At-append-At line _ (length line) (omega arith) (At-zero message)) in
    let size = length-append line (crlf ++ render_headers hs rest) in
    let read =
      extract_loop-render hs rest (suc (length message)) message (length line + 2) []
        (omega (arith, length-le-render_headers hs rest)) good none at_headers in
    rw ends read
