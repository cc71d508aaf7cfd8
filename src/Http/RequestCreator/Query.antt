-- ===== src/Http/RequestCreator/Query.antt =====
-- `ProcessQueryString` on every URL. Nothing in the program calls it.
use technopark_highload.Dict.{Dict, put}
use technopark_highload.Http.RequestCreator.{
  query_key, query_value, skip_to_mark, process_query_string,
}
use technopark_highload.Prelude.{
  ℕ, zero, suc, ◌+◌, ◌-◌, ◌<◌, ◌≡◌, refl, ◌∙◌, Option, none, some, [], ◌∷◌, inl, inr, length-drop,
  if◌then◌else◌, arith, leb, length, drop, Option-cases, Bytes,
}
use technopark_highload.Result.{ok, err, out_of_fuel}
use technopark_highload.Text.Search.{drop-drop, substr_within}
use technopark_highload.Text.{find_char, find_char_from}

find_char-drop :
    (b : ℕ) (s : Bytes) (i : ℕ)
    → find_char b s ≡ some i
    → (t : Bytes) × (drop i s ≡ b ∷ t) × (i < length s)
unfolding find_char
find_char-drop b [] i e = cc
find_char-drop b (c ∷ s) zero e = (s, ground arith, omega arith)
find_char-drop b (c ∷ s) (suc i) e =
    let (t, at_i, fits) = find_char-drop b s i (ground arith) in (t, at_i, omega arith)

-- Where a search found the byte, a search from there finds it again.
find_char_from_again :
    (b : ℕ) (s : Bytes) (pos p : ℕ)
    → find_char_from b s pos ≡ some p
    → (t : Bytes) × (drop p s ≡ b ∷ t) × (p < length s) × (find_char_from b s p ≡ some p)
unfolding find_char_from
find_char_from_again b s pos p e = elim (Option-cases (find_char b (drop pos s))) [
  | inl miss ↦ absurd (ground arith)
  | inr (n, hit) ↦
      let (t, at_n, fits) = find_char-drop b (drop pos s) n hit in
      let here : p ≡ pos + n = ground arith in
      let at_p : drop p s ≡ b ∷ t = rw here (rw (drop-drop pos n s) at at_n) in
      let within : p < length s = omega (arith, length-drop pos s) in
      let again : find_char b (b ∷ t) ≡ some 0 = unfold find_char in ground arith in
      (t, at_p, within, ground arith)
]

-- A round starts and ends at the same question mark.
round_stays :
    (fuel : ℕ) (url : Bytes) (pos p : ℕ) (query : Dict)
    → find_char_from b'?' url pos ≡ some p
    → (query' : Dict) × (process_query_string (suc fuel) url pos query
        ≡ process_query_string fuel url p query')
unfolding process_query_string query_key query_value
round_stays fuel url pos p query e =
    let (t, at_p, within, again) = find_char_from_again b'?' url pos p e in
    let stays : skip_to_mark (drop p url) ≡ 0 = rw at_p (unfold skip_to_mark in refl) in
    let moved : p + skip_to_mark (drop p url) ≡ p = omega (arith, stays) in
    elim (Option-cases (find_char_from b'=' url p)) [
      | inl no_key ↦
          let (k, key) = substr_within url (p + 1) none (omega arith) in
          let (v, value) = substr_within url 0 (some (p)) (omega arith) in
          (put k v query, ground arith)
      | inr (q, key_ends) ↦
          let (r, at_q, fits, _) = find_char_from_again b'=' url p q key_ends in
          let (k, key) = substr_within url (p + 1) (some (q - p - 1)) (omega arith) in
          let count : Option ℕ = if leb (q + 1) (p) then some (p - (q + 1)) else none in
          let (v, value) = substr_within url (q + 1) count (omega arith) in
          (put k v query, ground arith)
    ]

loops_from_mark :
    (fuel : ℕ) (url : Bytes) (pos p : ℕ) (query : Dict)
    → find_char_from b'?' url pos ≡ some p
    → process_query_string fuel url pos query ≡ err out_of_fuel
unfolding process_query_string
loops_from_mark zero url pos p query e = refl
loops_from_mark (suc fuel) url pos p query e =
    let (_, _, _, again) = find_char_from_again b'?' url pos p e in
    let (query', round) = round_stays fuel url pos p query e in
    round ∙ loops_from_mark fuel url p p query' again

-- With a question mark in the URL the loop never ends, however much fuel it has; without one it
-- leaves the query as it is.
pub process_query_string_loops :
    (url : Bytes) (query : Dict) (fuel : ℕ)
    → process_query_string (suc fuel) url 0 query
      ≡ elim (find_char b'?' url) [ some _ ↦ err out_of_fuel | none ↦ ok query ]
unfolding process_query_string find_char_from
process_query_string_loops url query fuel = elim (Option-cases (find_char b'?' url)) [
  | inl none_found ↦ ground arith
  | inr (p, found) ↦ loops_from_mark (suc fuel) url 0 p query (ground arith) ∙ ground arith
]
