-- ===== src/Http/Request/Ends.antt =====
-- The loops of `HttpRequest`'s constructor end on every message, whatever it holds.
use technopark_highload.Dict.{Dict}
use technopark_highload.Http.Method.{RequestMethod, string_to_request_method}
use technopark_highload.Http.Request.{
  parse, parse_target, parse_version, parse_headers, colon, is_return, ends_url, is_unknown,
  after_space,
}
use technopark_highload.Prelude.{
  ℕ, zero, suc, ◌+◌, ◌-◌, ◌≤◌, ◌<◌, ◌≡◌, ◌≢◌, refl, inl, inr, Bool, true, false, ◌==◌, leb, Option,
  none, some, [], ◌∷◌, arith, if◌then◌else◌, length, length-drop, drop, Option-cases, Bool-cases,
  Bytes, codes,
}
use technopark_highload.Result.{Result, ok, err, ◌>>=◌, out_of_fuel, Result-cases}
use technopark_highload.Text.{find, find_from, find_char, substr, scan, scan_from}

-- What the model's fuel covers.
abbrev pub Ends : {T : Type 0} → Result T → Type 0
Ends (err e) = e ≢ out_of_fuel
Ends (ok t) = Unit

pub bind-Ends :
    {T U : Type 0} (r : Result T) (next : T → Result U)
    → Ends r
    → ((t : T) → r ≡ ok t → Ends (next t))
    → Ends (r >>= next)
bind-Ends (err e) next h later = h
bind-Ends (ok t) next h later = later t refl

pub if-Ends : {T : Type 0} (b : Bool) (x y : Result T) → Ends x → Ends y → Ends (if b then x else y)
if-Ends true x y p q = p
if-Ends false x y p q = q

substr-Ends : (s : Bytes) (pos : ℕ) (count : Option ℕ) → Ends (substr s pos count)
unfolding substr
substr-Ends s pos none = if-Ends (leb pos (length s)) _ _ tt (λ e. cc)
substr-Ends s pos (some n) = if-Ends (leb pos (length s)) _ _ tt (λ e. cc)

scan-Ends : (stop : ℕ → Bool) (s : Bytes) → Ends (scan stop s)
unfolding scan
scan-Ends stop [] = λ e. cc
scan-Ends stop (c ∷ s) = elim (Bool-cases (stop c)) [
  | inl stops ↦ rw (scan, stops) tt
  | inr goes ↦ elim (Result-cases (scan stop s)) [
    | inl (e, thrown) ↦ rw (scan, goes, thrown) (rw thrown at (scan-Ends stop s))
    | inr (i, found) ↦ rw (scan, goes, found) tt
  ]
]

scan_bound : (stop : ℕ → Bool) (s : Bytes) (i : ℕ) → scan stop s ≡ ok i → i < length s
unfolding scan
scan_bound stop [] i e = cc
scan_bound stop (c ∷ s) i e = elim (Bool-cases (stop c)) [
  | inl stops ↦ ground arith
  | inr goes ↦ elim (Result-cases (scan stop s)) [
    | inl (x, thrown) ↦ ground arith
    | inr (j, found) ↦ let within = scan_bound stop s j found in ground arith
  ]
]

scan_from-Ends : (stop : ℕ → Bool) (s : Bytes) (i : ℕ) → Ends (scan_from stop s i)
unfolding scan_from
scan_from-Ends stop s i = elim (Bool-cases (leb i (length s))) [
  | inr behind ↦ rw behind (λ e. cc)
  | inl within ↦ elim (Result-cases (scan stop (drop i s))) [
    | inl (e, thrown) ↦ rw (within, thrown) (rw thrown at (scan-Ends stop (drop i s)))
    | inr (n, found) ↦ rw (within, found) tt
  ]
]

scan_from_bounds :
    (stop : ℕ → Bool) (s : Bytes) (i j : ℕ) → scan_from stop s i ≡ ok j → (i ≤ j) × (j < length s)
unfolding scan_from
scan_from_bounds stop s i j e = elim (Bool-cases (leb i (length s))) [
  | inr behind ↦ ground arith
  | inl within ↦ elim (Result-cases (scan stop (drop i s))) [
    | inl (x, thrown) ↦ ground arith
    | inr (n, found) ↦
        let bound = scan_bound stop (drop i s) n found in
        let size = length-drop i s in
        let sum : j ≡ i + n = ground arith in (omega arith, ground arith)
  ]
]

find_from_bound : (pat s : Bytes) (i p : ℕ) → find_from pat s i ≡ some p → i ≤ p
unfolding find_from
find_from_bound pat s i p e = elim (Option-cases (find pat (drop i s))) [
  | inl missing ↦ ground arith
  | inr (n, found) ↦ ground arith
]

module _ (message : Bytes) where
  parse_headers-Ends :
      (fuel i : ℕ) (m : Dict)
      → i ≤ length message + 2
      → length message + 2 < fuel + i
      → Ends (parse_headers fuel message i m)
  unfolding parse_headers
  parse_headers-Ends zero i m h enough = absurd (omega arith)
  parse_headers-Ends (suc fuel) i m h enough = elim (Option-cases (find_from colon message i)) [
    | inl missing ↦ rw (parse_headers, missing) tt
    | inr (p, found) ↦
        let up = find_from_bound colon message i p found in
        rw (parse_headers, found)
          (bind-Ends (substr message i (some (p - i))) _ (substr-Ends message i (some (p - i)))
            (λ key read.
              bind-Ends (scan_from is_return message (p + 2)) _
                (scan_from-Ends is_return message (p + 2))
                (λ j scanned.
                  let bounds = scan_from_bounds is_return message (p + 2) j scanned in
                  bind-Ends (substr message (p + 2) (some (j - (p + 2)))) _
                    (substr-Ends message (p + 2) (some (j - (p + 2))))
                    (λ v cut. parse_headers-Ends fuel (j + 2) _ (omega arith) (omega arith)))))
  ]

  parse_version-Ends : (i : ℕ) → Ends (parse_version message i)
  unfolding parse_version
  parse_version-Ends i = elim (Option-cases (find_from (codes "HTTP/") message (i - 1))) [
    | inl missing ↦ rw (parse_version, missing) tt
    | inr (p, found) ↦
        rw (parse_version, found)
          (bind-Ends (scan_from is_return message (p + 5)) _
            (scan_from-Ends is_return message (p + 5))
            (λ j scanned.
              bind-Ends (substr message (p + 5) (some (j - (p + 5)))) _
                (substr-Ends message (p + 5) (some (j - (p + 5)))) (λ v cut. tt)))
  ]

  -- behind the version the message is not left by more than one byte
  parse_version_bound :
      (i : ℕ) (v : Bytes) (j : ℕ)
      → i ≤ length message
      → parse_version message i ≡ ok (v, j)
      → j ≤ length message
  unfolding parse_version
  parse_version_bound i v j h e = elim (Option-cases (find_from (codes "HTTP/") message (i - 1))) [
    | inl missing ↦ ground arith
    | inr (p, found) ↦ elim (Result-cases (scan_from is_return message (p + 5))) [
      | inl (x, thrown) ↦ ground arith
      | inr (k, scanned) ↦
          let bounds = scan_from_bounds is_return message (p + 5) k scanned in
          elim (Result-cases (substr message (p + 5) (some (k - (p + 5))))) [
            | inl (x, thrown) ↦ ground arith
            | inr (t, cut) ↦ let same : j ≡ k = ground arith in omega arith
          ]
    ]
  ]

  parse_target-Ends : (method : RequestMethod) (pos : ℕ) → Ends (parse_target method message pos)
  unfolding parse_target
  parse_target-Ends method pos =
      bind-Ends (scan_from ends_url message pos) _ (scan_from-Ends ends_url message pos)
        (λ i scanned.
          let bounds = scan_from_bounds ends_url message pos i scanned in
          if-Ends (i == pos) _ _ (λ e. cc)
            (bind-Ends (substr message pos (some (i - pos))) _
              (substr-Ends message pos (some (i - pos)))
              (λ url cut.
                bind-Ends (parse_version message (i + 1)) _ (parse_version-Ends (i + 1))
                  (λ read version.
                    let fits = parse_version_bound (i + 1) read.0 read.1 (omega arith) version in
                    bind-Ends (parse_headers (suc (length message)) message (read.1 + 2) []) _
                      (parse_headers-Ends (suc (length message)) (read.1 + 2) [] (omega arith)
                        (omega arith))
                      (λ headers parsed. tt)))))

  -- On no message does a loop of the constructor go on for ever: the fuel is enough, whether the
  -- message is parsed, is refused, or is read behind its end.
  pub parse-Ends : Ends (parse message)
  unfolding parse
  parse-Ends =
      bind-Ends (substr message 0 (find_char b' ' message)) _
        (substr-Ends message 0 (find_char b' ' message))
        (λ name cut.
          if-Ends (is_unknown (string_to_request_method name)) _ _ (λ e. cc)
            (parse_target-Ends (string_to_request_method name)
              (after_space (find_char b' ' message))))
