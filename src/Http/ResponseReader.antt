-- ===== src/Http/ResponseReader.antt =====
-- src/HttpResponseReader.cpp: reads the status and the headers of a response.
pub mod Status
pub mod Headers
pub mod RoundTrip
use technopark_highload.Decimal.{is_digit, stoi}
use technopark_highload.Dict.{Dict, lookup, put, at, or_empty}
use technopark_highload.Http.Request.{colon, or_zero}
use technopark_highload.Prelude.Int.{clamp}
use technopark_highload.Prelude.{
  ℕ, zero, suc, ◌+◌, ◌-◌, Bool, true, false, Option, none, some, [], ◌∷◌, ltb, if◌then◌else◌,
  length, take, Bytes, codes,
}
use technopark_highload.Result.{
  Result, ok, err, ◌>>=◌, out_of_range, undefined_behaviour, out_of_fuel,
}
use technopark_highload.Text.{find_from, find_char, find_char_from, substr}

pub record HttpResponseReader : Type 0 where
  pub headers : Dict
  pub return_code : Bytes

-- the last digit of a text: where `while (!std::isdigit(message[start])) --start;` ends
unfoldable pub last_digit : Bytes → Option ℕ
last_digit [] = none
last_digit (c ∷ s) = elim (last_digit s) [
  | some i ↦ some (suc i)
  | none ↦ if is_digit c then some 0 else none
]

-- With no digit before the line end the loop reads in front of the text; with no line end it
-- starts at `npos`. `start - 2` wraps to a position that `substr` refuses.
unfoldable pub get_return_code : Bytes → Result Bytes
unfolding last_digit
get_return_code message = elim (find_char b'\r' message) [
  | none ↦ err undefined_behaviour
  | some end ↦ elim (last_digit (take end message)) [
    | none ↦ err undefined_behaviour
    | some start ↦
        if ltb start 2
        then err out_of_range
        else substr message (start - 2) (some (end - start + 1))
  ]
]

-- `npos + 2` is 1
abbrev pub after_line : Option ℕ → ℕ
after_line none = 1
after_line (some i) = i + 2

-- with `npos` for `search` the count is past the end
abbrev pub count_to : ℕ → Option ℕ → Option ℕ
count_to pos none = none
count_to pos (some search) = some (search - pos)

-- The loop of `ExtractHeaders`.
unfoldable pub extract_loop : ℕ → Bytes → ℕ → Dict → Result Dict
extract_loop zero message search result = err out_of_fuel
extract_loop (suc fuel) message search result = elim (find_from colon message search) [
  | none ↦ ok result
  | some pos ↦ do
    name ← substr message search (some (pos - search))
    let line_end = find_char_from b'\r' message (pos + 2)
    value ← substr message (pos + 2) (count_to (pos + 2) line_end)
    extract_loop fuel message (after_line line_end) (put name value result)
]

-- One more round than the message has bytes is enough where every header ends in a line end.
unfoldable pub extract_headers : Bytes → Result Dict
unfolding extract_loop
extract_headers message =
    extract_loop (suc (length message)) message (after_line (find_char b'\r' message)) []

-- the constructor
unfoldable pub read : Bytes → Result HttpResponseReader
read message = do
  code ← get_return_code message
  headers ← extract_headers message
  ok (record { headers = headers; return_code = code })

unfoldable pub get_header_value : HttpResponseReader → Bytes → Bytes
get_header_value r name = or_empty (lookup name r.headers)

unfoldable pub get_content_length : HttpResponseReader → Result ℕ
get_content_length r =
    or_zero (do text ← at r.headers (codes "Content-Length"); n ← stoi text; ok (clamp n))
