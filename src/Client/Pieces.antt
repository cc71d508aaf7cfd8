-- ===== src/Client/Pieces.antt =====
-- HTTPClient.cpp, the static helpers: bodies that are lists, sets or maps of texts.
pub mod RoundTrip
pub mod Sorted
pub mod Maps
use technopark_highload.Dict.{Dict, less, insert}
use technopark_highload.Http.Request.{colon}
use technopark_highload.Prelude.{
  ℕ, zero, suc, ◌+◌, ◌-◌, Option, none, some, List, [], ◌∷◌, ◌++◌, ltb, if◌then◌else◌, length,
  Bytes,
}
use technopark_highload.Result.{Result, ok, err, ◌>>=◌, out_of_fuel}
use technopark_highload.Text.{equal, find, find_from, substr}

-- The piece behind the last separator, unless the text ends there.
unfoldable pub last_piece : Bytes → ℕ → Result (List Bytes)
last_piece s start =
    if ltb start (length s) then (do piece ← substr s start none; ok (piece ∷ [])) else ok []

-- The loop of the three `Split` functions, which differ in what they do with a piece.
unfoldable pub split_loop : ℕ → Bytes → Bytes → ℕ → Result (List Bytes)
unfolding last_piece
split_loop zero separator s start = err out_of_fuel
split_loop (suc fuel) separator s start = elim (find_from separator s start) [
  | none ↦ last_piece s start
  | some end ↦ do
    piece ← substr s start (some (end - start))
    pieces ← split_loop fuel separator s (end + length separator)
    ok (piece ∷ pieces)
]

-- `start` grows by more than the separator in each round: one round more than the text has bytes
-- is enough for a separator that is not empty.
unfoldable pub split_vector_to_queue : Bytes → Bytes → Result (List Bytes)
unfolding split_loop
split_vector_to_queue separator origin = split_loop (suc (length origin)) separator origin 0

-- `std::set<std::string>::insert`
unfoldable pub set_insert : Bytes → List Bytes → List Bytes
set_insert x [] = x ∷ []
set_insert x (y ∷ ys) =
    let rest = set_insert x ys in
    if equal y x then y ∷ ys else if less x y then x ∷ y ∷ ys else y ∷ rest

abbrev pub set_of : List Bytes → List Bytes → List Bytes
set_of [] set = set
set_of (x ∷ xs) set = set_of xs (set_insert x set)

unfoldable pub split_vector_to_set : Bytes → Bytes → Result (List Bytes)
unfolding set_insert
split_vector_to_set separator origin = do
  pieces ← split_vector_to_queue separator origin
  ok (set_of pieces [])

-- `npos + 2` is 1
abbrev pub after_separator : Option ℕ → ℕ
after_separator none = 1
after_separator (some i) = i + 2

unfoldable pub split_pair : Bytes → Bytes → Result (Bytes × Bytes)
split_pair separator pair = do
  key ← substr pair 0 (find separator pair)
  value ← substr pair (after_separator (find separator pair)) none
  ok (key, value)

-- The last pair is always split at `": "`.
unfoldable pub last_pair : Bytes → ℕ → Dict → Result Dict
unfolding split_pair
last_pair s start result =
    if ltb start (length s)
    then (do pair ← substr s start none; (k, v) ← split_pair colon pair; ok (insert k v result))
    else ok result

unfoldable pub split_map_loop : ℕ → Bytes → Bytes → Bytes → ℕ → Dict → Result Dict
unfolding last_pair split_pair
split_map_loop zero separator pair_separator s start result = err out_of_fuel
split_map_loop (suc fuel) separator pair_separator s start result =
    elim (find_from separator s start) [
      | none ↦ last_pair s start result
      | some end ↦ do
        pair ← substr s start (some (end - start))
        (k, v) ← split_pair pair_separator pair
        split_map_loop fuel separator pair_separator s (end + length separator) (insert k v result)
    ]

unfoldable pub split_vector_to_map : Bytes → Bytes → Bytes → Result Dict
unfolding split_map_loop
split_vector_to_map separator pair_separator origin =
    split_map_loop (suc (length origin)) separator pair_separator origin 0 []

-- Each round prints the front and moves it to the back.
unfoldable pub merge_loop : ℕ → Bytes → List Bytes → Bytes → Bytes × List Bytes
merge_loop zero separator queue result = (result, queue)
merge_loop (suc n) separator [] result = (result, [])
merge_loop (suc n) separator (x ∷ queue) result =
    merge_loop n separator (queue ++ x ∷ []) ((result ++ x) ++ separator)

-- the vector, and the queue as it is left
unfoldable pub merge_queue_to_vector : Bytes → List Bytes → Bytes × List Bytes
unfolding merge_loop
merge_queue_to_vector separator queue = merge_loop (length queue) separator queue []

unfoldable pub merge_set_to_vector : Bytes → List Bytes → Bytes
merge_set_to_vector separator [] = []
merge_set_to_vector separator (x ∷ xs) = x ++ (separator ++ merge_set_to_vector separator xs)

unfoldable pub merge_map_to_vector : Bytes → Bytes → Dict → Bytes
merge_map_to_vector separator pair_separator [] = []
merge_map_to_vector separator pair_separator ((k, v) ∷ m) =
    k ++ (pair_separator ++ (v ++ (separator ++ merge_map_to_vector separator pair_separator m)))
