-- ===== src/Dict.antt =====
-- `std::map<std::string, std::string>`: the pairs in the order of their keys, which is the order
-- in which the code iterates over it when it prints headers.
pub mod Laws
use technopark_highload.Prelude.{
  ℕ, Bool, true, false, ◌||◌, ◌&&◌, Option, none, some, List, [], ◌∷◌, ltb, ◌==◌, if◌then◌else◌,
  Bytes,
}
use technopark_highload.Result.{Result, ok, err, out_of_range}
use technopark_highload.Text.{equal}

abbrev pub Dict : Type 0
Dict = List (Bytes × Bytes)

-- `operator<` of the keys
unfoldable pub less : Bytes → Bytes → Bool
less [] [] = false
less [] (y ∷ ys) = true
less (x ∷ xs) [] = false
less (x ∷ xs) (y ∷ ys) = ltb x y || (x == y && less xs ys)

-- `m.find(k)`
unfoldable pub lookup : Bytes → Dict → Option Bytes
lookup k [] = none
lookup k ((j, v) ∷ m) = if equal j k then some v else lookup k m

-- `m[k] = v`
unfoldable pub put : Bytes → Bytes → Dict → Dict
put k v [] = (k, v) ∷ []
put k v ((j, w) ∷ m) =
    let rest = put k v m in
    if equal j k then (j, v) ∷ m else if less k j then (k, v) ∷ (j, w) ∷ m else (j, w) ∷ rest

-- `m.insert({k, v})` leaves a key alone that is there already
unfoldable pub insert : Bytes → Bytes → Dict → Dict
unfolding lookup put
insert k v m = elim (lookup k m) [ some _ ↦ m | none ↦ put k v m ]

-- `m.at(k)`
unfoldable pub at : Dict → Bytes → Result Bytes
unfolding lookup
at m k = elim (lookup k m) [ some v ↦ ok v | none ↦ err out_of_range ]

abbrev pub or_empty : Option Bytes → Bytes
or_empty none = []
or_empty (some v) = v

-- `m[k]` as a value puts an empty text under a missing key
unfoldable pub index : Bytes → Dict → Bytes × Dict
unfolding lookup insert
index k m = (or_empty (lookup k m), insert k [] m)
