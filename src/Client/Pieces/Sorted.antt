-- ===== src/Client/Pieces/Sorted.antt =====
-- Inserting keys in their order, as a map is read back.
use technopark_highload.Dict.{Dict, less, lookup, put, insert}
use technopark_highload.Dict.Laws.{Precedes}
use technopark_highload.Prelude.{
  ◌≡◌, refl, true, false, ==_iff, none, [], ◌∷◌, ◌++◌, arith, All, All-append, Bytes,
}
use technopark_highload.Text.{equal}

less-equal : (x y : Bytes) → less x y ≡ true → equal x y ≡ false
unfolding less equal
less-equal [] [] h = cc
less-equal [] (d ∷ y) h = refl
less-equal (c ∷ x) [] h = refl
less-equal (c ∷ x) (d ∷ y) h = ground (arith, less-equal x y, ==_iff c d)

less-less : (x y : Bytes) → less x y ≡ true → less y x ≡ false
unfolding less
less-less [] [] h = refl
less-less [] (d ∷ y) h = refl
less-less (c ∷ x) [] h = cc
less-less (c ∷ x) (d ∷ y) h = ground (arith, less-less x y, ==_iff c d, ==_iff d c)

less_trans : (x y z : Bytes) → less x y ≡ true → less y z ≡ true → less x z ≡ true
unfolding less
less_trans [] [] [] h g = cc
less_trans [] (d ∷ y) [] h g = cc
less_trans [] [] (e ∷ z) h g = refl
less_trans [] (d ∷ y) (e ∷ z) h g = refl
less_trans (c ∷ x) [] z h g = cc
less_trans (c ∷ x) (d ∷ y) [] h g = cc
less_trans (c ∷ x) (d ∷ y) (e ∷ z) h g =
    ground (arith, less_trans x y z, ==_iff c d, ==_iff d e, ==_iff c e)

-- each key is before the last one
abbrev pub AreBefore : Dict → Bytes → Type 0
AreBefore m k = All (λ e. less e.0 k ≡ true) m

-- each key of the first map is before the first key of the second, if there is one
abbrev pub Continues : Dict → Dict → Type 0
Continues before [] = Unit
Continues before ((k, _) ∷ _) = AreBefore before k

AreBefore-less : (m : Dict) (k j : Bytes) → less k j ≡ true → AreBefore m k → AreBefore m j
AreBefore-less [] k j l h = tt
AreBefore-less ((i, v) ∷ m) k j l (below, h) = (less_trans i k j below l, AreBefore-less m k j l h)

pub Continues-nil : (m : Dict) → Continues [] m
Continues-nil [] = tt
Continues-nil ((k, v) ∷ m) = tt

pub Continues-append :
    (before : Dict) (k v : Bytes) (m : Dict)
    → Precedes k m
    → AreBefore before k
    → Continues (before ++ (k, v) ∷ []) m
Continues-append before k v [] l h = tt
Continues-append before k v ((j, w) ∷ m) l h =
    All-append (λ e. less e.0 j ≡ true) before ((k, v) ∷ []) (AreBefore-less before k j l h) (l, tt)

lookup-AreBefore : (k : Bytes) (m : Dict) → AreBefore m k → lookup k m ≡ none
unfolding lookup
lookup-AreBefore k [] h = refl
lookup-AreBefore k ((j, v) ∷ m) (below, h) = rw (less-equal j k below) (lookup-AreBefore k m h)

put-AreBefore : (k v : Bytes) (m : Dict) → AreBefore m k → put k v m ≡ m ++ (k, v) ∷ []
unfolding put
put-AreBefore k v [] h = refl
put-AreBefore k v ((j, w) ∷ m) (below, h) =
    ground (arith, put-AreBefore k v m h, less-equal j k below, less-less j k below)

-- A pair whose key is behind all others is inserted at the end.
pub insert-AreBefore : (k v : Bytes) (m : Dict) → AreBefore m k → insert k v m ≡ m ++ (k, v) ∷ []
unfolding insert
insert-AreBefore k v m h = rw (insert, lookup-AreBefore k m h) (put-AreBefore k v m h)
