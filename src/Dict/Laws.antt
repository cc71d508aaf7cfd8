-- ===== src/Dict/Laws.antt =====
-- What a reader of the map sees after a write, and that the pairs stay in order.
use technopark_highload.Prelude.{
  ◌≡◌, refl, true, false, Option, none, some, [], ◌∷◌, arith, if◌then◌else◌, Bytes,
}
use technopark_highload.Text.Laws.{equal_iff, equal_self}
use technopark_highload.Text.{equal}
use technopark_highload.Dict.{Dict, less, lookup, put, insert}

pub lookup-put :
    (k q : Bytes) (v : Bytes) (m : Dict)
    → lookup q (put k v m) ≡ (if equal k q then some v else lookup q m)
unfolding lookup put
lookup-put k q v [] = refl
lookup-put k q v ((j, w) ∷ m) =
    ground (arith, equal_iff k q, equal_iff j k, equal_iff j q, lookup-put k q v m)

abbrev pub or_else : Option Bytes → Bytes → Option Bytes
or_else none v = some v
or_else (some w) v = some w

pub lookup-insert :
    (k q : Bytes) (v : Bytes) (m : Dict)
    → lookup q (insert k v m) ≡ (if equal k q then or_else (lookup k m) v else lookup q m)
unfolding insert
lookup-insert k q v m = ground (arith, equal_iff k q, lookup-put k q v m)

pub lookup-insert_self : (k v : Bytes) (m : Dict) → lookup k (insert k v m) ≡ or_else (lookup k m) v
lookup-insert_self k v m = rw (lookup-insert k k v m) (rw (equal_self k))

pub less_total : (a b : Bytes) → equal a b ≡ false → less b a ≡ false → less a b ≡ true
unfolding equal less
less_total (x ∷ xs) (y ∷ ys) e l = ground (arith, less_total xs ys)
less_total _ _ e l = ground arith

-- The first key of `m`, if there is one, is behind `k`.
abbrev pub Precedes : Bytes → Dict → Type 0
Precedes k [] = Unit
Precedes k ((j, _) ∷ _) = less k j ≡ true

abbrev pub IsSorted : Dict → Type 0
IsSorted [] = Unit
IsSorted ((k, _) ∷ m) = Precedes k m × IsSorted m

Precedes-put : (j k v : Bytes) (m : Dict) → less j k ≡ true → Precedes j m → Precedes j (put k v m)
unfolding put
Precedes-put j k v [] l p = l
Precedes-put j k v ((i, w) ∷ m) l p = ground (arith, equal_iff i k)

-- A write keeps the pairs in the order of their keys.
pub put-IsSorted : (k v : Bytes) (m : Dict) → IsSorted m → IsSorted (put k v m)
unfolding put
put-IsSorted k v [] s = (tt, tt)
put-IsSorted k v ((j, w) ∷ m) (p, s) =
    ground (arith, put-IsSorted k v m s, Precedes-put j k v m, less_total j k)

pub insert-IsSorted : (k v : Bytes) (m : Dict) → IsSorted m → IsSorted (insert k v m)
unfolding insert
insert-IsSorted k v m s = ground (arith, put-IsSorted k v m s)
