-- ===== src/Tests/Site.antt =====
-- A file cache that forgets nothing, and a site with one file.
use technopark_highload.Dict.Laws
use technopark_highload.Dict.{Dict, lookup, put}
use technopark_highload.Prelude.{
  ◌≡◌, refl, sym, ◌∙◌, ◌⊎◌, Option, none, some, [], arith, if◌then◌else◌, length, ◌<◌, ◌^◌, Bytes,
  codes,
}
use technopark_highload.Tasks.FileCache.{FileCache, IsCoherent}
use technopark_highload.Text.Laws.{equal_iff}
use technopark_highload.Text.{equal}

pub lookup-put_either :
    (c : Dict) (k v q w : Bytes)
    → lookup q (put k v c) ≡ some w
    → ((k ≡ q) × (v ≡ w)) ⊎ (lookup q c ≡ some w)
lookup-put_either c k v q w e =
    let found = sym (Laws.lookup-put k q v c) ∙ e in ground (arith, equal_iff k q)

abbrev pub unbounded : FileCache
unbounded = record {
  Cache = Dict;
  lookup = λ c k. lookup k c;
  touch = λ c k. c;
  put = λ c k v. put k v c;
  lookup-touch = λ c k q. refl;
  lookup-put = lookup-put_either;
}

abbrev pub script : Bytes
script = codes "let x"

unfoldable pub files : Bytes → Option Bytes
files name = if equal name (codes "/srv/a.js") then some script else none

pub empty-IsCoherent_of : (f : Bytes → Option Bytes) → IsCoherent unbounded f []
unfolding lookup
empty-IsCoherent_of f k v e = cc

pub empty-IsCoherent : IsCoherent unbounded files []
empty-IsCoherent = empty-IsCoherent_of files

pub files_small : (name content : Bytes) → files name ≡ some content → length content < 2 ^ 31
unfolding files
files_small name content e = ground arith
