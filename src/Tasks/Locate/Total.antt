-- ===== src/Tasks/Locate/Total.antt =====
-- Every URL names a file: no position that the code computes lies outside it.
use technopark_highload.Prelude.{
  ℕ, suc, ◌≤◌, ◌<◌, ◌≡◌, refl, Option, none, some, [], ◌∷◌, ◌++◌, arith, length, length-take, take,
  Option-cases, inl, inr, if◌then◌else◌, Bytes, codes,
}
use technopark_highload.Http.Headers.{is_empty}
use technopark_highload.Result.{ok}
use technopark_highload.Tasks.Locate.{
  Location, index_html, after_slash, name_count, locate_file, locate,
}
use technopark_highload.Text.Search.{substr_within}
use technopark_highload.Text.{find_char, rfind_char, rfind_char_upto}

rfind_char-lt : (b : ℕ) (s : Bytes) {i : ℕ} → rfind_char b s ≡ some i → i < length s
unfolding rfind_char
rfind_char-lt b [] e = cc
rfind_char-lt b (c ∷ s) e = elim (Option-cases (rfind_char b s)) [
  | inl missing ↦ ground arith
  | inr (j, found) ↦ ground (arith, rfind_char-lt b s found)
]

rfind_char_upto-lt :
    (b : ℕ) (s : Bytes) (pos : Option ℕ) {i : ℕ} → rfind_char_upto b s pos ≡ some i → i < length s
unfolding rfind_char_upto
rfind_char_upto-lt b s none e = rfind_char-lt b s e
rfind_char_upto-lt b s (some pos) e =
    omega (arith, rfind_char-lt b (take (suc pos) s) e, length-take (suc pos) s)

after_slash-le :
    (b : ℕ) (s : Bytes) (pos : Option ℕ) → after_slash (rfind_char_upto b s pos) ≤ length s
after_slash-le b s pos = elim (Option-cases (rfind_char_upto b s pos)) [
  | inl missing ↦ rw missing (omega arith)
  | inr (i, found) ↦ let inside = rfind_char_upto-lt b s pos found in rw found (omega arith)
]

locate_file_total :
    (root url : Bytes) (query : Option ℕ) (dot : ℕ)
    → dot < length url
    → (l : Location) × (locate_file root url query dot ≡ ok l)
unfolding locate_file
locate_file_total root url query dot inside =
    let slash = rfind_char_upto b'/' url (some dot) in
    let (name, read) =
      substr_within url (after_slash slash) (name_count query slash)
        (after_slash-le b'/' url (some dot)) in
    let (folder, in_front) = substr_within url 1 slash (omega arith) in
    (
      record {
        path = root ++ (codes "/" ++ folder);
        filename = if is_empty name then index_html else name;
      },
      rw (read, in_front) refl,
    )

-- `MainProcessBasic` finds a path and a name for every URL, and never throws on the way.
pub locate_total : (root url : Bytes) → (l : Location) × (locate root url ≡ ok l)
unfolding locate
locate_total root url = elim (Option-cases (rfind_char_upto b'.' url (find_char b'?' url))) [
  | inl missing ↦ (record { path = url; filename = index_html }, rw (locate, missing) refl)
  | inr (dot, found) ↦
      let (l, located) =
        locate_file_total root url (find_char b'?' url) dot
          (rfind_char_upto-lt b'.' url (find_char b'?' url) found) in
      (l, rw (locate, found) located)
]
