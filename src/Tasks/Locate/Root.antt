-- ===== src/Tasks/Locate/Root.antt =====
-- Where the file of a URL is looked for, in relation to the document root.
use technopark_highload.Http.ContentType.Table.{rfind_char-append}
use technopark_highload.Http.Headers.{is_empty}
use technopark_highload.Prelude.{
  ℕ, suc, ◌+◌, ◌-◌, ◌≡◌, ◌≢◌, refl, false, Option, none, some, [], ◌∷◌, ◌++◌, append_assoc,
  append-nil, arith, length, length-append, take, take-append, drop, All-append, Lacks, Bytes,
  codes,
}
use technopark_highload.Result.{ok}
use technopark_highload.Tasks.Locate.{Location, name_count, locate_file, locate}
use technopark_highload.Text.Laws.{At, substr-At, find_char-append, substr_rest-At}
use technopark_highload.Text.{find_char, rfind_char_upto, substr}

find_char-none : (b : ℕ) (s : Bytes) → Lacks b s → find_char b s ≡ none
unfolding find_char
find_char-none b [] h = refl
find_char-none b (c ∷ s) (ne, h) = ground (arith, find_char-none b s h)

-- The query with its question mark, if there is one.
abbrev pub query_text : Option Bytes → Bytes
query_text none = []
query_text (some q) = b'?' ∷ q

-- A URL: a folder, a slash, a name that is split at its last dot, and a query.
module _ (folder base ext : Bytes) where
  abbrev pub name : Bytes
  name = base ++ b'.' ∷ ext

  abbrev pub stem : Bytes
  stem = folder ++ b'/' ∷ name

  abbrev to_dot : Bytes
  to_dot = folder ++ b'/' ∷ base

  stem_at_dot : stem ≡ to_dot ++ b'.' ∷ ext
  stem_at_dot = simp append_assoc

  length-stem : length stem ≡ length folder + 1 + length name
  length-stem = omega (arith, length-append folder (b'/' ∷ name))

  -- The last slash up to the dot is the one before the name.
  last_slash :
      (rest : Bytes)
      → Lacks b'/' base
      → rfind_char_upto b'/' (stem ++ rest) (some (length to_dot)) ≡ some (length folder)
  unfolding rfind_char_upto
  last_slash rest clean =
      let closed = to_dot ++ b'.' ∷ [] in
      let regrouped : stem ++ rest ≡ closed ++ (ext ++ rest) = simp append_assoc in
      let size : suc (length to_dot) ≡ length closed =
        omega (arith, length-append to_dot (b'.' ∷ [])) in
      let cut : take (suc (length to_dot)) (stem ++ rest) ≡ closed =
        rw (size, regrouped) (take-append closed (ext ++ rest)) in
      let split : closed ≡ folder ++ b'/' ∷ (base ++ b'.' ∷ []) = simp append_assoc in
      rw cut (
        rw split (
          rfind_char-append b'/' folder (base ++ b'.' ∷ [])
            (All-append (λ c. c ≢ b'/') base (b'.' ∷ []) clean (omega arith))))

  -- The last dot before the query is the one in the name.
  last_dot :
      (query : Option Bytes)
      → Lacks b'?' stem
      → Lacks b'.' ext
      → (rfind_char_upto b'.' (stem ++ query_text query) (find_char b'?' (stem ++ query_text query))
          ≡ some (length to_dot))
  unfolding rfind_char_upto
  last_dot none clean dot =
      rw append-nil (
        rw (find_char-none b'?' stem clean)
          (rw stem_at_dot (rfind_char-append b'.' to_dot ext dot)))
  last_dot (some q) clean dot =
      let closed = stem ++ b'?' ∷ [] in
      let regrouped : stem ++ b'?' ∷ q ≡ closed ++ q = simp append_assoc in
      let size : suc (length stem) ≡ length closed =
        omega (arith, length-append stem (b'?' ∷ [])) in
      let cut : take (suc (length stem)) (stem ++ b'?' ∷ q) ≡ closed =
        rw (size, regrouped) (take-append closed q) in
      let split : closed ≡ to_dot ++ b'.' ∷ (ext ++ b'?' ∷ []) = simp append_assoc in
      rw (find_char-append b'?' stem q clean) (
        rw cut (
          rw split (
            rfind_char-append b'.' to_dot (ext ++ b'?' ∷ [])
              (All-append (λ c. c ≢ b'.') ext (b'?' ∷ []) dot (omega arith)))))

  behind_slash : (rest : Bytes) → At (stem ++ rest) (suc (length folder)) (name ++ rest)
  behind_slash rest = record {
    before = folder ++ b'/' ∷ [];
    splits = simp append_assoc;
    position = omega (arith, length-append folder (b'/' ∷ []));
  }

  name_read :
      (query : Option Bytes)
      → Lacks b'?' stem
      → substr
          (stem ++ query_text query)
          (suc (length folder))
          (name_count (find_char b'?' (stem ++ query_text query)) (some (length folder)))
        ≡ ok name
  name_read none clean = rw append-nil (
      rw (find_char-none b'?' stem clean)
        (substr_rest-At (rw append-nil at (rw append-nil at (behind_slash [])))))
  name_read (some q) clean = rw (find_char-append b'?' stem q clean) (
      substr-At name (b'?' ∷ q) (length stem - length folder - 1) (omega (arith, length-stem))
        (behind_slash (b'?' ∷ q)))

-- `url.substr(1, slash)`: the folder with its slash, less the URL's first byte
folder_read :
    (folder rest : Bytes)
    → substr (folder ++ b'/' ∷ rest) 1 (some (length folder)) ≡ ok (drop 1 (folder ++ b'/' ∷ []))
folder_read [] rest =
    substr-At [] rest 0 refl (record { before = b'/' ∷ []; splits = refl; position = refl })
folder_read (c ∷ folder) rest =
    substr-At (folder ++ b'/' ∷ []) rest (suc (length folder))
      (omega (arith, length-append folder (b'/' ∷ [])))
      (record { before = c ∷ []; splits = simp append_assoc; position = refl })

is_empty_name : (base ext : Bytes) → is_empty (base ++ b'.' ∷ ext) ≡ false
is_empty_name [] ext = refl
is_empty_name (c ∷ base) ext = refl

-- A URL whose name has a dot and no slash: the file is the one of that name under the document
-- root, a slash, and the URL's folder less its first byte, whatever that byte is. The query is
-- dropped.
pub locate-stem :
    (root folder base ext : Bytes) (query : Option Bytes)
    → Lacks b'?' (stem folder base ext)
    → Lacks b'/' base
    → Lacks b'.' ext
    → locate root (stem folder base ext ++ query_text query)
      ≡ ok (record {
        path = root ++ (codes "/" ++ drop 1 (folder ++ b'/' ∷ []));
        filename = name folder base ext;
      })
unfolding locate locate_file
locate-stem root folder base ext query clean slash dot =
    let url = stem folder base ext ++ query_text query in
    let found = last_dot folder base ext query clean dot in
    let slashed = last_slash folder base ext (query_text query) slash in
    let named = name_read folder base ext query clean in
    let regrouped : folder ++ b'/' ∷ (name folder base ext ++ query_text query) ≡ url =
      simp append_assoc in
    let in_folder =
      rw regrouped at (folder_read folder (name folder base ext ++ query_text query)) in
    let filled = is_empty_name base ext in ground arith

-- The text before the last slash of a URL that starts with a slash.
abbrev pub folder_of : Option Bytes → Bytes
folder_of none = []
folder_of (some f) = b'/' ∷ f

-- A URL that starts with a slash, `/base.ext` or `/folder/base.ext`, with or without a query, where
-- this is split at the last dot before the query and at the last slash before that dot: the file is
-- the one of that name under the document root.
pub locate-under_root :
    (root : Bytes) (folder : Option Bytes) (base ext : Bytes) (query : Option Bytes)
    → Lacks b'?' (stem (folder_of folder) base ext)
    → Lacks b'/' base
    → Lacks b'.' ext
    → (l : Location) × (locate root (stem (folder_of folder) base ext ++ query_text query) ≡ ok l)
      × (l.path ++ l.filename ≡ root ++ stem (folder_of folder) base ext)
locate-under_root root none base ext query clean slash dot =
    (_, locate-stem root [] base ext query clean slash dot, simp append_assoc)
locate-under_root root (some folder) base ext query clean slash dot =
    (_, locate-stem root (b'/' ∷ folder) base ext query clean slash dot, simp append_assoc)
