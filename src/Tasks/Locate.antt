-- ===== src/Tasks/Locate.antt =====
-- `MainProcessBasic`: from the URL to the name of the file.
pub mod Root
pub mod Total
use technopark_highload.Prelude.{
  ℕ, suc, ◌+◌, ◌-◌, Bool, Option, none, some, [], ◌∷◌, ◌++◌, if◌then◌else◌, Bytes, codes,
}
use technopark_highload.Http.Headers.{is_empty}
use technopark_highload.Result.{Result, ok, err, ◌>>=◌}
use technopark_highload.Text.{find_char, rfind_char_upto, substr}

pub record Location : Type 0 where
  pub path : Bytes
  pub filename : Bytes

-- `npos + 1` is 0
abbrev pub after_slash : Option ℕ → ℕ
after_slash none = 0
after_slash (some slash) = suc slash

-- `queryStartPos - finalSlashPos - 1`: to the end of the URL without a query, and `npos` taken
-- away with 1 takes nothing away
abbrev pub name_count : Option ℕ → Option ℕ → Option ℕ
name_count none slash = none
name_count (some query) none = some query
name_count (some query) (some slash) = some (query - slash - 1)

abbrev pub index_html : Bytes
index_html = codes "index.html"

-- the branch with a dot at position `dot`
unfoldable pub locate_file : Bytes → Bytes → Option ℕ → ℕ → Result Location
locate_file root url query dot = do
  let slash = rfind_char_upto b'/' url (some dot)
  name ← substr url (after_slash slash) (name_count query slash)
  folder ← substr url 1 slash
  ok (record {
    path = root ++ (codes "/" ++ folder);
    filename = if is_empty name then index_html else name;
  })

-- Without a dot before the query the URL itself is the path: the document root is left out, and the
-- query is not.
unfoldable pub locate : Bytes → Bytes → Result Location
unfolding locate_file
locate root url = elim (rfind_char_upto b'.' url (find_char b'?' url)) [
  | some dot ↦ locate_file root url (find_char b'?' url) dot
  | none ↦ ok (record { path = url; filename = index_html })
]
