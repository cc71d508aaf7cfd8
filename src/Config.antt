-- ===== src/Config.antt =====
-- src/main.cpp: the configuration file, read into two variables of the environment.
pub mod Settings
use technopark_highload.Decimal.{is_space}
use technopark_highload.Http.ContentType.{until_nul, hash, is}
use technopark_highload.Http.Headers.{is_empty}
use technopark_highload.Prelude.{
  ℕ, ◌-◌, Bool, true, false, ◌&&◌, Option, none, some, List, [], ◌∷◌, ◌++◌, leb, ◌==◌,
  if◌then◌else◌, Bytes, codes,
}
use technopark_highload.Result.{Result, ok, err, ◌>>=◌, undefined_behaviour}

-- `DOCUMENT_ROOT` and `CPU_LIMIT` in the environment
pub record Environment : Type 0 where
  pub document_root : Bytes
  pub cpu_limit : Bytes

abbrev pub defaults : Environment
defaults = record { document_root = codes "./static/"; cpu_limit = codes "4" }

-- `::toupper` in the C locale, and `toUpperCase`
abbrev pub upper : ℕ → ℕ
upper c = if leb b'a' c && leb c b'z' then c - 32 else c

abbrev pub to_upper_case : Bytes → Bytes
to_upper_case [] = []
to_upper_case (c ∷ s) = upper c ∷ to_upper_case s

-- The lines that `std::getline` reads; the first argument is what has been read of the line.
unfoldable pub lines : Bytes → Bytes → List Bytes
lines line [] = if is_empty line then [] else line ∷ []
lines line (c ∷ s) = elim (c == 10) [ true ↦ line ∷ lines [] s | false ↦ lines (line ++ c ∷ []) s ]

-- The words that an `istream_iterator<std::string>` reads.
unfoldable pub words : Bytes → Bytes → List Bytes
words word [] = if is_empty word then [] else word ∷ []
words word (c ∷ s) = elim (is_space c) [
  | true ↦ elim (is_empty word) [ true ↦ words [] s | false ↦ word ∷ words [] s ]
  | false ↦ words (word ++ c ∷ []) s
]

-- `tokens[1].c_str()`, of the words behind the first; there may be none
unfoldable pub value_of : List Bytes → Result Bytes
value_of [] = err undefined_behaviour
value_of (v ∷ _) = ok (until_nul v)

-- The `switch` over the hash of the first word; a line without a word is read out of bounds.
unfoldable pub read_line : List Bytes → Environment → Result Environment
unfolding value_of
read_line [] env = err undefined_behaviour
read_line (key ∷ rest) env =
    let label = until_nul (to_upper_case key) in
    if is label (codes "DOCUMENT_ROOT")
    then (do value ← value_of rest; ok (record env { document_root = value }))
    else if is label (codes "CPU_LIMIT")
    then (do value ← value_of rest; ok (record env { cpu_limit = value }))
    else ok env

unfoldable pub read_lines : List Bytes → Environment → Result Environment
read_lines [] env = ok env
read_lines (line ∷ rest) env = do env' ← read_line (words [] line) env; read_lines rest env'

abbrev pub content_of : Option Bytes → Bytes
content_of none = []
content_of (some text) = text

-- `ParseConfigFile`, by the content of the file, if it can be opened: neither `bad` nor `eof` holds
-- of a stream that has just failed to open a file, so that the defaults stand then.
unfoldable pub parse_config_file : Option Bytes → Result (Bool × Environment)
unfolding lines words read_line read_lines
parse_config_file file = do env ← read_lines (lines [] (content_of file)) defaults; ok (true, env)
