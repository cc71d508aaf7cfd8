-- ===== src/Config/Settings.antt =====
-- A file of settings, one to a line, and a file with an empty line.
use technopark_highload.Config.{
  Environment, defaults, to_upper_case, lines, words, value_of, read_line, read_lines,
  parse_config_file,
}
use technopark_highload.Decimal.{is_space}
use technopark_highload.Http.ContentType.Table.{until_nul-Lacks}
use technopark_highload.Http.ContentType.{until_nul, hash}
use technopark_highload.Http.Headers.{is_empty_ne}
use technopark_highload.Prelude.{
  ◌≡◌, ◌≢◌, refl, sym, ap, ◌∙◌, true, false, Option, none, some, List, [], ◌∷◌, ◌++◌, append_assoc,
  append-nil, arith, All, All-append, Lacks, Bytes, codes,
}
use technopark_highload.Result.{ok, err, undefined_behaviour}

pub data Key : Type 0 where
  document_root cpu_limit : Key

abbrev pub label : Key → Bytes
label document_root = codes "DOCUMENT_ROOT"
label cpu_limit = codes "CPU_LIMIT"

-- A key as it is spelled, its value, and what stands behind a space after it.
pub record Setting : Type 0 where
  pub key : Key
  pub spelling : Bytes
  pub value : Bytes
  pub remark : Option Bytes

abbrev pub remark_text : Option Bytes → Bytes
remark_text none = []
remark_text (some t) = b' ' ∷ t

abbrev pub line_of : Setting → Bytes
line_of s = s.spelling ++ b' ' ∷ (s.value ++ remark_text s.remark)

abbrev pub file_of : List Setting → Bytes → Bytes
file_of [] rest = rest
file_of (s ∷ settings) rest = line_of s ++ 10 ∷ file_of settings rest

abbrev pub set_key : Key → Bytes → Environment → Environment
set_key document_root v env = record env { document_root = v }
set_key cpu_limit v env = record env { cpu_limit = v }

-- The settings in their order: of two for one key the last counts.
abbrev pub apply_all : List Setting → Environment → Environment
apply_all [] env = env
apply_all (s ∷ settings) env = apply_all settings (set_key s.key s.value env)

abbrev pub HasNoSpace : Bytes → Type 0
HasNoSpace = All (λ c. is_space c ≡ false)

-- The key is spelled in small or capital letters, and the value is a word.
pub record IsSetting (s : Setting) : Type 0 where
  pub spelled : to_upper_case s.spelling ≡ label s.key
  pub one_word : HasNoSpace s.spelling
  pub value_ne : s.value ≢ []
  pub value_word : HasNoSpace s.value
  pub value_clean : Lacks 0 s.value
  pub one_line : Lacks 10 (remark_text s.remark)

lines-line :
    (line a rest : Bytes) → Lacks 10 a → lines line (a ++ 10 ∷ rest) ≡ (line ++ a) ∷ lines [] rest
unfolding lines
lines-line line [] rest h = rw append-nil refl
lines-line line (c ∷ a) rest (ne, h) =
    let one = append_assoc line (c ∷ []) a in ground (arith, lines-line (line ++ c ∷ []) a rest h)

words-word : (word a rest : Bytes) → HasNoSpace a → words word (a ++ rest) ≡ words (word ++ a) rest
unfolding words
words-word word [] rest h = rw append-nil refl
words-word word (c ∷ a) rest (ns, h) =
    let one = append_assoc word (c ∷ []) a in ground (arith, words-word (word ++ c ∷ []) a rest h)

-- A word that is not empty ends at a space, and at the end of the line.
words-space :
    (word a rest : Bytes)
    → HasNoSpace a
    → word ++ a ≢ []
    → words word (a ++ b' ' ∷ rest) ≡ (word ++ a) ∷ words [] rest
unfolding words
words-space word a rest h ne =
    words-word word a (b' ' ∷ rest) h ∙ rw (is_empty_ne (word ++ a) ne, words) refl

words-end : (a : Bytes) → HasNoSpace a → a ≢ [] → words [] a ≡ a ∷ []
unfolding words
words-end a h ne =
    ap (words []) (sym (append-nil a)) ∙ words-word [] a [] h ∙ rw (is_empty_ne a ne, words) refl

words-value :
    (value : Bytes) (remark : Option Bytes)
    → HasNoSpace value
    → value ≢ []
    → (more : List Bytes) × (words [] (value ++ remark_text remark) ≡ value ∷ more)
words-value value none h ne = ([], rw append-nil (words-end value h ne))
words-value value (some t) h ne = (words [] t, words-space [] value t h ne)

words-blank : (blank : Bytes) → All (λ c. is_space c ≡ true) blank → words [] blank ≡ []
unfolding words
words-blank [] h = refl
words-blank (c ∷ blank) (e, h) = ground (arith, words-blank blank h)

HasNoSpace-Lacks : (s : Bytes) → HasNoSpace s → Lacks 10 s
HasNoSpace-Lacks [] h = tt
HasNoSpace-Lacks (c ∷ s) (e, h) = (ground arith, HasNoSpace-Lacks s h)

to_upper_case-nil : (k : Key) → to_upper_case [] ≢ label k
to_upper_case-nil document_root e = cc
to_upper_case-nil cpu_limit e = cc

read_line-label :
    (k : Key) (spelling value : Bytes) (more : List Bytes) (env : Environment)
    → to_upper_case spelling ≡ label k
    → Lacks 0 value
    → read_line (spelling ∷ value ∷ more) env ≡ ok (set_key k value env)
unfolding read_line value_of until_nul hash
read_line-label document_root spelling value more env e clean =
    rw e (rw (until_nul-Lacks value clean) refl)
read_line-label cpu_limit spelling value more env e clean =
    rw e (rw (until_nul-Lacks value clean) refl)

module _ (s : Setting) (valid : IsSetting s) where
  line_clean : Lacks 10 (line_of s)
  line_clean =
      let behind =
        All-append (λ c. c ≢ 10) s.value (remark_text s.remark)
          (HasNoSpace-Lacks s.value valid.value_word) valid.one_line in
      All-append (λ c. c ≢ 10) s.spelling (b' ' ∷ (s.value ++ remark_text s.remark))
        (HasNoSpace-Lacks s.spelling valid.one_word) (omega arith, behind)

  read_line-line_of :
      (env : Environment) → read_line (words [] (line_of s)) env ≡ ok (set_key s.key s.value env)
  read_line-line_of env =
      let ne : s.spelling ≢ [] =
        λ e. to_upper_case-nil s.key (ap to_upper_case (sym e) ∙ valid.spelled) in
      let (more, rest) = words-value s.value s.remark valid.value_word valid.value_ne in
      let split = words-space [] s.spelling (s.value ++ remark_text s.remark) valid.one_word ne in
      rw (split, rest)
        (read_line-label s.key s.spelling s.value more env valid.spelled valid.value_clean)

read_lines-file_of :
    (settings : List Setting) (rest : Bytes) (env : Environment)
    → All IsSetting settings
    → read_lines (lines [] (file_of settings rest)) env
      ≡ read_lines (lines [] rest) (apply_all settings env)
unfolding read_lines
read_lines-file_of [] rest env h = refl
read_lines-file_of (s ∷ settings) rest env (valid, h) =
    rw (lines-line [] (line_of s) (file_of settings rest) (line_clean s valid)) (
      rw (read_line-line_of s valid env)
        (read_lines-file_of settings rest (set_key s.key s.value env) h))

-- A file of settings, each a key in small or capital letters, a space, a word, and maybe a space and
-- a remark on one line, is read to these settings over the defaults: the last setting for a key
-- counts.
pub parse_config_file-file_of :
    (settings : List Setting)
    → All IsSetting settings
    → parse_config_file (some (file_of settings [])) ≡ ok (true, apply_all settings defaults)
unfolding parse_config_file
parse_config_file-file_of settings h = rw (read_lines-file_of settings [] defaults h) refl

-- An empty line, or one of white space alone, is read out of bounds, whatever settings stand before
-- it and whatever behind it.
pub parse_config_file_blank :
    (settings : List Setting) (blank rest : Bytes)
    → All IsSetting settings
    → All (λ c. is_space c ≡ true) blank
    → Lacks 10 blank
    → parse_config_file (some (file_of settings (blank ++ 10 ∷ rest))) ≡ err undefined_behaviour
unfolding parse_config_file
parse_config_file_blank settings blank rest h spaces clean =
    rw (read_lines-file_of settings (blank ++ 10 ∷ rest) defaults h)
      (rw (lines-line [] blank rest clean) (rw (words-blank blank spaces) refl))
