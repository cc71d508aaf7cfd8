-- ===== src/Tests/Config.antt =====
-- A configuration file of two settings, the first with a remark, and one with an empty line.
use technopark_highload.Config.Settings.{
  Setting, IsSetting, document_root, cpu_limit, parse_config_file-file_of, parse_config_file_blank,
}
use technopark_highload.Config.{
  defaults, lines, words, value_of, read_line, read_lines, parse_config_file,
}
use technopark_highload.Http.ContentType.{until_nul, hash}
use technopark_highload.Prelude.{
  ◌≡◌, refl, true, none, some, List, [], ◌∷◌, ◌++◌, arith, All, codes,
}
use technopark_highload.Result.{ok, err, undefined_behaviour}

abbrev settings : List Setting
settings =
    record {
      key = cpu_limit;
      spelling = codes "cpu_limit";
      value = codes "8";
      remark = some (codes "# cores");
    }
    ∷ record {
      key = document_root;
      spelling = codes "Document_Root";
      value = codes "/srv/www/";
      remark = none;
    }
    ∷ []

settings-IsSetting : All IsSetting settings
settings-IsSetting = (
  record {
    spelled = refl;
    one_word = ground arith;
    value_ne = λ e. cc;
    value_word = ground arith;
    value_clean = ground arith;
    one_line = ground arith;
  },
  (
    record {
      spelled = refl;
      one_word = ground arith;
      value_ne = λ e. cc;
      value_word = ground arith;
      value_clean = ground arith;
      one_line = ground arith;
    },
    tt,
  ),
)

parse_config_file-file_of_example :
    parse_config_file
      (some (codes "cpu_limit 8 # cores" ++ 10 ∷ (codes "Document_Root /srv/www/" ++ 10 ∷ [])))
    ≡ ok (true, record { document_root = codes "/srv/www/"; cpu_limit = codes "8" })
parse_config_file-file_of_example = parse_config_file-file_of settings settings-IsSetting

parse_config_file_blank_example :
    parse_config_file (
      some (
        codes "cpu_limit 8 # cores"
        ++ 10 ∷ (codes "Document_Root /srv/www/" ++ 10 ∷ (codes "  " ++ 10 ∷ codes "x"))))
    ≡ err undefined_behaviour
parse_config_file_blank_example =
    parse_config_file_blank settings (codes "  ") (codes "x") settings-IsSetting (refl, (refl, tt))
      (omega arith, (omega arith, tt))

-- No file, and a key that has no value.
parse_config_file-none : parse_config_file none ≡ ok (true, defaults)
unfolding parse_config_file read_lines lines
parse_config_file-none = refl

parse_config_file_no_value : parse_config_file (some (codes "cpu_limit")) ≡ err undefined_behaviour
unfolding parse_config_file read_lines lines words read_line value_of until_nul hash
parse_config_file_no_value = refl
