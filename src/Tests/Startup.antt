-- ===== src/Tests/Startup.antt =====
-- The main function with a limit of eight workers, and with a limit that is no number.
use technopark_highload.Config.Settings.{Setting, IsSetting, cpu_limit, file_of}
use technopark_highload.Config.{lines, words, value_of, read_line, read_lines, parse_config_file}
use technopark_highload.Decimal.{
  digits, to_string, stoi, skip_spaces, after_spaces, signed, read_digits,
}
use technopark_highload.Http.ContentType.{until_nul, hash}
use technopark_highload.Listener.{new_listener}
use technopark_highload.Master.{Master, new_master, create_listeners, create_workers}
use technopark_highload.Prelude.{
  ℕ, ◌≡◌, refl, false, none, some, List, [], ◌∷◌, arith, length, All, codes,
}
use technopark_highload.Result.{Result, ok, err, undefined_behaviour}
use technopark_highload.Socket.Open.{Socket}
use technopark_highload.Startup.{atoi, Running, serving, started, serve, main, main-file_of}
use technopark_highload.Text.{equal}

abbrev listener : Socket
listener = record { sd = some 3; port = 80; queue_size = 5 }

abbrev listen : ℕ → Result Socket
listen port = ok (record { sd = some 3; port = port; queue_size = 5 })

abbrev settings : List Setting
settings =
    record { key = cpu_limit; spelling = codes "CPU_LIMIT"; value = codes "8"; remark = none } ∷ []

settings-IsSetting : All IsSetting settings
settings-IsSetting = (
  record {
    spelled = refl;
    one_word = ground arith;
    value_ne = λ e. cc;
    value_word = ground arith;
    value_clean = ground arith;
    one_line = tt;
  },
  tt,
)

main-file_of_example :
    (m : Master) × (main listen (some (file_of settings [])) ≡ ok (serving m))
    × (m.stop ≡ false)
    × (m.listeners ≡ record { socket = listener; stop = false } ∷ [])
    × (length m.workers ≡ 8)
    × All Running m.workers
unfolding to_string digits
main-file_of_example =
    main-file_of listen settings 7 listener settings-IsSetting refl (omega arith) refl

main_no_number : main listen (some (codes "CPU_LIMIT many")) ≡ err undefined_behaviour
unfolding main parse_config_file lines words read_line read_lines value_of until_nul hash serve
    started atoi stoi skip_spaces after_spaces signed read_digits new_master equal create_listeners
    new_listener create_workers
main_no_number = refl
