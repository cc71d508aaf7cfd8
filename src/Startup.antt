-- ===== src/Startup.antt =====
-- src/main.cpp, the main function: the configuration, and the server that it starts.
use technopark_highload.Config.Settings.{
  Setting, IsSetting, file_of, apply_all, parse_config_file-file_of,
}
use technopark_highload.Config.{Environment, defaults, parse_config_file}
use technopark_highload.Decimal.RoundTrip.{stoi-to_string}
use technopark_highload.Decimal.{to_string, stoi}
use technopark_highload.Listener.{new_listener, start_listener}
use technopark_highload.Master
use technopark_highload.Master.{
  Master, at_rest, new_master, create_listeners, create_workers, start_workers, start_builder,
  start_controller,
}
use technopark_highload.Pipeline.{empty}
use technopark_highload.Prelude.Int.{ℤ, pos, to_size}
use technopark_highload.Prelude.{
  ℕ, zero, suc, ◌<◌, ◌^◌, ◌≡◌, refl, ap, true, false, Option, some, List, [], ◌∷◌, arith,
  if◌then◌else◌, length, All, Bytes, codes,
}
use technopark_highload.Result.{Result, ok, err, ◌>>=◌, invalid_argument, undefined_behaviour}
use technopark_highload.Socket.Open.{Socket}
use technopark_highload.Text.{equal}
use technopark_highload.Worker
use technopark_highload.Worker.{Worker, new_worker}

-- `std::atoi`: 0 for a text without a number; a number that is no `int` is undefined.
abbrev pub number_or_zero : Result ℤ → Result ℤ
number_or_zero (ok i) = ok i
number_or_zero (err invalid_argument) = ok (pos 0)
number_or_zero (err _) = err undefined_behaviour

unfoldable pub atoi : Bytes → Result ℤ
unfolding stoi
atoi s = number_or_zero (stoi s)

-- What `main` does: it returns a code, or sleeps while the server runs.
pub data Ending : Type 0 where
  exited : ℕ → Ending
  serving : Master → Ending

-- the map of ports, with `EXTERNAL_PORT`
abbrev pub ports : List (Bytes × ℕ)
ports = (codes "external", 80) ∷ []

-- The `try` block, by what the constructor of the Master makes or throws; undefined behaviour is not
-- caught.
unfoldable pub started : Result Master → Result Ending
unfolding Master.start
started (ok m) = ok (serving (Master.start m))
started (err undefined_behaviour) = err undefined_behaviour
started (err _) = ok (exited 1)

unfoldable pub serve : (ℕ → Result Socket) → Environment → Result Ending
unfolding started atoi new_master
serve listen env = do limit ← atoi env.cpu_limit; started (new_master listen ports (to_size limit))

-- `main`, by the content of the configuration file, if it can be opened. `listen` is
-- `createServerSocket` by the port.
unfoldable pub main : (ℕ → Result Socket) → Option Bytes → Result Ending
unfolding parse_config_file serve
main listen file = do
  (found, env) ← parse_config_file file
  if found then serve listen env else ok (exited 1)

abbrev pub Running : Worker → Type 0
Running w = w.stop ≡ false

start_workers-create_workers :
    (n : ℕ)
    → (length (start_workers (create_workers n)) ≡ n)
      × All Running (start_workers (create_workers n))
unfolding create_workers new_worker Worker.start
start_workers-create_workers zero = (refl, tt)
start_workers-create_workers (suc n) =
    let (size, all) = start_workers-create_workers n in (ap suc size, (refl, all))

atoi-to_string : (n : ℕ) → n < 2 ^ 31 → atoi (to_string n) ≡ ok (pos n)
unfolding atoi
atoi-to_string n small = rw (stoi-to_string n) (ground arith)

-- the server before `Start`
abbrev idle_master : Socket → ℕ → Master
idle_master s n = record {
  pipeline = empty;
  listeners = record { socket = s; stop = true } ∷ [];
  builder_stop = true;
  controller_stop = true;
  workers = create_workers n;
  stop = true;
  stop_at = at_rest;
}

new_master-idle_master :
    (listen : ℕ → Result Socket) (s : Socket) (n : ℕ)
    → listen 80 ≡ ok s
    → new_master listen ports (suc n) ≡ ok (idle_master s (suc n))
unfolding new_master create_listeners new_listener equal create_workers
new_master-idle_master listen s n opened = rw opened refl

-- With a configuration file of settings, the last limit of which is a number `n` above 0 that is an
-- `int`, and a port that can be listened on, `main` starts a server with one listener and `n`
-- workers, all of which run.
pub main-file_of :
    (listen : ℕ → Result Socket) (settings : List Setting) (n : ℕ) (s : Socket)
    → All IsSetting settings
    → (apply_all settings defaults).cpu_limit ≡ to_string (suc n)
    → suc n < 2 ^ 31
    → listen 80 ≡ ok s
    → (m : Master) × (main listen (some (file_of settings [])) ≡ ok (serving m))
      × (m.stop ≡ false)
      × (m.listeners ≡ record { socket = s; stop = false } ∷ [])
      × (length m.workers ≡ suc n)
      × All Running m.workers
unfolding main serve started Master.start start_listener start_builder start_controller
main-file_of listen settings n s h limit small opened =
    let (size, all) = start_workers-create_workers (suc n) in
    let amount : to_size (pos (suc n)) ≡ suc n = omega arith in
    (
      Master.start (idle_master s (suc n)),
      rw (parse_config_file-file_of settings h, limit, atoi-to_string (suc n) small, amount)
          (rw (new_master-idle_master listen s n opened) refl),
      refl,
      refl,
      size,
      all,
    )
