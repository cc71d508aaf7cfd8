-- ===== src/Sleep.antt =====
-- async/src/msleep.cpp: two functions that sleep again for what is left when a signal wakes them.
use technopark_highload.Prelude.Int.{ℤ, pos, negsuc}
use technopark_highload.Prelude.{
  ℕ, ◌+◌, ◌-◌, ◌*◌, ◌/◌, ◌%◌, ◌≤◌, ◌≡◌, refl, ap, List, [], ◌∷◌, arith,
}

-- `struct timespec`
pub record Timespec : Type 0 where
  pub tv_sec : ℕ
  pub tv_nsec : ℕ

abbrev pub nanoseconds : Timespec → ℕ
nanoseconds ts = ts.tv_sec * 1000000000 + ts.tv_nsec

-- What `nanosleep` answers: that the time is over, that a signal came while some time was left, or
-- another error.
pub data Answer : Type 0 where
  over : Answer
  interrupted : Timespec → Answer
  failed : Answer

-- How a call ends: with what it returns and the nanoseconds slept, or asleep where the answers end.
-- `EINVAL` of a negative argument is `refused`; any other error of `nanosleep` is `gave_up`.
pub data Ending : Type 0 where
  returned : ℕ → Ending
  gave_up refused asleep : Ending

-- The `do` loop, with the time slept before: an interrupted sleep has taken what is not left.
unfoldable pub sleep_loop : Timespec → List Answer → ℕ → Ending
sleep_loop ts [] slept = asleep
sleep_loop ts (over ∷ answers) slept = returned (slept + nanoseconds ts)
sleep_loop ts (interrupted rest ∷ answers) slept =
    sleep_loop rest answers (slept + (nanoseconds ts - nanoseconds rest))
sleep_loop ts (failed ∷ answers) slept = gave_up

-- `msleep` and `nsleep`
unfoldable pub msleep : ℤ → List Answer → Ending
unfolding sleep_loop
msleep (negsuc n) answers = refused
msleep (pos msec) answers =
    sleep_loop (record { tv_sec = msec / 1000; tv_nsec = msec % 1000 * 1000000 }) answers 0

unfoldable pub nsleep : ℤ → List Answer → Ending
unfolding sleep_loop
nsleep (negsuc n) answers = refused
nsleep (pos nsec) answers =
    sleep_loop (record { tv_sec = nsec / 1000000000; tv_nsec = nsec % 1000000000 }) answers 0

-- Signals, each of which leaves no more nanoseconds than there were, and then the end of the sleep.
abbrev pub LeavesNoMore : ℕ → List Timespec → Type 0
LeavesNoMore left [] = Unit
LeavesNoMore left (rest ∷ more) = (nanoseconds rest ≤ left) × LeavesNoMore (nanoseconds rest) more

abbrev pub signals : List Timespec → List Answer
signals [] = over ∷ []
signals (rest ∷ more) = interrupted rest ∷ signals more

sleep_loop-signals :
    (ts : Timespec) (rests : List Timespec) (left slept total : ℕ)
    → nanoseconds ts ≡ left
    → LeavesNoMore left rests
    → slept + left ≡ total
    → sleep_loop ts (signals rests) slept ≡ returned total
unfolding sleep_loop
sleep_loop-signals ts [] left slept total e h sum = ap returned (omega arith)
sleep_loop-signals ts (rest ∷ more) left slept total e (fits, h) sum =
    sleep_loop-signals rest more (nanoseconds rest) (slept + (nanoseconds ts - nanoseconds rest))
      total refl h (omega arith)

-- However many signals come, and whenever, where a signal never leaves more time than there was:
-- `msleep(m)` sleeps for `m` milliseconds in all, and `nsleep(n)` for `n` nanoseconds.
pub msleep-nsleep-signals :
    (m n : ℕ) (rests rests' : List Timespec)
    → LeavesNoMore (m * 1000000) rests
    → LeavesNoMore n rests'
    → (msleep (pos m) (signals rests) ≡ returned (m * 1000000))
      × (nsleep (pos n) (signals rests') ≡ returned n)
unfolding msleep nsleep
msleep-nsleep-signals m n rests rests' h h' = (
  sleep_loop-signals _ rests (m * 1000000) 0 (m * 1000000) (omega arith) h (omega arith),
  sleep_loop-signals _ rests' n 0 n (omega arith) h' (omega arith),
)
