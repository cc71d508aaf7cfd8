-- ===== src/Tests/Sleep.antt =====
-- A sleep of a second and a half that two signals interrupt.
use technopark_highload.Prelude.Int.{pos, negsuc}
use technopark_highload.Prelude.{◌≡◌, refl, List, [], ◌∷◌, arith}
use technopark_highload.Sleep.{
  Timespec, over, interrupted, failed, returned, gave_up, refused, asleep, sleep_loop, msleep,
  nsleep, signals, msleep-nsleep-signals,
}

abbrev left_twice : List Timespec
left_twice = record { tv_sec = 1; tv_nsec = 200000000 } ∷ record { tv_sec = 0; tv_nsec = 7 } ∷ []

msleep-nsleep-signals_example :
    (msleep (pos 1500) (signals left_twice) ≡ returned 1500000000)
    × (nsleep (pos 1300000007) (signals left_twice) ≡ returned 1300000007)
msleep-nsleep-signals_example =
    msleep-nsleep-signals 1500 1300000007 left_twice left_twice (omega arith, (omega arith, tt))
      (omega arith, (omega arith, tt))

msleep_negative : msleep (negsuc 0) (over ∷ []) ≡ refused
unfolding msleep
msleep_negative = refl

msleep_fails : msleep (pos 3) (failed ∷ over ∷ []) ≡ gave_up
unfolding msleep sleep_loop
msleep_fails = refl

nsleep_goes_on : nsleep (pos 30) (interrupted (record { tv_sec = 0; tv_nsec = 4 }) ∷ []) ≡ asleep
unfolding nsleep sleep_loop
nsleep_goes_on = refl
