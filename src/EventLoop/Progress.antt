-- ===== src/EventLoop/Progress.antt =====
-- `AddEvent` ends: whatever the two threads do, neither waits for the other for ever.
use technopark_highload.EventLoop.Exclusion.{IsExclusive, Step-IsExclusive, Reachable-IsExclusive}
use technopark_highload.EventLoop.{
  EventBase, LoopPc, testing, locking_running, looping, returned, locking_adding, holding_adding,
  finished, AddPc, idle, locking_first, holding_first, locking_second, holding_both, event_added,
  unlocking, EventLoop, run_loop_at, run_loop, add_event_at, add_event, loop_runs, add_runs,
  Reachable,
}
use technopark_highload.Pipeline.{Sd}
use technopark_highload.Prelude.{
  ℕ, suc, ◌+◌, ◌*◌, ◌<◌, ◌≤◌, ◌≡◌, ◌≢◌, refl, sym, ap, ◌∙◌, ◌⊎◌, inl, inr, true, false, none, some,
  List, ◌∷◌, arith, if◌then◌else◌, Option-cases,
}

-- How many steps `RunLoop` makes at most until `event_base_loop` waits, by its position and by
-- whether it has been asked to return.
abbrev pub loop_rank : LoopPc → ℕ
loop_rank returned = 5
loop_rank locking_adding = 4
loop_rank holding_adding = 3
loop_rank testing = 2
loop_rank locking_running = 1
loop_rank _ = 0

-- how many steps are left of the call of `AddEvent`
abbrev pub add_rank : AddPc → ℕ
add_rank idle = 0
add_rank (locking_first _) = 6
add_rank (holding_first _) = 5
add_rank (locking_second _) = 4
add_rank (holding_both _) = 3
add_rank (event_added _) = 2
add_rank (unlocking _) = 1

-- the events of the base when the call has returned
abbrev pub with_added : AddPc → List Sd → List Sd
with_added (locking_first sd) es = sd ∷ es
with_added (holding_first sd) es = sd ∷ es
with_added (locking_second sd) es = sd ∷ es
with_added (holding_both sd) es = sd ∷ es
with_added _ es = es

idle-cases : (pc : AddPc) → (pc ≡ idle) ⊎ (pc ≢ idle)
idle-cases idle = inl refl
idle-cases (locking_first sd) = inr (λ e. cc)
idle-cases (holding_first sd) = inr (λ e. cc)
idle-cases (locking_second sd) = inr (λ e. cc)
idle-cases (holding_both sd) = inr (λ e. cc)
idle-cases (event_added sd) = inr (λ e. cc)
idle-cases (unlocking sd) = inr (λ e. cc)

module _ (lib : EventBase) where
  open lib use {
    Base, exiting, add, loop_return, events, exiting-loop_return, exiting-add, events-loop_exit,
    events-loop_return, events-add,
  }

  abbrev pub rank : EventLoop lib → ℕ
  rank s = 7 * add_rank s.adder + (loop_rank s.loop + (if exiting s.base then 6 else 0))

  -- A step of one of the two functions, with no new call and no callback.
  pub data Work (s : EventLoop lib) : EventLoop lib → Type 0 where
    loop_works : {t : EventLoop lib} → run_loop lib s ≡ some t → Work s t
    add_works : {t : EventLoop lib} → add_event lib s ≡ some t → Work s t

  -- `n` such steps, in any order
  pub data Works (s : EventLoop lib) : ℕ → EventLoop lib → Type 0 where
    here : Works s 0 s
    then_works : {n : ℕ} {t u : EventLoop lib} → Works s n t → Work t u → Works s (suc n) u

  abbrev target : EventLoop lib → List Sd
  target s = with_added s.adder (events s.base)

  run_loop_at-rank :
      (pc : LoopPc) (s : EventLoop lib) {t : EventLoop lib}
      → s.loop ≡ pc
      → run_loop_at lib pc s ≡ some t
      → (rank t < rank s) × (target t ≡ target s)
  unfolding run_loop_at
  run_loop_at-rank looping s e r =
      ground (arith, exiting-loop_return s.base, events-loop_return s.base)
  run_loop_at-rank _ s e r = ground arith

  add_event_at-rank :
      (pc : AddPc) (s : EventLoop lib) {t : EventLoop lib}
      → s.adder ≡ pc
      → add_event_at lib pc s ≡ some t
      → (rank t < rank s) × (target t ≡ target s)
  unfolding add_event_at
  add_event_at-rank (holding_first sd) s e r = ground (arith, events-loop_exit s.base)
  add_event_at-rank (holding_both sd) s e r =
      ground (arith, exiting-add sd s.base, events-add sd s.base)
  add_event_at-rank _ s e r = ground arith

  -- Every step of the two functions lowers the rank, and keeps what the events will be.
  Work-rank : {s t : EventLoop lib} → Work s t → (rank t < rank s) × (target t ≡ target s)
  unfolding run_loop add_event
  Work-rank {s} (loop_works r) = run_loop_at-rank s.loop s refl r
  Work-rank {s} (add_works r) = add_event_at-rank s.adder s refl r

  -- `AddEvent` waits for a mutex only while the loop's thread, which holds it, can make a step.
  blocked_works :
      (pc : LoopPc) (s : EventLoop lib)
      → s.loop ≡ pc
      → IsExclusive lib s
      → s.adder ≢ idle
      → add_event lib s ≡ none
      → (t : EventLoop lib) × (run_loop_at lib pc s ≡ some t)
  unfolding run_loop_at add_event add_event_at
  blocked_works testing s e h ne r = (_, refl)
  blocked_works locking_running s e h ne r =
      let free : s.running ≡ false = ground arith in
      (record s { running = true; loop = looping }, rw free refl)
  blocked_works looping s e h ne r =
      let asked : exiting s.base ≡ true = ground arith in
      (record s { base = loop_return s.base; loop = returned }, rw asked refl)
  blocked_works returned s e h ne r = (_, refl)
  blocked_works locking_adding s e h ne r =
      let free : s.adding ≡ false = ground arith in
      (record s { adding = true; loop = holding_adding }, rw free refl)
  blocked_works holding_adding s e h ne r = (_, refl)
  blocked_works finished s e h ne r = absurd (ground arith)

  -- As long as a call has not returned, one of the two threads can go on.
  call_works :
      (s : EventLoop lib) → IsExclusive lib s → s.adder ≢ idle → (t : EventLoop lib) × Work s t
  unfolding run_loop
  call_works s h ne = elim (Option-cases (add_event lib s)) [
    | inl blocked ↦ let (t, r) = blocked_works s.loop s refl h ne blocked in (t, loop_works r)
    | inr (t, r) ↦ (t, add_works r)
  ]

  Work-IsExclusive : {s t : EventLoop lib} → Work s t → IsExclusive lib s → IsExclusive lib t
  Work-IsExclusive (loop_works r) h = Step-IsExclusive lib (loop_runs r) h
  Work-IsExclusive (add_works r) h = Step-IsExclusive lib (add_runs r) h

  Works-rank :
      {s t : EventLoop lib} {n : ℕ}
      → Works s n t
      → IsExclusive lib s
      → (n + rank t ≤ rank s) × (target t ≡ target s) × IsExclusive lib t
  Works-rank here h = (omega arith, refl, h)
  Works-rank (then_works before work) h =
      let (shorter, same, h') = Works-rank before h in
      let (lower, kept) = Work-rank work in (omega arith, kept ∙ same, Work-IsExclusive work h')

  -- In a state that can be reached, with a call of `AddEvent` or none, the two threads make at most
  -- `rank s` steps, in whatever order, until a callback or the next call; and behind each of these
  -- steps either the call has returned, with its event and the earlier ones in the base, or one of
  -- the threads can go on: neither waits for the other for ever.
  pub Works-end :
      {b : Base} {s t : EventLoop lib} {n : ℕ}
      → Reachable lib b s
      → Works s n t
      → (n ≤ rank s)
        × (((t.adder ≡ idle) × (events t.base ≡ with_added s.adder (events s.base)))
            ⊎ ((u : EventLoop lib) × Work t u))
  Works-end {t} reached works =
      let (few, same, h) = Works-rank works (Reachable-IsExclusive lib reached) in
      (
        omega arith,
        elim (idle-cases t.adder) [
          | inl returned_call ↦
              inl (returned_call, ap (λ a. with_added a (events t.base)) (sym returned_call) ∙ same)
          | inr busy ↦ inr (call_works t h busy)
        ],
      )
