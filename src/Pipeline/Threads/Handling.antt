-- ===== src/Pipeline/Threads/Handling.antt =====
-- The steps of the controller's handler.
use technopark_highload.Client.{HttpClient}
use technopark_highload.Http.Request.Ends.{Ends}
use technopark_highload.Pipeline.Handled.{receive_client-Ends}
use technopark_highload.Pipeline.Reachability
use technopark_highload.Pipeline.Reachability.{
  accepted, created, fired, taken, started, stepped, Reachable-IsSound,
}
use technopark_highload.Pipeline.Threads.Commuting.{
  find_task-with_new, erase-with_new, write_task-with_new, IsNew-erase, IsNew-write_task,
}
use technopark_highload.Pipeline.Threads.Entries.{found-write_task, erase-write_task}
use technopark_highload.Pipeline.Threads.Views.{with_new, IsNew, atomic}
use technopark_highload.Pipeline.Threads.{
  BuilderPc, ControllerPc, idle, reading, freeing_moved, moving, enqueueing, freeing_removed,
  removing, Threads, read_input, erase_moved, control_step,
}
use technopark_highload.Pipeline.{
  Sd, Pipeline, find_task, erase, write_task, Arrival, receive_client, received, pass_on,
  remove_task, move_task,
}
use technopark_highload.Prelude.{◌≡◌, refl, ap, ◌∙◌, ◌⊎◌, inl, inr, Bool, true, false, List}
use technopark_highload.Result.{Result, ok, err, undefined_behaviour, out_of_fuel, Result-cases}
use technopark_highload.Worker.{Task}
use technopark_highload.Pipeline.Threads.Atomic.{Refines, threads}

-- A step of the handler comes to a state that refines the pipeline.
abbrev pub GoesOn : Result Threads → Type 0
GoesOn result = (f' : Threads) × (result ≡ ok f') × Refines f'

-- A step of the handler comes to a state that refines the pipeline, or is undefined where the read
-- of the input is.
abbrev pub IsDefined : Result (HttpClient × Bool) → Result Threads → Type 0
IsDefined input (ok f') = Refines f'
IsDefined input (err e) = input ≡ err undefined_behaviour

module _ (p : Pipeline) (b : BuilderPc) (sd : Sd) where
  -- What is written through the reference is written into the entry.
  written :
      (rest : List (Sd × Task)) (task new : Task)
      → find_task sd rest ≡ ok task
      → p.have_no_data ≡ with_new b rest
      → IsNew b rest
      → write_task sd new p.have_no_data ≡ with_new b (write_task sd new rest)
  written rest task new found entries n =
      ap (write_task sd new) entries ∙ write_task-with_new sd rest task found b new n

  without :
      (rest : List (Sd × Task)) (task : Task)
      → find_task sd rest ≡ ok task
      → p.have_no_data ≡ with_new b rest
      → IsNew b rest
      → erase sd p.have_no_data ≡ with_new b (erase sd rest)
  without rest task found entries n = ap (erase sd) entries ∙ erase-with_new sd rest task found b n

  module _ (a : Arrival) (task : Task) (h : Refines (threads p b (reading sd)))
      (found : find_task sd h.rest ≡ ok task) where
    abbrev before : Pipeline
    before = atomic b (reading sd) p h.rest

    -- The input has been read: the handler is one step.
    moved-Reachable :
        {p' : Pipeline}
        → received sd task before (receive_client task.input a) ≡ ok p'
        → Reachability.Reachable p'
    unfolding move_task
    moved-Reachable e = stepped h.reachable (fired sd false a (rw (move_task, found) e))

    read_input-IsDefined :
        (r : Result (HttpClient × Bool))
        → receive_client task.input a ≡ r
        → Ends r
        → IsDefined r (read_input sd task (threads p b (reading sd)) r)
    unfolding read_input received pass_on remove_task
    read_input-IsDefined (ok (c, true)) read ends =
        let new = record task { input = c } in
        record {
          rest = write_task sd new h.rest;
          entries = written h.rest task new found h.entries h.new;
          new = IsNew-write_task b sd new h.rest h.new;
          found = (new, found-write_task sd new h.rest found);
          reachable =
              rw (erase-write_task sd new h.rest, found-write_task sd new h.rest found)
                (moved-Reachable (rw read refl));
        }
    read_input-IsDefined (ok (c, false)) read ends =
        let new = record task { input = c } in
        record {
          rest = write_task sd new h.rest;
          entries = written h.rest task new found h.entries h.new;
          new = IsNew-write_task b sd new h.rest h.new;
          found = tt;
          reachable = moved-Reachable (rw read refl);
        }
    read_input-IsDefined (err undefined_behaviour) read ends = refl
    read_input-IsDefined (err out_of_fuel) read ends = absurd (ends refl)
    read_input-IsDefined (err e) read ends = record {
      rest = h.rest;
      entries = h.entries;
      new = h.new;
      found = (task, found);
      reachable = moved-Reachable (rw read refl);
    }

  reading-IsDefined :
      (a : Arrival) (h : Refines (threads p b (reading sd)))
      → (task : Task) × (find_task sd p.have_no_data ≡ ok task)
        × IsDefined
            (receive_client task.input a)
            (control_step a (reading sd) (threads p b (reading sd)))
  unfolding control_step
  reading-IsDefined a h =
      let (task, found) = h.found in
      let there : find_task sd p.have_no_data ≡ ok task =
        rw h.entries (find_task-with_new sd h.rest task found b h.new) in
      (
        task,
        there,
        rw (control_step, there)
            (read_input-IsDefined a task h found (receive_client task.input a) refl
              (receive_client-Ends task.input a)),
      )

  moving-Refines :
      (a : Arrival)
      → Refines (threads p b (moving sd))
      → GoesOn (control_step a (moving sd) (threads p b (moving sd)))
  unfolding control_step erase_moved
  moving-Refines a h =
      let (task, found) = h.found in
      let there : find_task sd p.have_no_data ≡ ok task =
        rw h.entries (find_task-with_new sd h.rest task found b h.new) in
      (
        record (threads p b (enqueueing task)) {
          pipeline = record p { have_no_data = erase sd p.have_no_data };
        },
        rw (control_step, there) refl,
        record {
          rest = erase sd h.rest;
          entries = without h.rest task found h.entries h.new;
          new = IsNew-erase b sd h.rest h.new;
          found = tt;
          reachable = rw found at h.reachable;
        },
      )

  removing-Refines :
      (a : Arrival)
      → Refines (threads p b (removing sd))
      → GoesOn (control_step a (removing sd) (threads p b (removing sd)))
  unfolding control_step
  removing-Refines a h =
      let (task, found) = h.found in
      (
        _,
        refl,
        record {
          rest = erase sd h.rest;
          entries = without h.rest task found h.entries h.new;
          new = IsNew-erase b sd h.rest h.new;
          found = tt;
          reachable = h.reachable;
        },
      )

-- What the handler comes to from where it stands.
abbrev pub IsHandled : Arrival → Threads → Type 0
IsHandled a f =
    GoesOn (control_step a f.controller f)
    ⊎ ((sd : Sd) × (task : Task) × (f.controller ≡ reading sd)
        × (find_task sd f.pipeline.have_no_data ≡ ok task)
        × (receive_client task.input a ≡ err undefined_behaviour)
        × (control_step a f.controller f ≡ err undefined_behaviour))

pub control_step-IsHandled :
    (k : ControllerPc) (b : BuilderPc) (p : Pipeline) (a : Arrival)
    → Refines (threads p b k)
    → IsHandled a (threads p b k)
unfolding control_step read_input
control_step-IsHandled idle b p a h = inl (_, refl, h)
control_step-IsHandled (reading sd) b p a h =
    let (task, there, defined) = reading-IsDefined p b sd a h in
    elim (Result-cases (control_step a (reading sd) (threads p b (reading sd)))) [
      | inl (e, thrown) ↦
          let undefined : receive_client task.input a ≡ err undefined_behaviour =
            rw thrown at defined in
          inr (sd, task, refl, there, undefined, rw (control_step, there) (rw undefined refl))
      | inr (f', goes_on) ↦ inl (f', goes_on, rw goes_on at defined)
    ]
control_step-IsHandled (freeing_moved sd) b p a h = inl (
  _,
  refl,
  record {
    rest = h.rest;
    entries = h.entries;
    new = h.new;
    found = h.found;
    reachable = h.reachable;
  },
)
control_step-IsHandled (moving sd) b p a h = inl (moving-Refines p b sd a h)
control_step-IsHandled (enqueueing task) b p a h = inl (
  _,
  refl,
  record { rest = h.rest; entries = h.entries; new = h.new; found = tt; reachable = h.reachable },
)
control_step-IsHandled (freeing_removed sd) b p a h = inl (
  _,
  refl,
  record {
    rest = h.rest;
    entries = h.entries;
    new = h.new;
    found = h.found;
    reachable = h.reachable;
  },
)
control_step-IsHandled (removing sd) b p a h = inl (removing-Refines p b sd a h)
