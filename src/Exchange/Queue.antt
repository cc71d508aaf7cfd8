-- ===== src/Exchange/Queue.antt =====
-- What the workers make of the queue that the other threads fill.
use technopark_highload.Http.Method.{get, head}
use technopark_highload.Http.Request.{HttpRequest, parse}
use technopark_highload.Pipeline.Received.{IsReady}
use technopark_highload.Pipeline.Threads.Interleaved.{Reachable-IsHandled}
use technopark_highload.Pipeline.Threads.{Threads, Reachable}
use technopark_highload.Prelude.Int.{pos}
use technopark_highload.Prelude.{
  ◌<◌, ◌^◌, ◌≡◌, ◌≢◌, refl, ap, ◌⊎◌, List, [], ◌∷◌, Option, some, false, All, Bytes, length,
}
use technopark_highload.Result.{Result, ok, err}
use technopark_highload.Socket.Receive.{again}
use technopark_highload.Tasks.FileCache.{FileCache, IsCoherent}
use technopark_highload.Worker.Serving.{loop-replies}
use technopark_highload.Worker.Site.{Visit, IsVisit, tasks_of, replies}
use technopark_highload.Worker.{Worker, Task, no_task, loop}

-- A request that has been parsed is a GET or a HEAD with a version.
abbrev pub IsServable : Result HttpRequest → Type 0
IsServable (ok r) = (r.http_version ≢ []) × ((r.request_method ≡ get) ⊎ (r.request_method ≡ head))
IsServable (err e) = Unit

-- the tasks of a sequence of times and tasks
abbrev pub untimed : List (Bytes × Task) → List Task
untimed [] = []
untimed ((now, t) ∷ rest) = t ∷ untimed rest

visits_of :
    (timed : List (Bytes × Task))
    → All (λ t. IsReady t.input) (untimed timed)
    → All (λ t. IsServable (parse t.input.header)) (untimed timed)
    → (visits : List Visit) × (tasks_of visits ≡ timed) × All IsVisit visits
visits_of [] ready servable = ([], refl, tt)
visits_of ((now, t) ∷ timed) ((r, n, parsed, size, complete), ready) (method, servable) =
    let (visits, same, are) = visits_of timed ready servable in
    let (versioned, known) : (r.http_version ≢ [])
        × ((r.request_method ≡ get) ⊎ (r.request_method ≡ head)) =
      rw parsed at method in
    (
      record { now = now; task = t; request = r } ∷ visits,
      ap (λ rest. (now, t) ∷ rest) same,
      (record { parsed = parsed; versioned = versioned; method = known }, are),
    )

-- In a state that the threads can reach, where the system gives a new client no descriptor under
-- which a task waits and only events that have been added fire, let the requests of the tasks in the
-- queue of the workers be GETs and HEADs with a version, and every file be shorter than 2 ^ 31 bytes.
-- A running and idle worker with a coherent cache that takes these tasks, at whatever times, throws
-- nothing, and sends exactly the responses of the site, in the order of the queue.
pub Reachable-loop-replies :
    (cache : FileCache) (root : Bytes) (files : Bytes → Option Bytes)
    (small : (name content : Bytes) → files name ≡ some content → length content < 2 ^ 31)
    {f : Threads} (timed : List (Bytes × Task)) (w : Worker) (c : cache.Cache)
    → Reachable f
    → untimed timed ≡ f.pipeline.have_data
    → All (λ t. IsServable (parse t.input.header)) f.pipeline.have_data
    → w.state ≡ no_task
    → w.stop ≡ false
    → IsCoherent cache files c
    → (visits : List Visit) × (tasks_of visits ≡ timed)
      × All IsVisit visits
      × (w' : Worker) × (c' : cache.Cache) × (loop cache root files w c timed
          ≡ ok (w', c', (replies root files visits w.body).0))
      × (w'.state ≡ no_task)
      × IsCoherent cache files c'
Reachable-loop-replies cache root files small timed w c reached same servable idle runs coherent =
    let ready =
      (Reachable-IsHandled (record { first = again; count = pos 0; more = [] }) reached).1 in
    let (visits, taken, are) = visits_of timed (rw same ready) (rw same servable) in
    let (w', c', sent, idle', held, coherent') =
      loop-replies cache root files small visits w c are idle runs coherent in
    (visits, taken, are, w', c', rw taken at sent, idle', coherent')
