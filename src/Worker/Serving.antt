-- ===== src/Worker/Serving.antt =====
-- That a worker serves any sequence of requests as the site of Worker.Site does.
use technopark_highload.Http.Method
use technopark_highload.Http.Method.{RequestMethod, get, head}
use technopark_highload.Http.Request.{HttpRequest}
use technopark_highload.Prelude.{
  ◌<◌, ◌^◌, ◌≡◌, refl, ◌∙◌, ◌⊎◌, inl, inr, Bool, true, false, not, ◌&&◌, Option, none, some, List,
  [], ◌∷◌, ◌++◌, arith, length, Option-cases, All, Bytes, codes,
}
use technopark_highload.Result.{ok}
use technopark_highload.Tasks.FileCache.{FileCache, to_int-lt, IsCoherent, read_file-IsCoherent}
use technopark_highload.Tasks.Locate.Total.{locate_total}
use technopark_highload.Tasks.Locate.{Location, locate}
use technopark_highload.Tasks.Process.{answer}
use technopark_highload.Decimal.{to_string}
use technopark_highload.Text.{equal, find}
use technopark_highload.Worker.Rounds.{Sends, loop_round-forbidden, loop_round-reads}
use technopark_highload.Worker.{Worker, Task, no_task, loop_round, loop}
use technopark_highload.Worker.Site.{
  reply_file, is_get, Visit, IsVisit, tasks_of, reply, replies, reply-forbidden, reply-reply_file,
}

loop-cons :
    (cache : FileCache) (root : Bytes) (files : Bytes → Option Bytes) (now : Bytes) (w : Worker)
    (c : cache.Cache) (task : Task) (tasks : List (Bytes × Task)) {w' last : Worker}
    {c' at_end : cache.Cache} {sent : Bytes} {more : List Bytes}
    → w.stop ≡ false
    → loop_round cache root files now w c (some task) ≡ ok (w', c', sent)
    → loop cache root files w' c' tasks ≡ ok (last, at_end, more)
    → loop cache root files w c ((now, task) ∷ tasks) ≡ ok (last, at_end, sent ∷ more)
unfolding loop
loop-cons cache root files now w c task tasks runs round rest =
    rw (loop, runs, round) (rw rest refl)

allowed :
    (r : HttpRequest)
    → (r.request_method ≡ get) ⊎ (r.request_method ≡ head)
    → not (equal (Method.request_method_to_string r.request_method) (codes "GET"))
        && not (equal (Method.request_method_to_string r.request_method) (codes "HEAD"))
      ≡ false
unfolding equal Method.request_method_to_string
allowed r (inl method) = rw method refl
allowed r (inr method) = rw method refl

module _ (cache : FileCache) (root : Bytes) (files : Bytes → Option Bytes)
    (small : (name content : Bytes) → files name ≡ some content → length content < 2 ^ 31) where
  loop_round-reply_file :
      (v : Visit) (w : Worker) (c : cache.Cache) (l : Location)
      → IsVisit v
      → w.state ≡ no_task
      → w.stop ≡ false
      → find (codes "/../") v.request.url ≡ none
      → locate root v.request.url ≡ ok l
      → IsCoherent cache files c
      → (b : Bool) → is_get v.request ≡ b
      → (let a = reply_file b (files (l.path ++ l.filename)) l.filename w.body in
          Sends cache root files v.now w c v.task v.request a.code a.size a.body)
  unfolding answer to_string
  loop_round-reply_file v w c l visit idle runs clean place coherent true method =
      let read = read_file-IsCoherent cache files c (l.path ++ l.filename) w.body true coherent in
      let round =
        loop_round-reads cache root files v.now w c v.task v.request idle runs visit.parsed l
          visit.versioned clean place coherent true in
      let open_to = allowed v.request visit.method in
      elim (Option-cases (files (l.path ++ l.filename))) [
        | inl absent ↦ rw absent (
            round _ 0 w.body open_to method (rw (read.0, absent) refl) (rw (read.1, absent) refl)
              (omega arith))
        | inr (content, present) ↦ rw present (
            round _ (length content) content open_to method
              (rw (read.0, present, to_int-lt (length content) (small _ content present)) refl)
              (rw (read.1, present) refl) (small _ content present))
      ]
  loop_round-reply_file v w c l visit idle runs clean place coherent false method =
      let read = read_file-IsCoherent cache files c (l.path ++ l.filename) w.body false coherent in
      let round =
        loop_round-reads cache root files v.now w c v.task v.request idle runs visit.parsed l
          visit.versioned clean place coherent false in
      let open_to = allowed v.request visit.method in
      elim (Option-cases (files (l.path ++ l.filename))) [
        | inl absent ↦
            rw absent
              (round _ 0 w.body open_to method (rw (read.0, absent) refl) read.1 (omega arith))
        | inr (content, present) ↦ rw present (
            round _ (length content) w.body open_to method
              (rw (read.0, present, to_int-lt (length content) (small _ content present)) refl)
              read.1 (small _ content present))
      ]

  -- A round answers as the site does.
  loop_round-reply :
      (v : Visit) (w : Worker) (c : cache.Cache)
      → IsVisit v
      → w.state ≡ no_task
      → w.stop ≡ false
      → IsCoherent cache files c
      → (let a = reply root files v.request w.body in
          Sends cache root files v.now w c v.task v.request a.code a.size a.body)
  loop_round-reply v w c visit idle runs coherent =
      let r = v.request in
      elim (Option-cases (find (codes "/../") r.url)) [
        | inr (i, found) ↦ rw (reply-forbidden root files r w.body i found) (
            loop_round-forbidden cache root files v.now w c v.task r idle runs visit.parsed i
              (allowed r visit.method) visit.versioned found coherent)
        | inl clean ↦
            let (l, place) = locate_total root r.url in
            rw (reply-reply_file root files r w.body l clean place)
              (loop_round-reply_file v w c l visit idle runs clean place coherent (is_get r) refl)
      ]

  -- If every file is shorter than 2 ^ 31 bytes, a running and idle worker with a coherent cache
  -- answers any sequence of tasks, whose headers parse as GET or HEAD with a version, with exactly
  -- the responses of the site, in their order: what is in the cache, the map of headers and the
  -- clients do not show. For a URL with `/../`, a missing file and a HEAD the last body goes out
  -- again. The worker is idle again, holds the last body, and the cache is coherent.
  pub loop-replies :
      (visits : List Visit) (w : Worker) (c : cache.Cache)
      → All IsVisit visits
      → w.state ≡ no_task
      → w.stop ≡ false
      → IsCoherent cache files c
      → (w' : Worker) × (c' : cache.Cache) × (loop cache root files w c (tasks_of visits)
          ≡ ok (w', c', (replies root files visits w.body).0))
        × (w'.state ≡ no_task)
        × (w'.body ≡ (replies root files visits w.body).1)
        × IsCoherent cache files c'
  unfolding loop replies
  loop-replies [] w c h idle runs coherent = (w, c, refl, idle, refl, coherent)
  loop-replies (v ∷ visits) w c (visit, h) idle runs coherent =
      let (w', c', round, idle', held, kept, coherent') =
        loop_round-reply v w c visit idle runs coherent in
      let (last, at_end, rest, idle'', held', coherent'') =
        loop-replies visits w' c' h idle' (kept ∙ runs) coherent' in
      (
        last,
        at_end,
        loop-cons cache root files v.now w c v.task (tasks_of visits) runs round (rw held at rest),
        idle'',
        rw held at held',
        coherent'',
      )
