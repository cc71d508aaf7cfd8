-- ===== src/Tests/Queue.antt =====
-- A worker that takes what the interleaved threads have put into its queue.
use technopark_highload.Dict.{Dict, lookup, put, insert, less}
use technopark_highload.Exchange.Queue.{IsServable, Reachable-loop-replies}
use technopark_highload.Http.Method
use technopark_highload.Http.Request.{parse, parse_target, parse_version, parse_headers}
use technopark_highload.Prelude.{◌≡◌, refl, inl, false, List, [], ◌∷◌, All, Bytes, codes}
use technopark_highload.Result.{ok}
use technopark_highload.Tasks.FileCache.{IsCoherent}
use technopark_highload.Tests.Pipeline.{done}
use technopark_highload.Tests.Site.{unbounded, files, files_small, empty-IsCoherent}
use technopark_highload.Tests.Threads.{queued_Reachable}
use technopark_highload.Text.{
  equal, starts_with, find, find_from, find_char, substr, scan, scan_from,
}
use technopark_highload.Worker.Site.{Visit, IsVisit, tasks_of, replies}
use technopark_highload.Worker.{Worker, Task, new_worker, no_task, loop}

abbrev timed : List (Bytes × Task)
timed = (codes "2021", done) ∷ []

abbrev running : Worker
running = record new_worker { stop = false }

done-IsServable : All (λ (t : Task). IsServable (parse t.input.header)) (done ∷ [])
unfolding parse parse_target parse_version parse_headers Method.string_to_request_method insert less
    lookup put equal find_from find find_char starts_with substr scan_from scan
done-IsServable = (((λ e. cc), inl refl), tt)

Reachable-loop-replies_example :
    (visits : List Visit) × (tasks_of visits ≡ timed)
    × All IsVisit visits
    × (w' : Worker) × (c' : Dict) × (loop unbounded (codes "/srv") files running [] timed
        ≡ ok (w', c', (replies (codes "/srv") files visits []).0))
    × (w'.state ≡ no_task)
    × IsCoherent unbounded files c'
unfolding new_worker
Reachable-loop-replies_example =
    Reachable-loop-replies unbounded (codes "/srv") files files_small timed running []
      queued_Reachable refl done-IsServable refl refl empty-IsCoherent
