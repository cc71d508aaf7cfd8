-- ===== src/Tests/Serving.antt =====
-- A worker that serves a GET, a HEAD and a URL with `/../`, and two workers on one cache.
use technopark_highload.Client.{new_client}
use technopark_highload.Dict.{Dict, lookup, put, insert, less}
use technopark_highload.Http.Method
use technopark_highload.Http.Method.{RequestMethod, get, head}
use technopark_highload.Http.Request.{parse, parse_target, parse_version, parse_headers}
use technopark_highload.Prelude.{
  ◌≡◌, refl, inl, inr, true, false, none, some, List, [], ◌∷◌, All, Bytes, codes,
}
use technopark_highload.Prelude.Int.{pos}
use technopark_highload.Result.{ok}
use technopark_highload.Tasks.FileCache.{IsCoherent, to_int}
use technopark_highload.Tasks.Locate.{locate, locate_file}
use technopark_highload.Tasks.Sharing.Alone.{Runs, done, Runs-done}
use technopark_highload.Tasks.Sharing.Coherence.{IsShared, Reachable-IsShared}
use technopark_highload.Tasks.Sharing.{
  Reader, asked, copying, missed, raced, invalidate_held, loaded, returned, get_entry, load_file,
  put_entry, read_step, invalidate, invalidate_at, invalidate_all, Shared, ran, Reachable, here,
  next,
}
use technopark_highload.Tests.Site.{unbounded, files, files_small, script, empty-IsCoherent}
use technopark_highload.Text.{
  equal, starts_with, find, find_from, find_char, rfind_char, rfind_char_upto, substr, scan,
  scan_from,
}
use technopark_highload.Worker.Serving.{loop-replies}
use technopark_highload.Worker.Site.{Visit, IsVisit, tasks_of, reply, replies}
use technopark_highload.Worker.{Worker, Task, new_task, new_worker, no_task, loop}

abbrev task_of : Bytes → Task
task_of header = new_task (record (new_client none) { header = header })

abbrev visit : RequestMethod → Bytes → Bytes → Visit
visit method url header = record {
  now = codes "2021";
  task = task_of header;
  request = record { request_method = method; url = url; http_version = codes "1.1"; headers = [] };
}

abbrev visits : List Visit
visits =
    visit get (codes "/a.js") (codes "GET /a.js HTTP/1.1\r\n")
    ∷ visit head (codes "/a.js") (codes "HEAD /a.js HTTP/1.1\r\n")
    ∷ visit get (codes "/../b") (codes "GET /../b HTTP/1.1\r\n")
    ∷ []

visits-IsVisit : All IsVisit visits
unfolding new_client parse parse_target parse_version parse_headers Method.string_to_request_method
    insert less lookup put equal find_from find find_char starts_with substr scan_from scan
visits-IsVisit = (
  record { parsed = refl; versioned = λ e. cc; method = inl refl },
  (
    record { parsed = refl; versioned = λ e. cc; method = inr refl },
    (record { parsed = refl; versioned = λ e. cc; method = inl refl }, tt),
  ),
)

abbrev running : Worker
running = record new_worker { stop = false }

loop-replies_example :
    (w' : Worker) × (c' : Dict) × (loop unbounded (codes "/srv") files running [] (tasks_of visits)
      ≡ ok (w', c', (replies (codes "/srv") files visits []).0))
    × (w'.state ≡ no_task)
    × (w'.body ≡ (replies (codes "/srv") files visits []).1)
    × IsCoherent unbounded files c'
unfolding new_worker
loop-replies_example =
    loop-replies unbounded (codes "/srv") files files_small visits running [] visits-IsVisit refl
      refl empty-IsCoherent

-- The last body is still that of the GET.
replies_last : (replies (codes "/srv") files visits []).1 ≡ script
unfolding replies reply find starts_with locate locate_file rfind_char rfind_char_upto find_char
    substr equal files Method.request_method_to_string
replies_last = refl

abbrev asking : Reader
asking = record { filename = codes "/srv/a.js"; actually_read = true; body = []; pc = asked }

-- Both have missed the cache, and one has put the file into it.
abbrev both : Shared unbounded files
both = record { kept = []; readers = asking ∷ asking ∷ [] }

abbrev after : Shared unbounded files
after = record {
  kept = put (codes "/srv/a.js") script [];
  readers =
      record asking { pc = missed } ∷ record asking { body = script; pc = returned (pos 5) } ∷ [];
}

both-Reachable : Reachable unbounded files both after
unfolding to_int read_step get_entry load_file put_entry invalidate invalidate_at invalidate_all
    lookup files equal
both-Reachable =
    next
      (next
        (next (next here (ran [] (asking ∷ []) asking (record asking { pc = missed }) [] refl refl))
          (ran (record asking { pc = missed } ∷ []) [] asking (record asking { pc = missed }) []
            refl refl))
        (ran (record asking { pc = missed } ∷ []) [] (record asking { pc = missed })
          (record asking { body = script; pc = loaded script }) [] refl refl))
      (ran (record asking { pc = missed } ∷ []) []
        (record asking { body = script; pc = loaded script })
        (record asking { body = script; pc = returned (pos 5) }) (put (codes "/srv/a.js") script [])
        refl refl)

Reachable-IsShared_example : IsShared unbounded files after
Reachable-IsShared_example =
    Reachable-IsShared unbounded files
      (record { coherent = empty-IsCoherent; readings = (tt, (tt, tt)) }) both-Reachable

Runs-done_example :
    (c' : Dict) × Runs unbounded files asking []
      (done unbounded files (codes "/srv/a.js") [] true)
      c'
    × IsCoherent unbounded files c'
Runs-done_example = Runs-done unbounded files (codes "/srv/a.js") [] true [] empty-IsCoherent

-- A worker that uses a reference while another puts the same file is undefined.
put_races :
    invalidate unbounded files
      (some (codes "/srv/a.js"))
      (put (codes "/srv/a.js") script [])
      (record asking { pc = copying })
    ≡ record asking { pc = raced }
unfolding invalidate invalidate_at invalidate_held equal
put_races = refl
