-- ===== src/Tests/Tasks.antt =====
-- The functions of a task at concrete requests.
use technopark_highload.Dict.{lookup}
use technopark_highload.Http.Method.{get}
use technopark_highload.Http.Request.{HttpRequest}
use technopark_highload.Prelude.{
  ◌≡◌, refl, Option, none, some, [], ◌++◌, arith, if◌then◌else◌, Bytes, codes,
}
use technopark_highload.Result.{ok}
use technopark_highload.Tasks.Locate.Root.{locate-under_root}
use technopark_highload.Tasks.Locate.{Location, locate}
use technopark_highload.Tasks.Process.Outside.{main_process_basic-out_of_root}
use technopark_highload.Tasks.Process.{Processed, request_headers, return_code, main_process_basic}
use technopark_highload.Tests.Site.{unbounded, empty-IsCoherent_of}
use technopark_highload.Text.{equal, find, starts_with}

locate-under_root_example :
    (l : Location) × (locate (codes "/srv") (codes "/index.min.html?v=1.2") ≡ ok l)
    × (l.path ++ l.filename ≡ codes "/srv/index.min.html")
locate-under_root_example =
    locate-under_root (codes "/srv") none (codes "index.min") (codes "html") (some (codes "v=1.2"))
      (omega arith) (omega arith) (omega arith)

-- A file beside the document root.
shadow_files : Bytes → Option Bytes
shadow_files name = if equal name (codes "/srv/../shadow.txt") then some (codes "root") else none

abbrev shadow : HttpRequest
shadow = record {
  request_method = get;
  url = codes "x../shadow.txt";
  http_version = codes "1.1";
  headers = [];
}

main_process_basic-out_of_root_example :
    (done : Processed unbounded) × (main_process_basic unbounded
        (codes "/srv")
        shadow_files
        (request_headers shadow)
        []
        []
      ≡ ok done)
    × (done.body ≡ codes "root")
    × (lookup return_code done.headers ≡ some (codes "200 OK"))
unfolding shadow_files equal find starts_with
main_process_basic-out_of_root_example =
    main_process_basic-out_of_root unbounded (codes "/srv") shadow_files [] [] shadow b'x'
      (codes "shadow") (codes "txt") (codes "root") none refl refl refl (omega arith) (omega arith)
      (omega arith) (empty-IsCoherent_of shadow_files) refl (omega arith)
