-- ===== src/Tasks/Process/Outside.antt =====
-- That `MainProcessBasic` serves files from outside of the document root.
use technopark_highload.Dict.Laws.{lookup-put}
use technopark_highload.Dict.{lookup}
use technopark_highload.Http.Method
use technopark_highload.Http.Method.{get}
use technopark_highload.Http.Request.{HttpRequest}
use technopark_highload.Prelude.{
  ℕ, ◌^◌, ◌<◌, ◌≡◌, refl, ◌∙◌, ap, true, Option, none, some, ◌∷◌, [], ◌++◌, append_assoc, drop,
  length, Lacks, Bytes, codes,
}
use technopark_highload.Result.{ok}
use technopark_highload.Tasks.FileCache.{
  FileCache, IsCoherent, content_or, to_int-lt, read_file-IsCoherent,
}
use technopark_highload.Tasks.Locate.Root.{name, stem, query_text, locate-stem}
use technopark_highload.Tasks.Locate.{Location, locate}
use technopark_highload.Tasks.Process.Outcomes.{main_process_basic-served}
use technopark_highload.Tasks.Process.{
  Processed, request_headers, return_code, answer, main_process_basic,
}
use technopark_highload.Text.{equal, find}

module _ (cache : FileCache) (root : Bytes) (files : Bytes → Option Bytes) (body : Bytes)
    (kept : cache.Cache) where
  -- A GET of a URL of any first byte, `../` and a name with a dot, with or without a query, that
  -- holds no `/../`: if a file of that name, shorter than 2 ^ 31 bytes, is in the directory above
  -- the document root, `MainProcessBasic` with a coherent cache answers 200 with its content.
  pub main_process_basic-out_of_root :
      (r : HttpRequest) (c : ℕ) (base ext content : Bytes) (query : Option Bytes)
      → r.request_method ≡ get
      → r.url ≡ stem (c ∷ codes "..") base ext ++ query_text query
      → find (codes "/../") r.url ≡ none
      → Lacks b'?' (stem (c ∷ codes "..") base ext)
      → Lacks b'/' base
      → Lacks b'.' ext
      → IsCoherent cache files kept
      → files (root ++ (codes "/../" ++ name [] base ext)) ≡ some content
      → length content < 2 ^ 31
      → (done : Processed cache) × (main_process_basic cache root files
            (request_headers r)
            body
            kept
          ≡ ok done)
        × (done.body ≡ content)
        × (lookup return_code done.headers ≡ some (codes "200 OK"))
  unfolding answer equal Method.request_method_to_string
  main_process_basic-out_of_root r c base ext content query method url inside clean slash dot
        coherent present small =
      let place = locate-stem root (c ∷ codes "..") base ext query clean slash dot in
      let l : Location = record {
        path = root ++ (codes "/" ++ drop 1 ((c ∷ codes "..") ++ b'/' ∷ []));
        filename = name (c ∷ codes "..") base ext;
      } in
      let path : l.path ++ l.filename ≡ root ++ (codes "/../" ++ name [] base ext) =
        simp append_assoc in
      let there = ap files path ∙ present in
      let read = read_file-IsCoherent cache files kept (l.path ++ l.filename) body true coherent in
      (
        _,
        main_process_basic-served cache root files r body kept l (rw method refl) inside
            (ap (locate root) url ∙ place),
        rw method (read.1 ∙ ap (content_or cache body) there),
        rw method (rw (read.0, there, to_int-lt (length content) small) (simp lookup-put)),
      )
