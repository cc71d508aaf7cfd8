-- ===== src/Worker/Site.antt =====
-- What a worker answers to any sequence of requests, as a site would that has no cache, no header
-- map and no states: all that it remembers is the last body.
use technopark_highload.Http.Method
use technopark_highload.Http.Method.{RequestMethod, get, head}
use technopark_highload.Http.Request.{HttpRequest, parse}
use technopark_highload.Prelude.{
  ℕ, ◌≡◌, ◌≢◌, refl, ◌⊎◌, Bool, true, false, Option, none, some, List, [], ◌∷◌, ◌++◌, if◌then◌else◌,
  length, Bytes, codes,
}
use technopark_highload.Result.{ok, err}
use technopark_highload.Tasks.Locate.{Location, locate, index_html}
use technopark_highload.Text.{equal, find}
use technopark_highload.Worker.Sending.{formed}
use technopark_highload.Worker.{Task}

-- A return code, the length that the header names, and the body.
pub record Reply : Type 0 where
  pub code : Bytes
  pub size : ℕ
  pub body : Bytes

abbrev pub forbidden : Bytes → Reply
forbidden last = record { code = codes "403 Forbidden"; size = 0; body = last }

-- What a file is answered with; without a content the last body goes out again.
abbrev pub reply_file : Bool → Option Bytes → Bytes → Bytes → Reply
reply_file true (some content) name last = record {
  code = codes "200 OK";
  size = length content;
  body = content;
}
reply_file false (some content) name last = record {
  code = codes "200 OK";
  size = length content;
  body = last;
}
reply_file _ none name last = record {
  code = if equal name index_html then codes "403 Forbidden" else codes "404 Not_Found";
  size = 0;
  body = last;
}

abbrev pub is_get : HttpRequest → Bool
is_get r = equal (Method.request_method_to_string r.request_method) (codes "GET")

-- One request, its time, and the task that brings it.
pub record Visit : Type 0 where
  pub now : Bytes
  pub task : Task
  pub request : HttpRequest

-- The header parses as a GET or HEAD with a version.
pub record IsVisit (v : Visit) : Type 0 where
  pub parsed : parse v.task.input.header ≡ ok v.request
  pub versioned : v.request.http_version ≢ []
  pub method : (v.request.request_method ≡ get) ⊎ (v.request.request_method ≡ head)

abbrev pub tasks_of : List Visit → List (Bytes × Task)
tasks_of [] = []
tasks_of (v ∷ vs) = (v.now, v.task) ∷ tasks_of vs

module _ (root : Bytes) (files : Bytes → Option Bytes) where
  -- What a request is answered with. A URL always names a file: `locate` does not throw.
  unfoldable pub reply : HttpRequest → Bytes → Reply
  unfolding equal find locate Method.request_method_to_string
  reply r last = elim (find (codes "/../") r.url) [
    | some _ ↦ forbidden last
    | none ↦ elim (locate root r.url) [
      | ok l ↦ reply_file (is_get r) (files (l.path ++ l.filename)) l.filename last
      | err _ ↦ forbidden last
    ]
  ]

  -- The bytes of the responses in their order, and the body that is held last.
  unfoldable pub replies : List Visit → Bytes → List Bytes × Bytes
  unfolding reply
  replies [] last = ([], last)
  replies (v ∷ vs) last =
      let a = reply v.request last in
      let (more, end) = replies vs a.body in
      (((formed v.now v.request a.code a.size a.body).response_header ++ a.body) ∷ more, end)

  pub reply-forbidden :
      (r : HttpRequest) (last : Bytes) (i : ℕ)
      → find (codes "/../") r.url ≡ some i
      → reply r last ≡ forbidden last
  unfolding reply
  reply-forbidden r last i found = rw (reply, found) refl

  pub reply-reply_file :
      (r : HttpRequest) (last : Bytes) (l : Location)
      → find (codes "/../") r.url ≡ none
      → locate root r.url ≡ ok l
      → reply r last ≡ reply_file (is_get r) (files (l.path ++ l.filename)) l.filename last
  unfolding reply
  reply-reply_file r last l clean place = rw (reply, clean, place) refl
