-- ===== src/Pipeline/Conserved/Counting.antt =====
-- How often a descriptor stands in a list, and what the operations of the pipeline do to that.
use mathlib.Core.Path.{subst}
use technopark_highload.Client.Reads.{recv_header_async-eq_ok}
use technopark_highload.Client.{HttpClient, recv_header_async, recv_body_async, split_message}
use technopark_highload.Http.Request.{parse, get_content_length}
use technopark_highload.Pipeline.Invariant.{keys}
use technopark_highload.Pipeline.Entries.{same_sd-eq}
use technopark_highload.Pipeline.{Sd, same_sd, find_task, erase, get_sd, Arrival, receive_client}
use technopark_highload.Prelude.Int.{ℤ}
use technopark_highload.Prelude.{
  ℕ, ◌+◌, ◌≡◌, refl, ap, ◌∙◌, inl, inr, arith, Bool, false, List, [], ◌∷◌, ◌++◌, none, some,
  if◌then◌else◌, All, Bool-cases,
}
use technopark_highload.Result.{Error, ok, err, Result-cases}
use technopark_highload.Socket.Receive.{Answer}
use technopark_highload.Worker.{Task}

abbrev pub one : Sd → Sd → ℕ
one k sd = if same_sd sd k then 1 else 0

abbrev pub count : Sd → List Sd → ℕ
count k [] = 0
count k (sd ∷ sds) = one k sd + count k sds

abbrev pub client_sds : List HttpClient → List Sd
client_sds [] = []
client_sds (c ∷ cs) = get_sd c ∷ client_sds cs

abbrev pub task_sds : List Task → List Sd
task_sds [] = []
task_sds (t ∷ ts) = get_sd t.input ∷ task_sds ts

module _ (k : Sd) where
  pub count-client_sds :
      (cs : List HttpClient) (c : HttpClient)
      → count k (client_sds (cs ++ c ∷ [])) ≡ count k (client_sds cs) + one k (get_sd c)
  count-client_sds [] c = omega arith
  count-client_sds (d ∷ cs) c = omega (arith, count-client_sds cs c)

  pub count-task_sds :
      (ts : List Task) (t : Task)
      → count k (task_sds (ts ++ t ∷ [])) ≡ count k (task_sds ts) + one k (get_sd t.input)
  count-task_sds [] t = omega arith
  count-task_sds (u ∷ ts) t = omega (arith, count-task_sds ts t)

  pub count-erase :
      (sd : Sd) (m : List (Sd × Task)) {t : Task}
      → find_task sd m ≡ ok t
      → count k (keys m) ≡ one k sd + count k (keys (erase sd m))
  unfolding find_task erase
  count-erase sd [] found = cc
  count-erase sd ((l, u) ∷ m) {t = t} found = elim (Bool-cases (same_sd l sd)) [
    | inl same ↦
        let it = same_sd-eq l sd same in rw (erase, same) (ap (λ x. one k x + count k (keys m)) it)
    | inr other ↦
        let there : find_task sd m ≡ ok t = ground arith in
        let rest = count-erase sd m {t = t} there in rw (erase, other) (omega arith)
  ]

pub erase-absent :
    (sd : Sd) (m : List (Sd × Task)) {e : Error} → find_task sd m ≡ err e → erase sd m ≡ m
unfolding find_task erase
erase-absent sd [] absent = refl
erase-absent sd ((l, u) ∷ m) {e = e} absent = ground (arith, erase-absent sd m {e = e})

-- The tasks wait under the descriptors of their clients.
abbrev pub Owns : Sd × Task → Type 0
Owns e = get_sd e.1.input ≡ e.0

abbrev pub IsOwned : List (Sd × Task) → Type 0
IsOwned m = All Owns m

recv_body_async_socket :
    (c : HttpClient) (n : ℤ) (a : List Answer) {c' : HttpClient} {done : Bool}
    → recv_body_async c n a ≡ ok (c', done)
    → c'.socket ≡ c.socket
unfolding recv_body_async
recv_body_async_socket c n a e = ground arith

recv_header_async_socket :
    (c : HttpClient) (a : Answer) {c' : HttpClient}
    → recv_header_async c a ≡ ok c'
    → c'.socket ≡ c.socket
unfolding split_message
recv_header_async_socket c a {c' = c'} e =
    let (buffer, i, shift, read, found, same) = recv_header_async-eq_ok c a e in
    subst (λ (d : HttpClient). d.socket ≡ c.socket) same refl

unread_socket :
    (c : HttpClient) (a : Arrival) {c' : HttpClient} {done : Bool}
    → c.received_header ≡ false
    → receive_client c a ≡ ok (c', done)
    → c'.socket ≡ c.socket
unfolding receive_client
unread_socket c a {c' = c'} {done = done} unread e =
    elim (Result-cases (recv_header_async c a.first)) [
      | inl (x, thrown) ↦ ground arith
      | inr (c'', read) ↦
          let same = recv_header_async_socket c a.first read in
          elim (Bool-cases c''.received_header) [
            | inr absent ↦ ground arith
            | inl there ↦ elim (Result-cases (parse c''.header)) [
              | inl (x, refused) ↦ ground arith
              | inr (r, parsed) ↦ elim (Result-cases (get_content_length r)) [
                | inl (x, thrown) ↦ ground arith
                | inr (n, size) ↦
                    let body : recv_body_async (record c'' { content_length = n }) a.count a.more
                        ≡ ok (c', done) =
                      ground arith in
                    recv_body_async_socket (record c'' { content_length = n }) a.count a.more body
                    ∙ same
              ]
            ]
          ]
    ]

-- A client keeps its descriptor.
pub receive_client-get_sd :
    (c : HttpClient) (a : Arrival) {c' : HttpClient} {done : Bool}
    → receive_client c a ≡ ok (c', done)
    → get_sd c' ≡ get_sd c
unfolding receive_client
receive_client-get_sd c a {c' = c'} {done = done} e = elim (Bool-cases c.received_header) [
  | inr absent ↦ ap (λ s. elim s [ none ↦ none | some x ↦ some x.sd ]) (unread_socket c a absent e)
  | inl there ↦
      let body : recv_body_async c a.count a.more ≡ ok (c', done) = ground arith in
      ap (λ s. elim s [ none ↦ none | some x ↦ some x.sd ])
        (recv_body_async_socket c a.count a.more body)
]
