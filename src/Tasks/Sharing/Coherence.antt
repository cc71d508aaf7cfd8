-- ===== src/Tasks/Sharing/Coherence.antt =====
-- What holds of the shared cache and of every call, in whatever order the workers step.
use mathlib.Core.Path.{subst}
use technopark_highload.Prelude.{
  ◌≡◌, ◌≢◌, refl, inl, inr, true, Option, none, some, List, [], ◌∷◌, arith, Bool-cases,
  Option-cases, All, All-append, All-middle, Bytes,
}
use technopark_highload.Tasks.FileCache.{
  FileCache, int_size, IsCoherent, touch-IsCoherent, put-IsCoherent,
}
use technopark_highload.Tasks.Sharing.{
  ReadPc, asked, referred, copying, missed, loaded, returned, raced, refer_entry, written_by,
  is_written, invalidate_held, Reader, get_entry, use_entry, load_file, put_entry, read_step,
  invalidate, invalidate_at, invalidate_all, Shared, Step, ran, called, Reachable, here, next,
}

module _ (cache : FileCache) (files : Bytes → Option Bytes) where
  open cache use {Cache, lookup, touch, put, lookup-touch}

  -- A call that has returned has read the file: its size, and its content if that was asked for. A
  -- call that can use its reference has one to an entry of the cache.
  abbrev pub IsReading : ReadPc → Reader → Cache → Type 0
  IsReading (loaded content) r c = (files r.filename ≡ some content) × (r.body ≡ content)
  IsReading (returned amount) r c =
      (amount ≡ int_size (files r.filename))
      × ((content : Bytes)
          → r.actually_read ≡ true
          → files r.filename ≡ some content
          → r.body ≡ content)
  IsReading referred r c = lookup c r.filename ≢ none
  IsReading copying r c = lookup c r.filename ≢ none
  IsReading _ r c = Unit

  pub record IsShared (s : Shared cache files) : Type 0 where
    pub coherent : IsCoherent cache files s.kept
    pub readings : All (λ r. IsReading r.pc r s.kept) s.readers

  get_entry-IsReading :
      (r : Reader) (c : Cache)
      → IsCoherent cache files c
      → (let (r', c') = get_entry cache files r c in
          IsCoherent cache files c' × IsReading r'.pc r' c')
  unfolding get_entry
  get_entry-IsReading r c coherent = elim (Option-cases (lookup c r.filename)) [
    | inl miss ↦ rw (get_entry, miss) (coherent, tt)
    | inr (v, hit) ↦
        rw (get_entry, hit)
          (
            touch-IsCoherent cache files c r.filename coherent,
            λ e. cc (hit, lookup-touch c r.filename r.filename),
          )
  ]

  use_entry-IsReading :
      (r : Reader) (c : Cache)
      → IsCoherent cache files c
      → (let (r', c') = use_entry cache files r c in
          IsCoherent cache files c' × IsReading r'.pc r' c')
  unfolding use_entry
  use_entry-IsReading r c coherent = elim (Option-cases (lookup c r.filename)) [
    | inl gone ↦ rw (use_entry, gone) (coherent, tt)
    | inr (v, there) ↦
        let file = coherent r.filename v there in
        rw (use_entry, there) (coherent, (rw file refl, λ content asked_for e. ground arith))
  ]

  load_file-IsReading :
      (r : Reader) (c : Cache)
      → IsCoherent cache files c
      → (let (r', c') = load_file cache files r c in
          IsCoherent cache files c' × IsReading r'.pc r' c')
  unfolding load_file
  load_file-IsReading r c coherent = elim (Option-cases (files r.filename)) [
    | inl absent ↦ rw (load_file, absent) (coherent, (rw absent refl, λ content asked_for e. cc))
    | inr (v, present) ↦ elim (Bool-cases r.actually_read) [
      | inl read ↦ rw (load_file, present, read) (coherent, (present, refl))
      | inr size ↦
          rw (load_file, present, size) (coherent, (rw present refl, λ content asked_for e. cc))
    ]
  ]

  put_entry-IsReading :
      (content : Bytes) (r : Reader) (c : Cache)
      → files r.filename ≡ some content
      → r.body ≡ content
      → IsCoherent cache files c
      → (let (r', c') = put_entry cache files content r c in
          IsCoherent cache files c' × IsReading r'.pc r' c')
  unfolding put_entry
  put_entry-IsReading content r c present held coherent = (
    put-IsCoherent cache files c r.filename content coherent present,
    (rw present refl, λ content' asked_for e'. ground arith),
  )

  read_step-IsReading :
      (pc : ReadPc) (r r' : Reader) (c c' : Cache)
      → IsReading pc r c
      → IsCoherent cache files c
      → read_step cache files pc r c ≡ some (r', c')
      → IsCoherent cache files c' × IsReading r'.pc r' c'
  unfolding read_step
  read_step-IsReading asked r r' c c' h coherent e =
      let same : get_entry cache files r c ≡ (r', c') = cc in
      rw same at (get_entry-IsReading r c coherent)
  read_step-IsReading referred r r' c c' h coherent e =
      let same : refer_entry cache files r c ≡ (r', c') = cc in
      subst (λ after. IsCoherent cache files after.1 × IsReading after.0.pc after.0 after.1) same
        (unfold refer_entry in (coherent, h))
  read_step-IsReading copying r r' c c' h coherent e =
      let same : use_entry cache files r c ≡ (r', c') = cc in
      rw same at (use_entry-IsReading r c coherent)
  read_step-IsReading missed r r' c c' h coherent e =
      let same : load_file cache files r c ≡ (r', c') = cc in
      rw same at (load_file-IsReading r c coherent)
  read_step-IsReading (loaded content) r r' c c' (present, held) coherent e =
      let same : put_entry cache files content r c ≡ (r', c') = cc in
      subst (λ after. IsCoherent cache files after.1 × IsReading after.0.pc after.0 after.1) same
        (put_entry-IsReading content r c present held coherent)
  read_step-IsReading (returned amount) r r' c c' h coherent e = cc
  read_step-IsReading raced r r' c c' h coherent e = cc

  invalidate_held-IsReading :
      (written : Option Bytes) (r : Reader) (c' : Cache)
      → ((lookup c' r.filename ≢ none) → IsReading r.pc r c')
      → (let r' = invalidate_held cache files written c' r in IsReading r'.pc r' c')
  unfolding invalidate_held
  invalidate_held-IsReading written r c' holds =
      elim (Bool-cases (is_written cache files written r.filename)) [
        | inl wrote ↦ rw (invalidate_held, wrote) tt
        | inr other ↦ elim (Option-cases (lookup c' r.filename)) [
          | inl gone ↦ rw (invalidate_held, other, gone) tt
          | inr (v, there) ↦ rw (invalidate_held, other, there) (holds (λ gone. cc))
        ]
      ]

  invalidate_at-IsReading :
      (written : Option Bytes) (pc : ReadPc) (r : Reader) (c c' : Cache)
      → r.pc ≡ pc
      → IsReading pc r c
      → (let r' = invalidate_at cache files pc written c' r in IsReading r'.pc r' c')
  unfolding invalidate_at
  invalidate_at-IsReading written asked r c c' e h = rw e tt
  invalidate_at-IsReading written referred r c c' e h =
      invalidate_held-IsReading written r c' (λ there. rw e there)
  invalidate_at-IsReading written copying r c c' e h =
      invalidate_held-IsReading written r c' (λ there. rw e there)
  invalidate_at-IsReading written missed r c c' e h = rw e tt
  invalidate_at-IsReading written (loaded content) r c c' e h = rw e h
  invalidate_at-IsReading written (returned amount) r c c' e h = rw e h
  invalidate_at-IsReading written raced r c c' e h = rw e tt

  invalidate_all-IsReading :
      (written : Option Bytes) (rs : List Reader) (c c' : Cache)
      → All (λ r. IsReading r.pc r c) rs
      → All (λ r. IsReading r.pc r c') (invalidate_all cache files written c' rs)
  unfolding invalidate_all invalidate
  invalidate_all-IsReading written [] c c' h = tt
  invalidate_all-IsReading written (r ∷ rs) c c' (at, h) = (
    invalidate_at-IsReading written r.pc r c c' refl at,
    invalidate_all-IsReading written rs c c' h,
  )

  Step-IsShared : {s t : Shared cache files} → Step cache files s t → IsShared s → IsShared t
  Step-IsShared {s} (ran before after r r' c e stepped) h =
      let (front, at, back) =
        All-middle (λ r. IsReading r.pc r s.kept) before r after (rw e at h.readings) in
      let (coherent, reading) = read_step-IsReading r.pc r r' s.kept c at h.coherent stepped in
      let written = written_by cache files r.pc r in
      record {
        coherent = coherent;
        readings =
            All-append (λ r. IsReading r.pc r c) (invalidate_all cache files written c before) _
              (invalidate_all-IsReading written before s.kept c front)
              (reading, invalidate_all-IsReading written after s.kept c back);
      }
  Step-IsShared {s} (called before after r amount filename b e returns) h =
      let (front, at, back) =
        All-middle (λ r. IsReading r.pc r s.kept) before r after (rw e at h.readings) in
      record {
        coherent = h.coherent;
        readings = All-append (λ r. IsReading r.pc r s.kept) before _ front (tt, back);
      }

  -- Any number of workers read files, in whatever order their steps come, from a coherent cache
  -- and calls that are about to begin or have read their files. Then the cache stays coherent, and
  -- each call that returns has read its file: its size as an `int`, or -1 if there is no file, and
  -- its content if that was asked for. Of a call whose reference into the cache another call has
  -- invalidated, by dropping or writing the entry, nothing is said; any other reference is to an
  -- entry of the cache.
  pub Reachable-IsShared :
      {s t : Shared cache files} → IsShared s → Reachable cache files s t → IsShared t
  Reachable-IsShared h here = h
  Reachable-IsShared h (next before step) = Step-IsShared step (Reachable-IsShared h before)
