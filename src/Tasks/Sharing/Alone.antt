-- ===== src/Tasks/Sharing/Alone.antt =====
-- A call of `ReadFile` that no other worker disturbs.
use technopark_highload.Prelude.{
  ◌≡◌, refl, ◌∙◌, Bool, true, false, inl, inr, Option, some, if◌then◌else◌, Option-cases, Bytes,
}
use technopark_highload.Tasks.FileCache.{
  FileCache, int_size, IsCoherent, content_or, touch-IsCoherent, put-IsCoherent,
}
use technopark_highload.Tasks.Sharing.{
  asked, referred, copying, missed, loaded, returned, Reader, get_entry, refer_entry, use_entry,
  load_file, put_entry, read_step,
}

module _ (cache : FileCache) (files : Bytes → Option Bytes) where
  open cache use {Cache, lookup, touch, put, lookup-touch}

  -- Steps of one call, as long as it makes any.
  pub data Runs (r : Reader) (c : Cache) : Reader → Cache → Type 0 where
    here : Runs r c r c
    next :
        {r' r'' : Reader} {c' c'' : Cache}
        → Runs r c r' c'
        → read_step cache files r'.pc r' c' ≡ some (r'', c'')
        → Runs r c r'' c''

  -- a call that has read the file
  abbrev pub done : Bytes → Bytes → Bool → Reader
  done filename body b = record {
    filename = filename;
    actually_read = b;
    body = if b then content_or cache body (files filename) else body;
    pc = returned (int_size (files filename));
  }

  missed-done :
      (filename body : Bytes) (b : Bool) (c : Cache) {start : Reader} {c' : Cache}
      → IsCoherent cache files c
      → Runs start c'
          (record { filename = filename; actually_read = b; body = body; pc = missed })
          c
      → (c'' : Cache) × Runs start c' (done filename body b) c'' × IsCoherent cache files c''
  unfolding read_step load_file
  missed-done filename body true c coherent asks = elim (Option-cases (files filename)) [
    | inl absent ↦ (c, rw absent (next asks (rw (load_file, absent) refl)), coherent)
    | inr (v, present) ↦
        let loads : Runs _ _
            (record { filename = filename; actually_read = true; body = v; pc = loaded v }) c =
          next asks (rw (load_file, present) refl) in
        (
          put c filename v,
          rw present (next loads (unfold put_entry in refl)),
          put-IsCoherent cache files c filename v coherent present,
        )
  ]
  missed-done filename body false c coherent asks = elim (Option-cases (files filename)) [
    | inl absent ↦ (c, rw absent (next asks (rw (load_file, absent) refl)), coherent)
    | inr (v, present) ↦ (c, rw present (next asks (rw (load_file, present) refl)), coherent)
  ]

  -- A call of `ReadFile` that runs alone on a coherent cache ends, whether the file is cached or not:
  -- it returns the size of the file as an `int`, or -1 if there is none, and leaves the content in the
  -- body if that was asked for and there is a file, and else the body as it was. The cache stays
  -- coherent.
  pub Runs-done :
      (filename body : Bytes) (b : Bool) (c : Cache)
      → IsCoherent cache files c
      → (c' : Cache) × Runs
          (record { filename = filename; actually_read = b; body = body; pc = asked })
          c
          (done filename body b)
          c'
        × IsCoherent cache files c'
  unfolding read_step
  Runs-done filename body b c coherent =
      let r : Reader = record { filename = filename; actually_read = b; body = body; pc = asked } in
      elim (Option-cases (lookup c filename)) [
        | inr (v, hit) ↦
            let kept = lookup-touch c filename filename ∙ hit in
            let file = coherent filename v hit in
            let refers : Runs r c (record r { pc = referred }) (touch c filename) =
              next here (rw (read_step, get_entry, hit) refl) in
            let copies : Runs r c (record r { pc = copying }) (touch c filename) =
              next refers (unfold refer_entry in refl) in
            (
              touch c filename,
              rw file (next copies (rw (read_step, use_entry, kept) refl)),
              touch-IsCoherent cache files c filename coherent,
            )
        | inl miss ↦
            let asks : Runs r c (record r { pc = missed }) c =
              next here (rw (read_step, get_entry, miss) refl) in
            missed-done filename body b c coherent asks
      ]
