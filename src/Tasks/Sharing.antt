-- ===== src/Tasks/Sharing.antt =====
-- `ReadFile` of async/src/TaskFuncs.cpp as several workers run it at once on the one `fileCache`.
-- Each method of the cache holds the cache's own lock and is one step; `Get` gives out a reference,
-- which is read behind the lock, from one step to a further one.
pub mod Coherence
pub mod Alone
use technopark_highload.Prelude.{
  ◌≡◌, Bool, true, false, Option, none, some, List, [], ◌∷◌, ◌++◌, if◌then◌else◌, length, Bytes,
}
use technopark_highload.Prelude.Int.{ℤ, negsuc}
use technopark_highload.Text.{equal}
use technopark_highload.Tasks.FileCache.{FileCache, to_int}

-- Where a call stands: before `Get`, with the reference that `Get` returned, in the use of it, behind
-- its exception, and before `Put` with the content that has been read. Then it has returned its
-- number; or it holds a reference to an entry that another call has dropped or written, whose use is
-- undefined.
pub data ReadPc : Type 0 where
  asked referred copying missed : ReadPc
  loaded : Bytes → ReadPc
  returned : ℤ → ReadPc
  raced : ReadPc

-- a worker's call, with the worker's vector
pub record Reader : Type 0 where
  pub filename : Bytes
  pub actually_read : Bool
  pub body : Bytes
  pub pc : ReadPc

module _ (cache : FileCache) (files : Bytes → Option Bytes) where
  open cache use {Cache, lookup, touch, put}

  -- `fileCache.Get`
  unfoldable pub get_entry : Reader → Cache → Reader × Cache
  get_entry r c = elim (lookup c r.filename) [
    | some _ ↦ (record r { pc = referred }, touch c r.filename)
    | none ↦ (record r { pc = missed }, c)
  ]

  -- The use of the reference begins.
  unfoldable pub refer_entry : Reader → Cache → Reader × Cache
  refer_entry r c = (record r { pc = copying }, c)

  -- The use of the reference ends: the size, or a copy of the entry.
  unfoldable pub use_entry : Reader → Cache → Reader × Cache
  use_entry r c = elim (lookup c r.filename) [
    | some value ↦ (
      record r {
        body = if r.actually_read then value else r.body;
        pc = returned (to_int (length value));
      },
      c,
    )
    | none ↦ (record r { pc = raced }, c)
  ]

  -- the `catch` block up to `Put`
  unfoldable pub load_file : Reader → Cache → Reader × Cache
  load_file r c = elim (files r.filename) [
    | none ↦ (record r { pc = returned (negsuc 0) }, c)
    | some content ↦
        if r.actually_read
        then (record r { body = content; pc = loaded content }, c)
        else (record r { pc = returned (to_int (length content)) }, c)
  ]

  -- `fileCache.Put`, and the `return`
  unfoldable pub put_entry : Bytes → Reader → Cache → Reader × Cache
  put_entry content r c =
      (record r { pc = returned (to_int (length content)) }, put c r.filename content)

  -- The next step of a call; a call that has ended makes none.
  unfoldable pub read_step : ReadPc → Reader → Cache → Option (Reader × Cache)
  unfolding get_entry refer_entry use_entry load_file put_entry
  read_step asked r c = some (get_entry r c)
  read_step referred r c = some (refer_entry r c)
  read_step copying r c = some (use_entry r c)
  read_step missed r c = some (load_file r c)
  read_step (loaded content) r c = some (put_entry content r c)
  read_step (returned _) r c = none
  read_step raced r c = none

  -- the entry that a step writes: that of `Put`
  abbrev pub written_by : ReadPc → Reader → Option Bytes
  written_by (loaded content) r = some r.filename
  written_by _ r = none

  abbrev pub is_written : Option Bytes → Bytes → Bool
  is_written none key = false
  is_written (some k) key = equal k key

  -- The holder of a reference cannot use it any more once its entry is dropped, or is written: neither
  -- is ordered with the use, which holds no lock.
  unfoldable pub invalidate_held : Option Bytes → Cache → Reader → Reader
  invalidate_held written c r =
      if is_written written r.filename
      then record r { pc = raced }
      else (elim (lookup c r.filename) [ some _ ↦ r | none ↦ record r { pc = raced } ])

  unfoldable pub invalidate_at : ReadPc → Option Bytes → Cache → Reader → Reader
  unfolding invalidate_held
  invalidate_at referred written c r = invalidate_held written c r
  invalidate_at copying written c r = invalidate_held written c r
  invalidate_at _ written c r = r

  unfoldable pub invalidate : Option Bytes → Cache → Reader → Reader
  unfolding invalidate_at
  invalidate written c r = invalidate_at r.pc written c r

  unfoldable pub invalidate_all : Option Bytes → Cache → List Reader → List Reader
  unfolding invalidate
  invalidate_all written c [] = []
  invalidate_all written c (r ∷ rs) = invalidate written c r ∷ invalidate_all written c rs

  pub record Shared : Type 0 where
    pub kept : Cache
    pub readers : List Reader

  -- One of the workers makes a step of its call, or calls `ReadFile` when its last call has returned.
  pub data Step (s : Shared) : Shared → Type 0 where
    ran :
        (before after : List Reader) (r r' : Reader) (c : Cache)
        → s.readers ≡ before ++ r ∷ after
        → read_step r.pc r s.kept ≡ some (r', c)
        → Step s (
            let written = written_by r.pc r in
            record {
              kept = c;
              readers = invalidate_all written c before ++ r' ∷ invalidate_all written c after;
            })
    called :
        (before after : List Reader) (r : Reader) (amount : ℤ) (filename : Bytes) (b : Bool)
        → s.readers ≡ before ++ r ∷ after
        → r.pc ≡ returned amount
        → Step s (record s {
          readers =
              before ++ record r { filename = filename; actually_read = b; pc = asked } ∷ after;
        })

  -- from an empty cache, or any other, and calls that are about to begin
  pub data Reachable (s : Shared) : Shared → Type 0 where
    here : Reachable s s
    next : {t u : Shared} → Reachable s t → Step t u → Reachable s u
