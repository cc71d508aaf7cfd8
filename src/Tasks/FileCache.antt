-- ===== src/Tasks/FileCache.antt =====
-- What `ReadFile` relies on of the cache library in async/include (cache.hpp with the policy of
-- lfu_cache_policy.hpp), which is a parameter here, and `ReadFile` itself.
use technopark_highload.Prelude.{
  ℕ, ◌-◌, ◌%◌, ◌^◌, ◌<◌, ltb, arith, ◌≡◌, refl, sym, ◌∙◌, ◌⊎◌, inl, inr, Bool, true, false, Option,
  none, some, if◌then◌else◌, length, Option-cases, Bytes,
}
use technopark_highload.Prelude.Int.{ℤ, pos, negsuc}

-- A cache of texts under texts. `get` counts a use and may reorder; `put` may drop other entries.
pub record FileCache : Type 1 where
  pub Cache : Type 0
  pub lookup : Cache → Bytes → Option Bytes
  pub touch : Cache → Bytes → Cache
  pub put : Cache → Bytes → Bytes → Cache
  pub lookup-touch : (c : Cache) (k q : Bytes) → lookup (touch c k) q ≡ lookup c q
  pub lookup-put :
      (c : Cache) (k v q w : Bytes)
      → lookup (put c k v) q ≡ some w
      → ((k ≡ q) × (v ≡ w)) ⊎ (lookup c q ≡ some w)

-- `static_cast<int>` of a size
unfoldable pub to_int : ℕ → ℤ
to_int n = let m = n % 2 ^ 32 in if ltb m (2 ^ 31) then pos m else negsuc (2 ^ 32 - m - 1)

pub to_int-lt : (n : ℕ) → n < 2 ^ 31 → to_int n ≡ pos n
unfolding to_int
to_int-lt n h = ground arith

-- What the size of a file is as an `int`, and -1 for no file.
abbrev pub int_size : Option Bytes → ℤ
int_size none = negsuc 0
int_size (some content) = to_int (length content)

module _ (cache : FileCache) where
  open cache use {Cache, lookup, touch, put, lookup-touch, lookup-put}

  -- The readable files, by name.
  abbrev pub Files : Type 0
  Files = Bytes → Option Bytes

  -- the number returned, the body, and the cache
  pub record Reading : Type 0 where
    pub amount : ℤ
    pub body : Bytes
    pub kept : Cache

  -- behind the exception that a missing key raises
  unfoldable pub read_missing : Files → Cache → Bytes → Bytes → Bool → Reading
  read_missing files c filename body actually_read = elim (files filename) [
    | none ↦ record { amount = negsuc 0; body = body; kept = c }
    | some content ↦
        if actually_read
        then record {
          amount = to_int (length content);
          body = content;
          kept = put c filename content;
        }
        else record { amount = to_int (length content); body = body; kept = c }
  ]

  -- `ReadFile`
  unfoldable pub read_file : Files → Cache → Bytes → Bytes → Bool → Reading
  unfolding read_missing
  read_file files c filename body actually_read = elim (lookup c filename) [
    | none ↦ read_missing files c filename body actually_read
    | some value ↦ record {
      amount = to_int (length value);
      body = if actually_read then value else body;
      kept = touch c filename;
    }
  ]

  -- Every entry of the cache is what the file holds.
  abbrev pub IsCoherent : Files → Cache → Type 0
  IsCoherent files c = (k v : Bytes) → lookup c k ≡ some v → files k ≡ some v

  abbrev pub content_or : Bytes → Option Bytes → Bytes
  content_or body none = body
  content_or body (some content) = content

  pub touch-IsCoherent :
      (files : Files) (c : Cache) (k : Bytes) → IsCoherent files c → IsCoherent files (touch c k)
  touch-IsCoherent files c k coherent q v e = coherent q v (sym (lookup-touch c k q) ∙ e)

  pub put-IsCoherent :
      (files : Files) (c : Cache) (k v : Bytes)
      → IsCoherent files c
      → files k ≡ some v
      → IsCoherent files (put c k v)
  put-IsCoherent files c k v coherent e q w h = elim (lookup-put c k v q w h) [
    | inl (same, value) ↦ rw (← same) (rw (← value) e)
    | inr old ↦ coherent q w old
  ]

  read_missing-IsCoherent :
      (files : Files) (c : Cache) (filename body : Bytes) (b : Bool)
      → IsCoherent files c
      → ((read_missing files c filename body b).amount ≡ int_size (files filename))
        × ((read_missing files c filename body b).body
            ≡ (if b then content_or body (files filename) else body))
        × IsCoherent files (read_missing files c filename body b).kept
  unfolding read_missing
  read_missing-IsCoherent files c filename body true coherent =
      elim (Option-cases (files filename)) [
        | inl absent ↦ rw (absent, read_missing) (refl, refl, coherent)
        | inr (v, present) ↦
            rw (present, read_missing)
              (refl, refl, put-IsCoherent files c filename v coherent present)
      ]
  read_missing-IsCoherent files c filename body false coherent =
      elim (Option-cases (files filename)) [
        | inl absent ↦ rw (absent, read_missing) (refl, refl, coherent)
        | inr (v, present) ↦ rw (present, read_missing) (refl, refl, coherent)
      ]

  -- A read with a coherent cache reads the file, cached or not: its size as an `int`, its content if that was
  -- asked for, -1 and the old body if there is no such file. The cache stays coherent.
  pub read_file-IsCoherent :
      (files : Files) (c : Cache) (filename body : Bytes) (actually_read : Bool)
      → IsCoherent files c
      → ((read_file files c filename body actually_read).amount ≡ int_size (files filename))
        × ((read_file files c filename body actually_read).body
            ≡ (if actually_read then content_or body (files filename) else body))
        × IsCoherent files (read_file files c filename body actually_read).kept
  unfolding read_file
  read_file-IsCoherent files c filename body actually_read coherent =
      elim (Option-cases (lookup c filename)) [
        | inl miss ↦
            rw (miss, read_file)
              (read_missing-IsCoherent files c filename body actually_read coherent)
        | inr (v, hit) ↦
            let file = coherent filename v hit in
            rw (hit, read_file) (rw file (refl, refl, touch-IsCoherent files c filename coherent))
      ]
