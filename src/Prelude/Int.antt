-- ===== src/Prelude/Int.antt =====
-- Signed integers over the native numbers: `negsuc n` is -(n + 1).
use Prim.Native.Nat.{ℕ, ◌-◌, ◌^◌, ◌%◌}

pub data ℤ : Type 0 where
  pos : ℕ → ℤ
  negsuc : ℕ → ℤ

-- `static_cast<size_t>(i)`
abbrev pub to_size : ℤ → ℕ
to_size (pos n) = n % 2 ^ 64
to_size (negsuc n) = (2 ^ 64 - (n % 2 ^ 64) - 1) % 2 ^ 64

-- `i < 0 ? 0 : i`
abbrev pub clamp : ℤ → ℕ
clamp (pos n) = n
clamp (negsuc n) = 0
