-- ===== src/Base/Int.antt =====
-- Signed machine integers as they are read, `negsuc n` for -(n + 1), and the casts between them.
use Prim.Native.Nat.{ℕ, suc, ◌-◌, ◌%◌, ◌^◌}
use chimes_utils.Base.Tests.{ltb, if◌then◌else◌}

pub data ℤ : Type 0 where
  pos : ℕ → ℤ
  negsuc : ℕ → ℤ

-- The casts `as u64` and `as u32` of a signed number.
unfoldable pub as_unsigned : ℕ → ℤ → ℕ
as_unsigned w (pos n) = n % 2 ^ w
as_unsigned w (negsuc n) = 2 ^ w - suc (n % 2 ^ w)

-- The cast `as i32`.
unfoldable pub as_i32 : ℤ → ℤ
unfolding as_unsigned
as_i32 i = let u = as_unsigned 32 i in if ltb u (2 ^ 31) then pos u else negsuc (2 ^ 32 - suc u)
