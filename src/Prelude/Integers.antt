-- ===== src/Prelude/Integers.antt =====
-- Integers over the native numbers, for differences.
use Prim.Native.Nat.{ℕ, ◌-◌}
use bge_m3_embedding_server.Prelude.Tests.{leb, if◌then◌else◌}

-- `negsuc n` is `-(n + 1)`.
pub data ℤ : Type 0 where
  pos negsuc : ℕ → ℤ

unfoldable pub sub_ℤ : ℕ → ℕ → ℤ
sub_ℤ m n = if leb n m then pos (m - n) else negsuc (n - m - 1)
