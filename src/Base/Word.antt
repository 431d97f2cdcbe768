-- ===== src/Base/Word.antt =====
-- 64-bit counters, as the release profile computes them, and big-endian 32-bit numbers.
use Prim.Native.Nat.{ℕ, ◌+◌, ◌*◌, ◌/◌, ◌%◌, ◌^◌, ◌<◌}
use mathlib.Core.Path.{◌≡◌}
use mathlib.Core.List.{List, [], ◌∷◌}
use native.Mathlib.Omega.{arith}

abbrev pub u64_mod : ℕ
u64_mod = 2 ^ 64

abbrev pub u32_mod : ℕ
u32_mod = 2 ^ 32

-- `n += 1` on a `u64`.
unfoldable pub u64_succ : ℕ → ℕ
u64_succ n = (n + 1) % u64_mod

pub u64_succ-eq : (n : ℕ) → n + 1 < u64_mod → u64_succ n ≡ n + 1
unfolding u64_succ
u64_succ-eq n h = omega arith

-- `u32::to_be_bytes`
unfoldable pub be_bytes : ℕ → List ℕ
be_bytes n = n / 2 ^ 24 % 256 ∷ n / 2 ^ 16 % 256 ∷ n / 2 ^ 8 % 256 ∷ n % 256 ∷ []

-- `u32::from_be_bytes`
unfoldable pub from_be : ℕ → ℕ → ℕ → ℕ → ℕ
from_be a b c d = a * 2 ^ 24 + b * 2 ^ 16 + c * 2 ^ 8 + d
