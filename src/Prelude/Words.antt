-- ===== src/Prelude/Words.antt =====
-- 64-bit words: `u64` and, on the program's platforms, `usize`.
use Prim.Native.Nat.{ℕ, ◌+◌, ◌-◌, ◌%◌, ◌^◌, ◌≤◌, ◌<◌}
use mathlib.Core.Path.{◌≡◌}
use native.Mathlib.Omega.{arith}
use codex_warden.Prelude.Tests.{leb, if◌then◌else◌}

-- Signed values: `negsuc n` is one below the negative of `n`.
pub data ℤ : Type 0 where
  pos : ℕ → ℤ
  negsuc : ℕ → ℤ

abbrev pub word_mod : ℕ
word_mod = 2 ^ 64

abbrev pub word_max : ℕ
word_max = 2 ^ 64 - 1

-- `a + b` where it wraps around.
unfoldable pub wrapping_add : ℕ → ℕ → ℕ
wrapping_add a b = (a + b) % word_mod

unfoldable pub saturating_add : ℕ → ℕ → ℕ
saturating_add a b = if leb (a + b) word_max then a + b else word_max

-- `a.saturating_sub(b)`: subtraction on ℕ stops at 0.
abbrev pub saturating_sub : ℕ → ℕ → ℕ
saturating_sub a b = a - b

pub wrapping_add-eq : (a b : ℕ) → a + b < word_mod → wrapping_add a b ≡ a + b
unfolding wrapping_add
wrapping_add-eq a b h = omega arith

pub saturating_add-le : (a b : ℕ) → saturating_add a b ≤ a + b
unfolding saturating_add
saturating_add-le a b = ground arith
