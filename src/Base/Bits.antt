-- ===== src/Base/Bits.antt =====
-- The masks that the sources put on one byte, as arithmetic. Each law is a table, evaluated.
use Prim.Native.Nat.{ℕ, zero, suc, ◌+◌, ◌*◌, ◌/◌, ◌%◌, ◌<◌, bit_and, bit_or}
use mathlib.Core.Path.{◌≡◌, refl}
use mathlib.Core.Bool.{Bool, true, ◌&&◌}
use native.Mathlib.Omega.{arith}
use map_client.Base.Tests.{◌==◌}

module _ (f g : ℕ → ℕ) where
  same_below : ℕ → Bool
  same_below zero = true
  same_below (suc n) = f n == g n && same_below n

  same_below→eq : (n : ℕ) → same_below n ≡ true → (i : ℕ) → i < n → f i ≡ g i
  unfolding same_below
  same_below→eq zero e i h = absurd (omega arith)
  same_below→eq (suc n) e i h = ground (arith, same_below→eq n (ground arith) i)

-- `b & 0xc0`, the two top bits.
pub bit_and_0xc0 : (b : ℕ) → b < 256 → bit_and b 0xc0 ≡ b / 64 * 64
unfolding same_below
bit_and_0xc0 = same_below→eq _ _ 256 refl

-- `b & 0x80` and `b & ~0x80`, the final bit and the rest.
pub bit_and_0x80 : (b : ℕ) → b < 256 → bit_and b 0x80 ≡ b / 128 * 128
unfolding same_below
bit_and_0x80 = same_below→eq _ _ 256 refl

pub bit_and_0x7f : (b : ℕ) → b < 256 → bit_and b 0x7f ≡ b % 128
unfolding same_below
bit_and_0x7f = same_below→eq _ _ 256 refl

-- `b | 0x80`.
pub bit_or_0x80 : (b : ℕ) → b < 256 → bit_or b 0x80 ≡ b % 128 + 128
unfolding same_below
bit_or_0x80 = same_below→eq _ _ 256 refl
