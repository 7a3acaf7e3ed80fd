-- ===== src/Base/BitAnd.antt =====
-- The conjunction of two words does not mind their order.
use Prim.Native.Nat.{ℕ, zero, suc, ◌+◌, ◌/◌, ◌≤◌, min, bit_and, bit_and-bitwise, digits}
use mathlib.Core.Path.{◌≡◌, refl, sym, ◌∙◌}
use native.Mathlib.Omega.{arith}

-- The digits of the conjunction, `n` of them to go.
abbrev conjunction : ℕ → ℕ → ℕ → ℕ
conjunction = digits (λ b. zero) min

conjunction_zero : (n a : ℕ) → conjunction n a 0 ≡ 0
conjunction_zero zero a = refl
conjunction_zero (suc n) zero = refl
conjunction_zero (suc n) (suc a) = omega (arith, conjunction_zero n (suc a / 2))

conjunction_fuel : (n m a b : ℕ) → a ≤ n → a ≤ m → conjunction n a b ≡ conjunction m a b
conjunction_fuel zero zero a b h k = refl
conjunction_fuel zero (suc m) zero b h k = refl
conjunction_fuel zero (suc m) (suc a) b h k = absurd (omega arith)
conjunction_fuel (suc n) zero zero b h k = refl
conjunction_fuel (suc n) zero (suc a) b h k = absurd (omega arith)
conjunction_fuel (suc n) (suc m) zero b h k = refl
conjunction_fuel (suc n) (suc m) (suc a) b h k =
    omega (arith, conjunction_fuel n m (suc a / 2) (b / 2) (omega arith) (omega arith))

conjunction_comm : (n a b : ℕ) → a ≤ n → b ≤ n → conjunction n a b ≡ conjunction n b a
conjunction_comm zero a b h k = refl
conjunction_comm (suc n) zero zero h k = refl
conjunction_comm (suc n) zero (suc b) h k = sym (conjunction_zero (suc n) (suc b))
conjunction_comm (suc n) (suc a) zero h k = conjunction_zero (suc n) (suc a)
conjunction_comm (suc n) (suc a) (suc b) h k =
    omega (arith, conjunction_comm n (suc a / 2) (suc b / 2) (omega arith) (omega arith))

pub bit_and_comm : (a b : ℕ) → bit_and a b ≡ bit_and b a
bit_and_comm a b =
    let first : bit_and a b ≡ conjunction a a b = λ i. bit_and-bitwise a b i in
    let second : bit_and b a ≡ conjunction b b a = λ i. bit_and-bitwise b a i in
    first
    ∙ conjunction_fuel a (a + b) a b (omega arith) (omega arith)
    ∙ conjunction_comm (a + b) a b (omega arith) (omega arith)
    ∙ conjunction_fuel (a + b) b b a (omega arith) (omega arith)
    ∙ sym second
