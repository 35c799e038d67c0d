-- ===== src/Prelude/Bits.antt =====
-- Facts about `&` on the native numbers: its lowest bit, masks of ones, and the powers of two.
use Prim.Native.Nat.{
  ℕ, zero, suc, ◌+◌, ◌-◌, ◌*◌, ◌/◌, ◌%◌, ◌^◌, ◌≤◌, ◌<◌, min, bit_and, digits, bit_and-bitwise,
}
use mathlib.Core.Path.{◌≡◌, refl, ap, ◌∙◌}
use mathlib.Core.Logic.{◌⊎◌, inl, inr}
use native.Mathlib.Omega.{arith}
use native.Mathlib.Nat.{mod_self}

-- From the definition that the native operation stands for.
abbrev and_digits : ℕ → ℕ → ℕ → ℕ
and_digits n a b = digits (λ b. zero) min n a b

and_digits-fuel : (n m a b : ℕ) → a ≤ n → a ≤ m → and_digits n a b ≡ and_digits m a b
and_digits-fuel zero zero a b p q = refl
and_digits-fuel zero (suc m) zero b p q = refl
and_digits-fuel zero (suc m) (suc a) b p q = absurd (omega arith)
and_digits-fuel (suc n) zero zero b p q = refl
and_digits-fuel (suc n) zero (suc a) b p q = absurd (omega arith)
and_digits-fuel (suc n) (suc m) zero b p q = refl
and_digits-fuel (suc n) (suc m) (suc a) b p q =
    omega (arith, and_digits-fuel n m (suc a / 2) (b / 2) (omega arith) (omega arith))

bit_and_zero_left : (b : ℕ) → bit_and 0 b ≡ 0
bit_and_zero_left b = bit_and-bitwise 0 b

bit_and_step : (a b : ℕ) → bit_and a b ≡ bit_and (a / 2) (b / 2) * 2 + min (a % 2) (b % 2)
bit_and_step zero b = omega (arith, bit_and_zero_left b, bit_and_zero_left (b / 2))
bit_and_step (suc a) b = omega (
  arith,
  bit_and-bitwise (suc a) b,
  bit_and-bitwise (suc a / 2) (b / 2),
  and_digits-fuel a (suc a / 2) (suc a / 2) (b / 2) (omega arith) (omega arith),
)

bit_and_zero_fuel : (n a : ℕ) → a ≤ n → bit_and a 0 ≡ 0
bit_and_zero_fuel n zero h = refl
bit_and_zero_fuel zero (suc a) h = absurd (omega arith)
bit_and_zero_fuel (suc n) (suc a) h =
    omega (arith, bit_and_step (suc a) 0, bit_and_zero_fuel n (suc a / 2) (omega arith))

pub pow_pos : (k : ℕ) → 0 < 2 ^ k
pow_pos zero = omega arith
pow_pos (suc k) = omega (arith, pow_pos k)

mod_double : (a p : ℕ) → 0 < p → a % (2 * p) ≡ a / 2 % p * 2 + a % 2
mod_double a p h = grind arith

-- A mask of `k` ones keeps the low `k` bits.
pub bit_and_mask : (k a : ℕ) → bit_and a (2 ^ k - 1) ≡ a % 2 ^ k
bit_and_mask zero a = omega (arith, bit_and_zero_fuel a a (omega arith))
bit_and_mask (suc k) a =
    let pos_k = pow_pos k in
    let low : (2 ^ suc k - 1) / 2 ≡ 2 ^ k - 1 = omega arith in
    let odd : (2 ^ suc k - 1) % 2 ≡ 1 = omega arith in
    let step = bit_and_step a (2 ^ suc k - 1) in
    let ih = bit_and_mask k (a / 2) in
    let twice : 2 ^ suc k ≡ 2 * 2 ^ k = omega arith in
    let halves : a % 2 ^ suc k ≡ a / 2 % 2 ^ k * 2 + a % 2 =
      ap (λ m. a % m) twice ∙ mod_double a (2 ^ k) pos_k in
    rw step (rw (low, odd) (rw ih (omega (arith, halves))))

bit_and_self_fuel : (n a : ℕ) → a ≤ n → bit_and a a ≡ a
bit_and_self_fuel n zero h = refl
bit_and_self_fuel zero (suc a) h = absurd (omega arith)
bit_and_self_fuel (suc n) (suc a) h =
    omega (arith, bit_and_step (suc a) (suc a), bit_and_self_fuel n (suc a / 2) (omega arith))

bit_and_self : (a : ℕ) → bit_and a a ≡ a
bit_and_self a = bit_and_self_fuel a a (omega arith)

parity : (n : ℕ) → ((m : ℕ) × (n ≡ m * 2)) ⊎ ((m : ℕ) × (n ≡ m * 2 + 1))
parity zero = inl (0, refl)
parity (suc n) = elim (parity n) [
  | inl (m, e) ↦ inr (m, omega arith)
  | inr (m, e) ↦ inl (suc m, omega arith)
]

-- `n & (n - 1)` is zero only at a power of two, and at zero.
power_of_bits : (fuel n : ℕ) → n ≤ fuel → 0 < n → bit_and n (n - 1) ≡ 0 → (k : ℕ) × (n ≡ 2 ^ k)
power_of_bits zero n le pos_n e = absurd (omega arith)
power_of_bits (suc fuel) n le pos_n e = elim (parity n) [
  | inl (m, even) ↦
      let low : (n - 1) / 2 ≡ m - 1 = omega arith in
      let half : n / 2 ≡ m = omega arith in
      let step = bit_and_step n (n - 1) in
      let (k, power) =
        power_of_bits fuel m (omega arith) (omega arith)
          (omega (arith, rw (low, half) at step, e)) in
      (suc k, omega (arith, power))
  | inr (m, odd) ↦
      let low : (n - 1) / 2 ≡ m = omega arith in
      let half : n / 2 ≡ m = omega arith in
      let step = bit_and_step n (n - 1) in
      let same = bit_and_self m in (0, omega (arith, rw (low, half) at step, same, e))
]

pub bit_and-power : (k : ℕ) → bit_and (2 ^ k) (2 ^ k - 1) ≡ 0
bit_and-power k = bit_and_mask k (2 ^ k) ∙ mod_self (2 ^ k)

-- `n & (n - 1)` is zero exactly at zero and at the powers of two.
pub bit_and_pred : (n : ℕ) → bit_and n (n - 1) ≡ 0 → (n ≡ 0) ⊎ ((k : ℕ) × (n ≡ 2 ^ k))
bit_and_pred zero e = inl refl
bit_and_pred (suc n) e = inr (power_of_bits (suc n) (suc n) (omega arith) (omega arith) e)
