-- ===== src/Base/Bits.antt =====
-- `n & mask`, where the mask is a run of low bits.
use Prim.Native.Nat.{ℕ, zero, suc, ◌+◌, ◌*◌, ◌-◌, ◌/◌, ◌%◌, ◌^◌, ◌≤◌, ◌<◌, min, digits, bit_and}
use Prim.Native.Nat.{bit_and-bitwise}
use mathlib.Core.Path.{◌≡◌, refl, sym, subst, ap, ◌∙◌}
use native.Mathlib.Omega.{arith}
use native.Mathlib.Nat.{
  pow-suc, one-le-pow, mod-lt, mod-eq_of_lt, div-add-mod, mul_right_comm, zero-mod,
  mul-add-mod_self_left,
}

pub mod_unique : (m q r : ℕ) → r < m → (m * q + r) % m ≡ r
mod_unique m q r h = mul-add-mod_self_left m q r ∙ mod-eq_of_lt h

doubled : (a m : ℕ) → 0 < m → (a / 2) % m * 2 + a % 2 ≡ a % (m * 2)
doubled a m h =
    let whole = div-add-mod (a / 2) m in
    let below = mod-lt (a / 2) h in
    let found = mod_unique (m * 2) (a / 2 / m) ((a / 2) % m * 2 + a % 2) (omega (arith, below)) in
    let parts : m * 2 * (a / 2 / m) + ((a / 2) % m * 2 + a % 2) ≡ a =
      omega (arith, whole, mul_right_comm m 2 (a / 2 / m)) in
    sym found ∙ subst (λ t. t % (m * 2) ≡ a % (m * 2)) (sym parts) refl

low_digits : (n k a : ℕ) → a ≤ n → digits (λ _. 0) min n a (2 ^ k - 1) ≡ a % 2 ^ k
low_digits zero k zero h = sym (zero-mod (2 ^ k))
low_digits zero k (suc a) h = absurd (omega (arith, h))
low_digits (suc n) k zero h = sym (zero-mod (2 ^ k))
low_digits (suc n) zero (suc a) h = omega (arith, low_digits n zero (suc a / 2) (omega (arith, h)))
low_digits (suc n) (suc k) (suc a) h =
    let half : (2 ^ suc k - 1) / 2 ≡ 2 ^ k - 1 =
      omega (arith, pow-suc 2 k, one-le-pow k 2 (omega arith)) in
    let rest : digits (λ _. 0) min n (suc a / 2) ((2 ^ suc k - 1) / 2) ≡ (suc a / 2) % 2 ^ k =
      rw half (low_digits n k (suc a / 2) (omega (arith, h))) in
    omega (
      arith,
      rest,
      doubled (suc a) (2 ^ k) (one-le-pow k 2 (omega arith)),
      ap (λ t. suc a % t) (pow-suc 2 k),
      pow-suc 2 k,
      one-le-pow k 2 (omega arith),
    )

pub bit_and_mask : (k a : ℕ) → bit_and a (2 ^ k - 1) ≡ a % 2 ^ k
bit_and_mask k a = simp bit_and-bitwise (low_digits a k a (omega arith))
