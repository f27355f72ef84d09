-- ===== src/CompatSet/Orbit.antt =====
-- The walk `i -> 5 * i + 1` modulo a power of two visits every residue.
use native.Mathlib.Nat.{pow-suc, one-le-pow, mod-lt, div-add-mod}
use native.Mathlib.Decide.{ℕ_discrete}
use Prim.Native.Nat.{◌/◌, ◌%◌, ◌^◌}
use indy_node.Base.{ℕ, zero, suc, ◌+◌, ◌*◌, ◌<◌, ◌⊎◌, inl, inr, ◌≡◌, refl, sym, ap, ap₂, ◌∙◌, arith}
use indy_node.Base.Bits.{mod_unique}

abbrev pub steps : ℕ → ℕ → ℕ
steps zero x = x
steps (suc n) x = steps n (5 * x + 1)

steps-add : (m n x : ℕ) → steps (m + n) x ≡ steps n (steps m x)
steps-add zero n x = let e : 0 + n ≡ n = omega arith in rw e refl
steps-add (suc m) n x =
    let e : suc m + n ≡ suc (m + n) = omega arith in rw e (steps-add m n (5 * x + 1))

twice :
    (q u w x : ℕ)
    → (1 + 4 * q * u) * ((1 + 4 * q * u) * x + q * (2 * w + 1)) + q * (2 * w + 1)
      ≡ (1 + 4 * (q * 2) * (u + 2 * q * u * u)) * x
        + q * 2 * (2 * (w + q * u + 2 * w * (q * u)) + 1)
twice q u w x = omega arith

-- `2 ^ k` steps are an affine map.
power_steps :
    (k : ℕ)
    → (u : ℕ) × (w : ℕ) × ((x : ℕ)
        → steps (2 ^ k) x ≡ (1 + 4 * 2 ^ k * u) * x + 2 ^ k * (2 * w + 1))
power_steps zero = (1, 0, λ x. omega arith)
power_steps (suc k) =
    let (u, w, h) = power_steps k in
    let q = 2 ^ k in
    let double : q * 2 ≡ q + q = omega arith in
    (
      u + 2 * q * u * u,
      w + q * u + 2 * w * (q * u),
      λ x. rw (pow-suc 2 k) (
          ap (λ t. steps t x) double
          ∙ steps-add q q x
          ∙ h (steps q x)
          ∙ ap (λ t. (1 + 4 * q * u) * t + q * (2 * w + 1)) (h x)
          ∙ twice q u w x),
    )

mod_half : (q a r : ℕ) → r < q → (q * a + r) % (q * 2) ≡ q * (a % 2) + r
mod_half q a r h =
    let half : 2 * (a / 2) + a % 2 ≡ a = omega arith in
    let split : q * 2 * (a / 2) + (q * (a % 2) + r) ≡ q * a + r =
      omega (arith, ap (λ t. q * t) half) in
    rw (← split) (mod_unique (q * 2) (a / 2) (q * (a % 2) + r) (below (a % 2) (omega arith)))
  where
    below : (b : ℕ) → b < 2 → q * b + r < q * 2
    below zero p = omega (arith, h)
    below (suc zero) p = omega (arith, h)
    below (suc (suc b)) p = absurd (omega (arith, p))

module _ (q : ℕ) (pos : 0 < q) where
  residue : (y : ℕ) → y % (q * 2) ≡ q * (y / q % 2) + y % q
  residue y =
      ap (λ t. t % (q * 2)) (sym (div-add-mod y q)) ∙ mod_half q (y / q) (y % q) (mod-lt y pos)

  -- An odd number of halves further.
  residue_odd : (y v : ℕ) → (y + q * (2 * v + 1)) % (q * 2) ≡ q * ((y / q + 1) % 2) + y % q
  residue_odd y v =
      let split : y + q * (2 * v + 1) ≡ q * (y / q + (2 * v + 1)) + y % q =
        omega (arith, div-add-mod y q) in
      let parity : (y / q + (2 * v + 1)) % 2 ≡ (y / q + 1) % 2 = omega arith in
      ap (λ t. t % (q * 2)) split
      ∙ mod_half q (y / q + (2 * v + 1)) (y % q) (mod-lt y pos)
      ∙ ap (λ t. q * t + y % q) parity

  residue_other :
      (y j v : ℕ)
      → y % q ≡ j % q
      → (y % (q * 2) ≡ j % (q * 2)) ⊎ ((y + q * (2 * v + 1)) % (q * 2) ≡ j % (q * 2))
  residue_other y j v e = elim (parities (y / q) (j / q)) [
    | inl p ↦ inl (residue y ∙ ap₂ (λ s t. q * s + t) p e ∙ sym (residue j))
    | inr p ↦ inr (residue_odd y v ∙ ap₂ (λ s t. q * s + t) p e ∙ sym (residue j))
  ]
    where
      parities : (a b : ℕ) → (a % 2 ≡ b % 2) ⊎ ((a + 1) % 2 ≡ b % 2)
      parities a b = elim (ℕ_discrete (a % 2) (b % 2)) [
        | yes p ↦ inl p
        | no p ↦ inr (omega (arith, p))
      ]

-- Every residue is reached within `2 ^ k` steps.
pub steps-reach : (k x j : ℕ) → (n : ℕ) × (n < 2 ^ k) × (steps n x % 2 ^ k ≡ j % 2 ^ k)
steps-reach zero x j = (0, omega arith, omega arith)
steps-reach (suc k) x j =
    let (n, below, e) = steps-reach k x j in
    let (u, w, h) = power_steps k in
    let q = 2 ^ k in
    let y = steps n x in
    let further : steps (n + q) x ≡ y + q * (2 * (2 * u * y + w) + 1) =
      steps-add n q x ∙ h y ∙ omega arith in
    rw (pow-suc 2 k) (elim (residue_other q (one-le-pow k 2 (omega arith)) y j (2 * u * y + w) e) [
      | inl p ↦ (n, omega (arith, below), p)
      | inr p ↦ (n + q, omega (arith, below), ap (λ t. t % (q * 2)) further ∙ p)
    ])
