-- ===== src/CompatSet/Reach.antt =====
-- In a table whose size is a power of two, the probes of a hash that is not negative visit every
-- slot: the perturbation is used up, and then the walk `i -> 5 * i + 1` visits every index.
use Prim.Native.Nat.{◌/◌, ◌%◌, ◌^◌}
use native.Mathlib.Nat.{
  one-le-pow, mod-lt, mod-mod, mod-eq_of_lt, div-add-mod, mul-add-mod_self_left,
}
use indy_node.Base.{
  ℕ, zero, suc, ◌+◌, ◌-◌, ◌*◌, ◌<◌, ◌≤◌, Bool, true, some, List, [], ◌∷◌, ◌++◌, ◌⊎◌, inl, inr, ◌≡◌,
  refl, sym, ap, ◌∙◌, subst, arith, Bool-cases,
}
use indy_node.Base.Bits.{bit_and_mask}
use indy_node.CompatSet.{ℤ, pos, Slot, slot_at, turn, turns, next_index, shift, masked}
use indy_node.CompatSet.Orbit.{steps, steps-reach}
use indy_node.CompatSet.Path.{path, probes, first}

abbrev pub In : ℕ → List ℕ → Type 0
In j [] = ⊥
In j (i ∷ is) = (i ≡ j) ⊎ In j is

In-append_right : (j : ℕ) (is js : List ℕ) → In j js → In j (is ++ js)
In-append_right j [] js h = h
In-append_right j (i ∷ is) js h = inr (In-append_right j is js h)

-- A search along indices one of which passes the test finds one.
pub first-In {ℓ} :
    {A : Type ℓ} (p : Slot A → Bool) (table : List (Slot A)) (is : List ℕ) (j : ℕ)
    → In j is
    → p (slot_at table j) ≡ true
    → (i : ℕ) × (first p table is ≡ some i)
unfolding first
first-In p table [] j h e = absurd h
first-In p table (i ∷ is) j h e = elim (Bool-cases (p (slot_at table i))) [
  | inl f ↦ (i, rw f refl)
  | inr f ↦ elim h [
    | inl same ↦ absurd (ground (arith, ap (λ t. p (slot_at table t)) same))
    | inr later ↦ let (k, g) = first-In p table is j later e in (k, rw f g)
  ]
]

-- The index and the perturbation after a number of turns.
abbrev walk : ℕ → ℕ → ℕ → ℤ → ℕ
walk mask zero i p = i
walk mask (suc t) i p = walk mask t (next_index mask i (shift p)) (shift p)

abbrev shifts : ℕ → ℤ → ℤ
shifts zero p = p
shifts (suc t) p = shifts t (shift p)

walk-In : (mask t n i : ℕ) (p : ℤ) → t < n → In (walk mask t i p) (path n mask i p)
unfolding path turn
walk-In mask t zero i p h = absurd (omega (arith, h))
walk-In mask zero (suc n) i p h = inl refl
walk-In mask (suc t) (suc n) i p h =
    In-append_right _ (turn mask i) _ (walk-In mask t n _ (shift p) (omega (arith, h)))

walk-add :
    (mask s t i : ℕ) (p : ℤ) → walk mask (s + t) i p ≡ walk mask t (walk mask s i p) (shifts s p)
walk-add mask zero t i p = let e : 0 + t ≡ t = omega arith in rw e refl
walk-add mask (suc s) t i p =
    let e : suc s + t ≡ suc (s + t) = omega arith in rw e (walk-add mask s t _ (shift p))

shifts-zero : (t h : ℕ) → h ≤ t → shifts t (pos h) ≡ pos 0
shifts-zero zero h le = ap pos (omega (arith, le))
shifts-zero (suc t) h le = shifts-zero t (h / 32) (omega (arith, le))

module _ (q : ℕ) where
  steps_congr : (t x y : ℕ) → x % q ≡ y % q → steps t x % q ≡ steps t y % q
  steps_congr zero x y e = e
  steps_congr (suc t) x y e =
      steps_congr t (5 * x + 1) (5 * y + 1) (step x ∙ rw e refl ∙ sym (step y))
    where
      step : (z : ℕ) → (5 * z + 1) % q ≡ (5 * (z % q) + 1) % q
      step z =
          let whole : 5 * z + 1 ≡ q * (5 * (z / q)) + (5 * (z % q) + 1) =
            omega (arith, div-add-mod z q) in
          ap (λ t. t % q) whole ∙ mul-add-mod_self_left q (5 * (z / q)) (5 * (z % q) + 1)

module _ (k : ℕ) where
  masked-lt : (n : ℕ) → masked (pos n) (2 ^ k - 1) < 2 ^ k
  masked-lt n = rw bit_and_mask (mod-lt n (one-le-pow k 2 (omega arith)))

  walk-steps : (t i : ℕ) → i < 2 ^ k → walk (2 ^ k - 1) t i (pos 0) ≡ steps t i % 2 ^ k
  walk-steps zero i h = sym (mod-eq_of_lt h)
  walk-steps (suc t) i h =
      let five : i * 5 + 1 + 0 ≡ 5 * i + 1 = omega arith in
      walk-steps t _ (masked-lt (i * 5 + 1 + 0))
      ∙ steps_congr (2 ^ k) t _ (5 * i + 1) (rw (five, bit_and_mask) (mod-mod (5 * i + 1) (2 ^ k)))

  walk-lt : (t i h : ℕ) → i < 2 ^ k → walk (2 ^ k - 1) t i (pos h) < 2 ^ k
  walk-lt zero i h le = le
  walk-lt (suc t) i h le = walk-lt t _ (h / 32) (masked-lt (i * 5 + 1 + h / 32))

  -- Every index of the table is among the probes.
  pub probes-reach : (h j : ℕ) → j < 2 ^ k → In j (probes (2 ^ k - 1) (pos h))
  unfolding probes turns
  probes-reach h j le =
      let q = 2 ^ k in
      let start = masked (pos h) (q - 1) in
      let i = walk (q - 1) h start (pos h) in
      let (n, below, e) = steps-reach k i j in
      let found : walk (q - 1) (h + n) start (pos h) ≡ j =
        walk-add (q - 1) h n start (pos h)
        ∙ ap (λ p. walk (q - 1) n i p) (shifts-zero h h (omega arith))
        ∙ walk-steps n i (walk-lt h start h (masked-lt h))
        ∙ e
        ∙ mod-eq_of_lt le in
      subst (λ t. In t (path (h + (q - 1) + 3) (q - 1) start (pos h))) found
        (walk-In (q - 1) (h + n) (h + (q - 1) + 3) start (pos h) (omega (arith, below)))
