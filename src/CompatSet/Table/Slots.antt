-- ===== src/CompatSet/Table/Slots.antt =====
-- Writes to the slots of a table, and what a search finds after them.
use native.Mathlib.Decide.{ℕ_discrete}
use indy_node.Base.{
  ℕ, zero, suc, ◌+◌, ◌<◌, Bool, true, false, some, List, [], ◌∷◌, length, ◌≡◌, refl, sym, ap, ◌∙◌,
  ◌≢◌, inl, inr, arith, Bool-cases,
}
use indy_node.CompatSet.{Slot, free, removed, entry, slot_at, put_slot, free_slots, is_entry}
use indy_node.CompatSet.Path.{first}
use indy_node.CompatSet.Table.{entries}

abbrev pub bit : Bool → ℕ
bit true = 1
bit false = 0

pub length-free_slots {ℓ} : (A : Type ℓ) (n : ℕ) → length (free_slots {A = A} n) ≡ n
length-free_slots A zero = refl
length-free_slots A (suc n) = ap suc (length-free_slots A n)

module _ {ℓ} {A : Type ℓ} where
  pub length-put_slot :
      (table : List (Slot A)) (i : ℕ) (s : Slot A) → length (put_slot table i s) ≡ length table
  length-put_slot [] i s = refl
  length-put_slot (r ∷ table) zero s = refl
  length-put_slot (r ∷ table) (suc i) s = ap suc (length-put_slot table i s)

  pub slot_at-put_slot :
      (table : List (Slot A)) (i : ℕ) (s : Slot A)
      → i < length table
      → slot_at (put_slot table i s) i ≡ s
  slot_at-put_slot [] i s h = absurd (omega (arith, h))
  slot_at-put_slot (r ∷ table) zero s h = refl
  slot_at-put_slot (r ∷ table) (suc i) s h = slot_at-put_slot table i s (omega (arith, h))

  pub slot_at-put_slot_other :
      (table : List (Slot A)) (i j : ℕ) (s : Slot A)
      → i ≢ j
      → slot_at (put_slot table i s) j ≡ slot_at table j
  slot_at-put_slot_other [] i j s n = refl
  slot_at-put_slot_other (r ∷ table) zero zero s n = absurd (n refl)
  slot_at-put_slot_other (r ∷ table) zero (suc j) s n = refl
  slot_at-put_slot_other (r ∷ table) (suc i) zero s n = refl
  slot_at-put_slot_other (r ∷ table) (suc i) (suc j) s n =
      slot_at-put_slot_other table i j s (λ e. n (ap suc e))

  -- How many slots pass a test.
  unfoldable pub tally : (Slot A → Bool) → List (Slot A) → ℕ
  tally p [] = 0
  tally p (s ∷ table) = bit (p s) + tally p table

  pub tally-put_slot :
      (p : Slot A → Bool) (table : List (Slot A)) (i : ℕ) (s : Slot A)
      → i < length table
      → tally p (put_slot table i s) + bit (p (slot_at table i)) ≡ tally p table + bit (p s)
  unfolding tally
  tally-put_slot p [] i s h = absurd (omega (arith, h))
  tally-put_slot p (r ∷ table) zero s h = omega arith
  tally-put_slot p (r ∷ table) (suc i) s h =
      omega (arith, tally-put_slot p table i s (omega (arith, h)))

  -- A test that fewer slots pass than there are fails at one of them.
  pub tally-lt :
      (p : Slot A → Bool) (table : List (Slot A))
      → tally p table < length table
      → (i : ℕ) × (i < length table) × (p (slot_at table i) ≡ false)
  unfolding tally
  tally-lt p [] h = absurd (omega (arith, h))
  tally-lt p (s ∷ table) h = elim (Bool-cases (p s)) [
    | inl e ↦
        let less : tally p table < length table = ground (arith, h, e) in
        let (i, below, f) = tally-lt p table less in (suc i, omega (arith, below), f)
    | inr e ↦ (0, omega arith, e)
  ]

  pub tally-free_slots : (p : Slot A → Bool) → p free ≡ false → (n : ℕ) → tally p (free_slots n) ≡ 0
  unfolding tally
  tally-free_slots p e zero = refl
  tally-free_slots p e (suc n) = ground (arith, e, tally-free_slots p e n)

  pub slot_at-free_slots : (n i : ℕ) → slot_at (free_slots {A = A} n) i ≡ free
  slot_at-free_slots zero i = refl
  slot_at-free_slots (suc n) zero = refl
  slot_at-free_slots (suc n) (suc i) = slot_at-free_slots n i

  pub length-entries : (table : List (Slot A)) → length (entries table) ≡ tally is_entry table
  unfolding tally
  length-entries [] = refl
  length-entries (free ∷ table) = omega (arith, length-entries table)
  length-entries (removed ∷ table) = omega (arith, length-entries table)
  length-entries (entry x ∷ table) = omega (arith, length-entries table)

  -- What a search finds passes the test.
  pub first-passes :
      (p : Slot A → Bool) (table : List (Slot A)) (is : List ℕ) (j : ℕ)
      → first p table is ≡ some j
      → p (slot_at table j) ≡ true
  unfolding first
  first-passes p table [] j e = absurd (ground (arith, e))
  first-passes p table (i ∷ is) j e = ground (arith, first-passes p table is j)

  -- A write of a slot that fails the test, elsewhere than where the search ends.
  pub first-put_slot_other :
      (p : Slot A → Bool) (table : List (Slot A)) (is : List ℕ) (j k : ℕ) (s : Slot A)
      → k < length table
      → k ≢ j
      → p s ≡ false
      → first p table is ≡ some j
      → first p (put_slot table k s) is ≡ some j
  unfolding first
  first-put_slot_other p table [] j k s h n f e = e
  first-put_slot_other p table (i ∷ is) j k s h n f e =
      let rest = first-put_slot_other p table is j k s h n f in
      elim (ℕ_discrete k i) [
        | yes same ↦
            let fails : p (slot_at (put_slot table k s) i) ≡ false =
              ap (λ t. p (slot_at (put_slot table k s) t)) (sym same)
              ∙ ap p (slot_at-put_slot table k s h)
              ∙ f in
            ground (arith, fails, e, rest, same, n)
        | no other ↦
            let kept : p (slot_at (put_slot table k s) i) ≡ p (slot_at table i) =
              ap p (slot_at-put_slot_other table k i s other) in
            ground (arith, kept, e, rest)
      ]

  -- A write of a slot that passes the test, where the search ends.
  pub first-put_slot :
      (p : Slot A → Bool) (table : List (Slot A)) (is : List ℕ) (j : ℕ) (s : Slot A)
      → j < length table
      → p s ≡ true
      → first p table is ≡ some j
      → first p (put_slot table j s) is ≡ some j
  unfolding first
  first-put_slot p table [] j s h f e = e
  first-put_slot p table (i ∷ is) j s h f e =
      let rest = first-put_slot p table is j s h f in
      elim (ℕ_discrete j i) [
        | yes same ↦
            let here : p (slot_at (put_slot table j s) i) ≡ true =
              ap (λ t. p (slot_at (put_slot table j s) t)) (sym same)
              ∙ ap p (slot_at-put_slot table j s h)
              ∙ f in
            ground (arith, here, same)
        | no other ↦
            let kept : p (slot_at (put_slot table j s) i) ≡ p (slot_at table i) =
              ap p (slot_at-put_slot_other table j i s other) in
            ground (arith, kept, e, rest)
      ]
