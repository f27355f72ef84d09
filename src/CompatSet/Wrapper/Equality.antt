-- ===== src/CompatSet/Wrapper/Equality.antt =====
-- `__eq__` of two sets looks at the first `len(self)` slots of the table only.
use indy_node.Base.{
  ℕ, zero, suc, ◌+◌, ◌<◌, true, false, List, ◌≡◌, refl, arith, if◌then◌else◌, num_eq,
}
use indy_node.CompatSet.{Key, Slot, free, removed, entry, Inner, slot_at, is_entry}
use indy_node.CompatSet.Table.{returns, ◌>>=◌, contains_entry}
use indy_node.CompatSet.Algebra.{inner_eq, eq_loop, compat}
use indy_node.CompatSet.Wrapper.{set_eq}

module _ {ℓ} {A : Type ℓ} ⦃key : Key A⦄ where
  eq_loop-no_entry :
      (other : Inner A) (table : List (Slot A)) (n i : ℕ)
      → ((j : ℕ) → j < i + n → is_entry (slot_at table j) ≡ false)
      → eq_loop other table n i ≡ returns true
  unfolding eq_loop
  eq_loop-no_entry other table zero i none_there = refl
  eq_loop-no_entry other table (suc n) i none_there =
      at_slot (slot_at table i) (none_there i (omega arith))
        (eq_loop-no_entry other table n (suc i) (λ j b. none_there j (omega (arith, b))))
    where
      at_slot :
          (r : Slot A)
          → is_entry r ≡ false
          → eq_loop other table n (suc i) ≡ returns true
          → (elim r [
            | entry x ↦ contains_entry other x >>= λ found.
                if found then eq_loop other table n (suc i) else returns false
            | _ ↦ eq_loop other table n (suc i)
          ])
            ≡ returns true
      at_slot free e rest = rest
      at_slot removed e rest = rest
      at_slot (entry x) e rest = absurd (ground (arith, e))

  -- Two sets of one size count as equal when the first slots of the other's table, as many as it
  -- has elements, hold none.
  pub set_eq-no_entry :
      (s other : Inner A)
      → other.used ≡ s.used
      → ((j : ℕ) → j < other.used → is_entry (slot_at other.table j) ≡ false)
      → set_eq s (compat other) ≡ returns true
  unfolding set_eq inner_eq
  set_eq-no_entry s other e none_there =
      let sizes : num_eq s.used other.used ≡ true = ground arith in
      rw sizes
        (eq_loop-no_entry s other.table other.used 0 (λ j b. none_there j (omega (arith, b))))
