-- ===== src/CompatSet/Table/Good.antt =====
-- The invariant of a table, and what `look_entry` finds under it.
use Prim.Native.Nat.{◌^◌}
use native.Mathlib.Nat.{one-le-pow}
use indy_node.Base.{
  ℕ, zero, suc, ◌-◌, ◌<◌, ◌≤◌, Bool, true, false, not, ◌||◌, some, List, [], ◌∷◌, length, ◌≡◌, refl,
  sym, ap, ◌∙◌, ◌⊎◌, inl, inr, arith, Bool-cases, subst,
}
use indy_node.CompatSet.{Key, pos, Slot, free, removed, entry, Inner, slot_at, is_entry, look_table}
use indy_node.CompatSet.Path.{is_free, stops, probes, look_table-first}
use indy_node.CompatSet.Reach.{In, probes-reach, first-In}
use indy_node.CompatSet.Bound.{Below, probes-Below, first-Below}
use indy_node.CompatSet.Table.{entries}
use indy_node.CompatSet.Table.Slots.{tally, tally-lt, first-passes}

module _ {ℓ} {A : Type ℓ} where
  abbrev pub is_taken : Slot A → Bool
  is_taken s = not (is_free s)

-- No hash is negative.
abbrev pub Plain {ℓ} : (A : Type ℓ) ⦃key : Key A⦄ → Type ℓ
Plain A ⦃key⦄ = (x : A) → (n : ℕ) × (key.hash x ≡ pos n)

module _ {ℓ} {A : Type ℓ} ⦃key : Key A⦄ where
  -- `x` is one of the list's elements.
  unfoldable pub member : A → List A → Bool
  member x [] = false
  member x (y ∷ ys) = key.equal y x || member x ys

  pub member-slot :
      (x : A) (table : List (Slot A)) (j : ℕ)
      → slot_at table j ≡ entry x
      → member x (entries table) ≡ true
  unfolding member
  member-slot x [] j e = absurd (ground (arith, e))
  member-slot x (entry y ∷ table) zero e = ground (arith, e, key.equal_refl x)
  member-slot x (free ∷ table) zero e = absurd (ground (arith, e))
  member-slot x (removed ∷ table) zero e = absurd (ground (arith, e))
  member-slot x (entry y ∷ table) (suc j) e = ground (arith, member-slot x table j e)
  member-slot x (free ∷ table) (suc j) e = member-slot x table j e
  member-slot x (removed ∷ table) (suc j) e = member-slot x table j e

  pub slot-member :
      (x : A) (table : List (Slot A))
      → member x (entries table) ≡ true
      → (j : ℕ) × (slot_at table j ≡ entry x)
  unfolding member
  slot-member x [] e = absurd (ground (arith, e))
  slot-member x (entry y ∷ table) e = elim (Bool-cases (key.equal y x)) [
    | inl f ↦ (0, ap entry (key.equal_sound y x f))
    | inr f ↦ let (j, g) = slot-member x table (ground (arith, e, f)) in (suc j, g)
  ]
  slot-member x (free ∷ table) e = let (j, g) = slot-member x table e in (suc j, g)
  slot-member x (removed ∷ table) e = let (j, g) = slot-member x table e in (suc j, g)

  -- The size is a power of two, the counters count, one slot at least is free, and every entry
  -- stands where a search for it ends.
  pub record IsGood (s : Inner A) : Type ℓ where
    pub order : ℕ
    pub size : s.mask ≡ 2 ^ order - 1
    pub slots : length s.table ≡ 2 ^ order
    pub filled : tally is_taken s.table ≡ s.fill
    pub counted : tally is_entry s.table ≡ s.used
    pub room : s.fill ≤ s.mask
    pub sound : (j : ℕ) (x : A) → slot_at s.table j ≡ entry x → look_table s.table s.mask x ≡ some j

  free-stops : (x : A) (r : Slot A) → is_taken r ≡ false → stops x r ≡ true
  free-stops x free e = refl
  free-stops x removed e = absurd (ground (arith, e))
  free-stops x (entry y) e = absurd (ground (arith, e))

  stop-cases : (x : A) (r : Slot A) → stops x r ≡ true → (r ≡ free) ⊎ (r ≡ entry x)
  stop-cases x free e = inl refl
  stop-cases x removed e = absurd (ground (arith, e))
  stop-cases x (entry y) e = inr (ap entry (key.equal_sound y x e))

  -- Where no hash is negative, the search ends within its turns, at an index of the table, whose
  -- slot is free or holds the element.
  pub look-IsGood :
      (s : Inner A) (x : A)
      → Plain A
      → IsGood s
      → (j : ℕ) × (look_table s.table s.mask x ≡ some j)
        × (j < length s.table)
        × ((slot_at s.table j ≡ free) ⊎ (slot_at s.table j ≡ entry x))
  look-IsGood s x plain good =
      let q = 2 ^ good.order in
      let pos_q : 0 < q = one-le-pow good.order 2 (omega arith) in
      let (i, below, untaken) =
        tally-lt is_taken s.table
          (omega (arith, good.filled, good.room, good.size, good.slots, pos_q)) in
      let (n, plain_hash) = plain x in
      let reached : In i (probes s.mask (key.hash x)) =
        subst (λ t. In i (probes t (key.hash x))) (sym good.size)
          (rw plain_hash (probes-reach good.order n i (subst (λ t. i < t) good.slots below))) in
      let inside : Below q (probes s.mask (key.hash x)) =
        subst (λ t. Below q (probes t (key.hash x))) (sym good.size)
          (probes-Below good.order (key.hash x)) in
      let (j, found) = first-In (stops x) s.table _ i reached (free-stops x _ untaken) in
      (
        j,
        look_table-first s.table s.mask x ∙ found,
        subst (λ t. j < t) (sym good.slots) (first-Below (stops x) s.table q _ j inside found),
        stop-cases x _ (first-passes (stops x) s.table _ j found),
      )
