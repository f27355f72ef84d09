-- ===== src/CompatSet/Table/Change.antt =====
-- An entry that is put where the search for it ends, and one that is taken out, keep the invariant.
use native.Mathlib.Decide.{ℕ_discrete}
use indy_node.Base.{
  ℕ, zero, suc, ◌+◌, ◌-◌, ◌<◌, ◌≤◌, false, not, ◌||◌, ◌&&◌, Option, some, List, [], ◌∷◌, length,
  ◌≡◌, refl, sym, ap, ◌∙◌, ◌≢◌, inl, inr, arith, Bool-cases, subst,
}
use indy_node.CompatSet.{
  Key, Slot, free, removed, entry, Inner, slot_at, put_slot, is_entry, look_table,
}
use indy_node.CompatSet.Path.{stops, look_table-first}
use indy_node.CompatSet.Table.{entries}
use indy_node.CompatSet.Table.Slots.{
  bit, tally-put_slot, length-put_slot, slot_at-put_slot, slot_at-put_slot_other, first-put_slot,
  first-put_slot_other,
}
use indy_node.CompatSet.Table.Good.{IsGood, is_taken, member, slot-member}

pub some_lem : (j k : ℕ) (o : Option ℕ) → o ≡ some j → o ≡ some k → j ≡ k
some_lem j k o e f = ground (arith, e, f)

module _ {ℓ} {A : Type ℓ} ⦃key : Key A⦄ where
  -- The search for an element after a write where the search for another element ends.
  look-put_slot_other :
      (table : List (Slot A)) (mask j k : ℕ) (y : A) (r : Slot A)
      → j < length table
      → j ≢ k
      → stops y r ≡ false
      → look_table table mask y ≡ some k
      → look_table (put_slot table j r) mask y ≡ some k
  look-put_slot_other table mask j k y r h n f e =
      look_table-first (put_slot table j r) mask y
      ∙ first-put_slot_other (stops y) table _ k j r h n f (sym (look_table-first table mask y) ∙ e)

  look-put_slot :
      (table : List (Slot A)) (mask j : ℕ) (x : A)
      → j < length table
      → look_table table mask x ≡ some j
      → look_table (put_slot table j (entry x)) mask x ≡ some j
  look-put_slot table mask j x h e =
      look_table-first (put_slot table j (entry x)) mask x
      ∙ first-put_slot (stops x) table _ j (entry x) h (key.equal_refl x)
          (sym (look_table-first table mask x) ∙ e)

  -- Two entries that stand apart are different.
  apart :
      (table : List (Slot A)) (mask j k : ℕ) (x y : A)
      → look_table table mask x ≡ some j
      → look_table table mask y ≡ some k
      → j ≢ k
      → key.equal x y ≡ false
  apart table mask j k x y e f n = elim (Bool-cases (key.equal x y)) [
    | inl p ↦ absurd (n (some_lem j k _ e (ap (look_table table mask) (key.equal_sound x y p) ∙ f)))
    | inr p ↦ p
  ]

  entry_lem : (x y : A) → entry x ≡ entry y → x ≡ y
  entry_lem x y e = key.equal_sound x y (ground (arith, key.equal_refl x, e))

  pub member-put_entry :
      (table : List (Slot A)) (j : ℕ) (x y : A)
      → j < length table
      → slot_at table j ≡ free
      → member y (entries (put_slot table j (entry x)))
        ≡ (key.equal x y || member y (entries table))
  unfolding member
  member-put_entry [] j x y h e = absurd (omega (arith, h))
  member-put_entry (free ∷ table) zero x y h e = refl
  member-put_entry (removed ∷ table) zero x y h e = absurd (ground (arith, e))
  member-put_entry (entry z ∷ table) zero x y h e = absurd (ground (arith, e))
  member-put_entry (free ∷ table) (suc j) x y h e =
      member-put_entry table j x y (omega (arith, h)) e
  member-put_entry (removed ∷ table) (suc j) x y h e =
      member-put_entry table j x y (omega (arith, h)) e
  member-put_entry (entry z ∷ table) (suc j) x y h e =
      ground (arith, member-put_entry table j x y (omega (arith, h)) e)

  member-put_removed :
      (table : List (Slot A)) (j : ℕ) (x y : A)
      → slot_at table j ≡ entry x
      → member y (entries table) ≡ (key.equal x y || member y (entries (put_slot table j removed)))
  unfolding member
  member-put_removed [] j x y e = absurd (ground (arith, e))
  member-put_removed (free ∷ table) zero x y e = absurd (ground (arith, e))
  member-put_removed (removed ∷ table) zero x y e = absurd (ground (arith, e))
  member-put_removed (entry z ∷ table) zero x y e = rw (entry_lem z x e) refl
  member-put_removed (free ∷ table) (suc j) x y e = member-put_removed table j x y e
  member-put_removed (removed ∷ table) (suc j) x y e = member-put_removed table j x y e
  member-put_removed (entry z ∷ table) (suc j) x y e =
      ground (arith, member-put_removed table j x y e)

  module _ (s : Inner A) (good : IsGood s) (x : A) (j : ℕ) (below : j < length s.table) where
    -- `x` is put at the free slot where the search for it ends.
    pub insert-IsGood :
        look_table s.table s.mask x ≡ some j
        → slot_at s.table j ≡ free
        → s.fill + 1 ≤ s.mask
        → IsGood (record s {
          table = put_slot s.table j (entry x);
          fill = s.fill + 1;
          used = s.used + 1;
        })
    insert-IsGood found empty room = record {
      order = good.order;
      size = good.size;
      slots = length-put_slot s.table j (entry x) ∙ good.slots;
      filled = omega (
        arith,
        tally-put_slot is_taken s.table j (entry x) below,
        good.filled,
        ap (λ r. bit (is_taken r)) empty,
      );
      counted = omega (
        arith,
        tally-put_slot is_entry s.table j (entry x) below,
        good.counted,
        ap (λ r. bit (is_entry r)) empty,
      );
      room = room;
      sound = λ k y e. elim (ℕ_discrete j k) [
        | yes same ↦
            let written : slot_at (put_slot s.table j (entry x)) j ≡ entry x =
              slot_at-put_slot s.table j (entry x) below in
            let eq : x ≡ y =
              entry_lem x y (sym written ∙ ap (slot_at (put_slot s.table j (entry x))) same ∙ e) in
            subst (λ z. look_table (put_slot s.table j (entry x)) s.mask z ≡ some k) eq
              (look-put_slot s.table s.mask j x below found ∙ ap some same)
        | no other ↦
            let before : slot_at s.table k ≡ entry y =
              sym (slot_at-put_slot_other s.table j k (entry x) other) ∙ e in
            let looked = good.sound k y before in
            look-put_slot_other s.table s.mask j k y (entry x) below other
              (apart s.table s.mask j k x y found looked other) looked
      ];
    }

    -- `x` is taken out of the slot where it stands.
    pub discard-IsGood :
        slot_at s.table j ≡ entry x
        → IsGood (record s { table = put_slot s.table j removed; used = s.used - 1 })
    discard-IsGood found = record {
      order = good.order;
      size = good.size;
      slots = length-put_slot s.table j removed ∙ good.slots;
      filled = omega (
        arith,
        tally-put_slot is_taken s.table j removed below,
        good.filled,
        ap (λ r. bit (is_taken r)) found,
      );
      counted = omega (
        arith,
        tally-put_slot is_entry s.table j removed below,
        good.counted,
        ap (λ r. bit (is_entry r)) found,
      );
      room = good.room;
      sound = λ k y e. elim (ℕ_discrete j k) [
        | yes same ↦
            let written = slot_at-put_slot s.table j removed below in
            let wrong : removed ≡ entry y =
              sym written ∙ ap (slot_at (put_slot s.table j removed)) same ∙ e in
            absurd (ground (arith, wrong))
        | no other ↦
            let before : slot_at s.table k ≡ entry y =
              sym (slot_at-put_slot_other s.table j k removed other) ∙ e in
            look-put_slot_other s.table s.mask j k y removed below other refl
              (good.sound k y before)
      ];
    }

    pub discard-member :
        slot_at s.table j ≡ entry x
        → (y : A)
        → member y (entries (put_slot s.table j removed))
          ≡ (member y (entries s.table) && not (key.equal x y))
    discard-member found y =
        let less = put_slot s.table j removed in
        let whole = member-put_removed s.table j x y found in
        elim (Bool-cases (key.equal x y)) [
          | inl p ↦ elim (Bool-cases (member y (entries less))) [
            | inl in_less ↦
                let (k, at) = slot-member y less in_less in
                absurd (gone y (key.equal_sound x y p) k at)
            | inr e ↦ rw (e, p) (ground arith)
          ]
          | inr p ↦ ground (arith, whole, p)
        ]
      where
        gone : (y : A) → x ≡ y → (k : ℕ) → slot_at (put_slot s.table j removed) k ≡ entry y → ⊥
        gone y eq k at = elim (ℕ_discrete j k) [
          | yes same ↦ ground (
            arith,
            slot_at-put_slot s.table j removed below,
            ap (slot_at (put_slot s.table j removed)) same,
            at,
          )
          | no other ↦
              let before = sym (slot_at-put_slot_other s.table j k removed other) ∙ at in
              let here = good.sound j x found in
              other
                (some_lem j k _ here (ap (look_table s.table s.mask) eq ∙ good.sound k y before))
        ]
