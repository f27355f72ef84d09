-- ===== src/CompatSet/Table/Pop.antt =====
-- `pop` of a set that is not empty finds an entry, and takes it out.
use Prim.Native.Nat.{bit_and}
use native.Mathlib.Nat.{one-le-pow}
use indy_node.Base.{
  ℕ, zero, suc, ◌+◌, ◌-◌, ◌<◌, ◌≤◌, Bool, true, false, not, ◌&&◌, List, [], ◌∷◌, length, ◌≡◌, refl,
  sym, ap, ◌∙◌, ◌≢◌, ◌⊎◌, inl, inr, arith, subst, leb, ltb, if◌then◌else◌, num_eq,
}
use indy_node.CompatSet.{Key, Slot, free, removed, entry, Inner, slot_at, put_slot, is_entry, pos}
use indy_node.CompatSet.Bound.{masked-Below}
use indy_node.CompatSet.Table.{Outcome, returns, raises, key_error, pop, pop_loop}
use indy_node.CompatSet.Table.Slots.{tally}
use indy_node.CompatSet.Table.Good.{IsGood, member-slot}
use indy_node.CompatSet.Table.Change.{discard-IsGood, discard-member}
use indy_node.CompatSet.Table.Steps.{Gives}
use indy_node.CompatSet.Table.Adds.{IsSetOf}
use indy_node.CompatSet.Table.Walk.{length-table}

-- How many slots lie from `i` to `j`, going round.
abbrev distance : ℕ → ℕ → ℕ → ℕ
distance mask i j = if leb i j then j - i else (mask + 1 - i) + j

nearer :
    (n mask i j : ℕ)
    → i ≤ mask
    → j ≤ mask
    → i ≢ j
    → distance mask i j < suc n
    → distance mask (if ltb mask (i + 1) then 0 else i + 1) j < n
nearer n mask i j h l o d = ground arith

module _ {ℓ} {A : Type ℓ} where
  has_entry :
      (table : List (Slot A))
      → 0 < tally is_entry table
      → (j : ℕ) × (j < length table) × (x : A) × (slot_at table j ≡ entry x)
  unfolding tally
  has_entry [] h = absurd (omega (arith, h))
  has_entry (entry x ∷ table) h = (0, omega arith, x, refl)
  has_entry (free ∷ table) h =
      let (j, b, x, e) = has_entry table (omega (arith, h)) in (suc j, omega (arith, b), x, e)
  has_entry (removed ∷ table) h =
      let (j, b, x, e) = has_entry table (omega (arith, h)) in (suc j, omega (arith, b), x, e)

  other_slot : (r : Slot A) → (r ≡ free) ⊎ (r ≡ removed) ⊎ ((y : A) × (r ≡ entry y))
  other_slot free = inl refl
  other_slot removed = inr (inl refl)
  other_slot (entry y) = inr (inr (y, refl))

  pop_loop-entry :
      (n : ℕ) (table : List (Slot A)) (mask i j : ℕ) (x : A)
      → i ≤ mask
      → j ≤ mask
      → slot_at table j ≡ entry x
      → distance mask i j < n
      → (k : ℕ) × (k ≤ mask)
        × (y : A) × (pop_loop n table mask i ≡ returns (k, y))
        × (slot_at table k ≡ entry y)
  pop_loop-entry zero table mask i j x h l e d = absurd (omega (arith, d))
  pop_loop-entry (suc n) table mask i j x h l e d =
      let i' = if ltb mask (i + 1) then 0 else i + 1 in
      let at_slot : Slot A → Outcome (ℕ × A) =
        λ r. elim r [ entry z ↦ returns (i, z) | _ ↦ pop_loop n table mask i' ] in
      let later : i ≢ j
          → (k : ℕ) × (k ≤ mask)
            × (y : A) × (pop_loop n table mask i' ≡ returns (k, y))
            × (slot_at table k ≡ entry y) =
        λ o. pop_loop-entry n table mask i' j x (ground arith) l e (nearer n mask i j h l o d) in
      elim (other_slot (slot_at table i)) [
        | inl f ↦
            let (k, b, y, run, at) = later (λ o. ground (arith, f, ap (slot_at table) o, e)) in
            (k, b, y, ap at_slot f ∙ run, at)
        | inr (inl f) ↦
            let (k, b, y, run, at) = later (λ o. ground (arith, f, ap (slot_at table) o, e)) in
            (k, b, y, ap at_slot f ∙ run, at)
        | inr (inr (y, f)) ↦ (i, h, y, ap at_slot f, f)
      ]

module _ {ℓ} {A : Type ℓ} ⦃key : Key A⦄ where
  with_search : (s : Inner A) (i : ℕ) → IsGood s → IsGood (record s { search = i })
  with_search s i good = record {
    order = good.order;
    size = good.size;
    slots = good.slots;
    filled = good.filled;
    counted = good.counted;
    room = good.room;
    sound = good.sound;
  }

  -- From the empty set `pop` raises KeyError; from another it returns one of the elements and
  -- leaves a table of the set without it.
  pub pop-IsSetOf :
      (f : A → Bool) (s : Inner A)
      → IsSetOf f s
      → (s.used ≡ 0 → pop s ≡ raises key_error)
        × (0 < s.used
            → Gives (pop s) λ r. (f r.0 ≡ true) × IsSetOf (λ y. f y && not (key.equal r.0 y)) r.1)
  unfolding pop
  pop-IsSetOf f s h = (
    (λ e. ground (arith, e)),
    λ some_used.
        let size = length-table s h.0.good in
        let (j, below, x, at) = has_entry s.table (omega (arith, h.0.good.counted, some_used)) in
        let start : bit_and s.search s.mask ≤ s.mask =
          let order = h.0.good.order in
          subst (λ m. bit_and s.search m ≤ m) (sym h.0.good.size)
            (omega (arith, masked-Below order (pos s.search), one-le-pow order 2 (omega arith))) in
        let (k, inside, y, run, found) =
          pop_loop-entry (s.mask + 2) s.table s.mask (bit_and s.search s.mask) j x start
            (omega (arith, below, size)) at (ground (arith, start, below, size)) in
        let kept : k < length s.table = omega (arith, inside, size) in
        let full : num_eq s.used 0 ≡ false = ground (arith, some_used) in
        (
          (y, record s { table = put_slot s.table k removed; used = s.used - 1; search = k + 1 }),
          rw (full, run) refl,
          (
            sym (h.0.members y) ∙ member-slot y s.table k found,
            (
              record {
                good = with_search _ (k + 1) (discard-IsGood s h.0.good y k kept found);
                members = λ z.
                    discard-member s h.0.good y k kept found z
                    ∙ ap (λ b. b && not (key.equal y z)) (h.0.members z);
              },
              h.1,
            ),
          ),
        ),
  )
