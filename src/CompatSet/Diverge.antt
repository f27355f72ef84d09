-- ===== src/CompatSet/Diverge.antt =====
-- A negative hash is shifted down to -1 and not to 0, and the walk `i -> 5 * i` stays at 0.
use indy_node.Base.{ℕ, zero, suc, Option, none, List, ◌≡◌, refl, false, ap, ◌∙◌}
use indy_node.CompatSet.{
  Key, negsuc, Slot, entry, slot_at, look_loop, look_turn, turn, miss, hit, Seen, look_slot,
}

module _ {ℓ} {A : Type ℓ} ⦃key : Key A⦄ where
  turn-other :
      (table : List (Slot A)) (x y : A) (free_idx : Option ℕ)
      → slot_at table 0 ≡ entry y
      → key.equal y x ≡ false
      → look_turn table x free_idx (turn 7 0) ≡ miss free_idx
  unfolding look_turn turn
  turn-other table x y free_idx at other =
      let looked : look_slot (entry y) x free_idx 0 ≡ miss free_idx = rw other refl in
      ap step (ap (λ r. look_slot r x free_idx 0) at ∙ looked)
    where
      step : Seen → Seen
      step s = elim s [ hit j ↦ hit j | miss f ↦ miss f ]

  -- In a table of eight slots, an element of hash -1 or -8 is looked for at slot 0 alone: when
  -- another stands there, no number of turns is enough.
  pub look_loop-stuck :
      (n : ℕ) (table : List (Slot A)) (x y : A) (free_idx : Option ℕ)
      → slot_at table 0 ≡ entry y
      → key.equal y x ≡ false
      → (look_loop n table 7 x free_idx 0 (negsuc 7) ≡ none)
        × (look_loop n table 7 x free_idx 0 (negsuc 0) ≡ none)
  unfolding look_loop
  look_loop-stuck zero table x y free_idx at other = (refl, refl)
  look_loop-stuck (suc n) table x y free_idx at other =
      let turned = turn-other table x y free_idx at other in
      let later = (look_loop-stuck n table x y free_idx at other).1 in
      (rw (look_loop, turned) later, rw (look_loop, turned) later)
