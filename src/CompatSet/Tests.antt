-- ===== src/CompatSet/Tests.antt =====
-- Sets of indices, by running the code of indy_common/compat_set.py, and the theorems on them.
use indy_node.Base.{
  ℕ, zero, suc, ◌<◌, ◌≤◌, Bool, true, false, not, ◌||◌, ◌&&◌, some, none, List, [], ◌∷◌, length,
  ◌≡◌, refl, sym, ap, ◌∙◌, arith, num_eq, subst, ◌⊎◌,
}
use indy_node.CompatSet.{
  ℤ, pos, negsuc, Slot, free, removed, entry, Inner, empty, is_entry, put_slot, free_slots, slot_at,
  look_loop, look_table, free_table, free_loop, free_turn, look_turn, turn, turns,
}
use indy_node.CompatSet.Ints.{index_key, int_key, index-Plain}
use indy_node.CompatSet.Table.{
  Outcome, returns, raises, runs_on, key_error, attribute_error, look_entry, contains_entry,
  insert_entry, insert_entry_clean, insert_all_clean, resize, grow, add, add_all, discard,
  discard_all, pop, iterate, iter_loop, next,
}
use indy_node.CompatSet.Algebra.{
  iterable, compat, insert_all, merge, copy, update, keep, difference, difference_update,
  intersection, toggle, toggle_all, symmetric_difference_update, eq_loop, inner_eq,
}
use indy_node.CompatSet.Wrapper.{
  new, remove, update_each, union, difference_each, intersection_each, symmetric_difference,
  all_pass, is_subset, is_superset, is_disjoint, set_eq,
}
use indy_node.CompatSet.Table.Good.{member, look-IsGood}
use indy_node.CompatSet.Table.Steps.{Gives}
use indy_node.CompatSet.Table.Adds.{IsSetOf, add-IsSetOf, add_all-IsSetOf}
use indy_node.CompatSet.Algebra.Merge.{empty-IsSetOf}
use indy_node.CompatSet.Algebra.Symmetric.{differs}
use indy_node.CompatSet.Wrapper.Equality.{set_eq-no_entry}
use indy_node.CompatSet.Diverge.{look_loop-stuck}
use indy_node.CompatSet.Table.Pop.{pop-IsSetOf}
use indy_node.CompatSet.Contract.{element_calls, set_calls, intersection_calls}

program : Unit {0}
unfolding turns turn look_turn look_loop look_table free_turn free_loop free_table look_entry
    contains_entry insert_entry insert_entry_clean insert_all_clean resize grow add add_all discard
    discard_all pop iterate iter_loop next insert_all merge copy update keep difference
    difference_update intersection toggle toggle_all symmetric_difference_update eq_loop inner_eq
    new remove update_each union difference_each intersection_each symmetric_difference all_pass
    is_subset is_superset is_disjoint set_eq member
program = tt

abbrev run_list : Outcome (Inner ℕ) → Outcome (List ℕ)
run_list (returns s) = iterate s
run_list _ = returns []

abbrev three : Inner ℕ
three = record {
  fill = 3;
  mask = 7;
  search = 0;
  table = entry 11 ∷ entry 19 ∷ free ∷ entry 3 ∷ free ∷ free ∷ free ∷ free ∷ [];
  used = 3;
}

abbrev in_three : ℕ → Bool
in_three y = member y (3 ∷ 11 ∷ 19 ∷ []) || false

-- 11 and 19 collide with 3, and are found at the next indices of their walk.
three_run : add_all empty (3 ∷ 11 ∷ 19 ∷ []) ≡ returns three
unfolding program
three_run = refl

abbrev value_or {ℓ} : {B : Type ℓ} → B → Outcome B → B
value_or c (returns b) = b
value_or c _ = c

of_run {ℓ κ} :
    {B : Type ℓ} {o : Outcome B} {P : B → Type κ} {b : B} → Gives o P → o ≡ returns b → P b
of_run {P = P} (c, run, p) e = subst P (ap (value_or c) (sym run ∙ e)) p

three-IsSetOf : IsSetOf in_three three
three-IsSetOf =
    of_run
      (add_all-IsSetOf index-Plain (λ _. false) empty (3 ∷ 11 ∷ 19 ∷ [])
        (empty-IsSetOf index-Plain))
      three_run

-- The set that holds 6 alone, and the one that holds 7.
abbrev single : ℕ → ℕ → Inner ℕ
single i x = record {
  fill = 1;
  mask = 7;
  search = 0;
  table = put_slot (free_slots 8) i (entry x);
  used = 1;
}

six_run : (add empty 6 ≡ returns (single 6 6)) × (add empty 7 ≡ returns (single 7 7))
unfolding program
six_run = (refl, refl)

abbrev is_six : ℕ → Bool
is_six y = num_eq 6 y || false

six-IsSetOf : IsSetOf is_six (single 6 6)
six-IsSetOf =
    of_run (add-IsSetOf index-Plain (λ _. false) empty 6 (empty-IsSetOf index-Plain)) six_run.0

-- -8 is looked for at slot 0, where 0 stands.
hang : add_all empty (pos 0 ∷ negsuc 7 ∷ []) ≡ runs_on
unfolding program
hang = refl

difference_run : run_list (difference three (iterable (3 ∷ 4 ∷ []))) ≡ returns (11 ∷ 19 ∷ [])
unfolding program
difference_run = refl

pop_run :
    pop three
    ≡ returns (
      11,
      record three {
        table = removed ∷ entry 19 ∷ free ∷ entry 3 ∷ free ∷ free ∷ free ∷ free ∷ [];
        used = 2;
        search = 1;
      },
    )
unfolding program
pop_run = refl

look-IsGood_example :
    (j : ℕ) × (look_table three.table three.mask 27 ≡ some j)
    × (j < length three.table)
    × ((slot_at three.table j ≡ free) ⊎ (slot_at three.table j ≡ entry 27))
look-IsGood_example = look-IsGood three 27 index-Plain three-IsSetOf.0.good

element_calls_example :
    (contains_entry three 11 ≡ returns (in_three 11))
    × Gives (add three 11) (IsSetOf (λ y. num_eq 11 y || in_three y))
    × (in_three 11 ≡ true
        → Gives (remove three 11) (IsSetOf (λ y. in_three y && not (num_eq 11 y))))
    × (in_three 11 ≡ false → remove three 11 ≡ raises key_error)
element_calls_example = element_calls index-Plain in_three three three-IsSetOf 11

set_calls_example :
    Gives (copy three) (IsSetOf in_three)
    × Gives (update three (compat (single 6 6))) (IsSetOf (λ y. is_six y || in_three y))
    × Gives (difference three (compat (single 6 6))) (IsSetOf (λ y. in_three y && not (is_six y)))
    × Gives
        (difference_update three (compat (single 6 6)))
        (IsSetOf (λ y. in_three y && not (is_six y)))
    × Gives
        (symmetric_difference three (compat (single 6 6)))
        (IsSetOf (λ y. differs (in_three y) (is_six y)))
set_calls_example =
    set_calls index-Plain in_three three three-IsSetOf is_six (compat (single 6 6)) six-IsSetOf

intersection_calls_example :
    (3 ≤ 1
      → Gives (intersection (single 6 6) (compat three)) (IsSetOf (λ y. is_six y && in_three y)))
    × (1 < 3 → intersection (single 6 6) (compat three) ≡ raises attribute_error)
intersection_calls_example =
    intersection_calls index-Plain is_six (single 6 6) six-IsSetOf in_three three three-IsSetOf

pop-IsSetOf_example :
    (three.used ≡ 0 → pop three ≡ raises key_error)
    × (0 < 3
        → Gives
            (pop three)
            λ r. (in_three r.0 ≡ true) × IsSetOf (λ y. in_three y && not (num_eq r.0 y)) r.1)
pop-IsSetOf_example = pop-IsSetOf in_three three three-IsSetOf

-- {6} counts as equal to {7}.
set_eq-no_entry_example : set_eq (single 6 6) (compat (single 7 7)) ≡ returns true
set_eq-no_entry_example = set_eq-no_entry (single 6 6) (single 7 7) refl below
  where
    below : (j : ℕ) → j < 1 → is_entry (slot_at (single 7 7).table j) ≡ false
    below zero b = refl
    below (suc j) b = absurd (omega (arith, b))

abbrev with_zero : List (Slot ℤ)
with_zero = put_slot (free_slots 8) 0 (entry (pos 0))

look_loop-stuck_example :
    (look_loop 1000 with_zero 7 (negsuc 7) none 0 (negsuc 7) ≡ none)
    × (look_loop 1000 with_zero 7 (negsuc 7) none 0 (negsuc 0) ≡ none)
look_loop-stuck_example = look_loop-stuck 1000 with_zero (negsuc 7) (pos 0) none refl refl
