-- ===== src/CompatSet/Algebra/Symmetric.antt =====
-- `update`, `intersection` and `symmetric_difference_update`, and the comparisons of two sets.
use indy_node.Base.{
  ◌<◌, ◌≤◌, Bool, true, false, not, ◌||◌, ◌&&◌, List, [], ◌∷◌, length, ◌≡◌, refl, sym, ap, ◌∙◌, inl,
  inr, arith, Bool-cases, ltb,
}
use indy_node.CompatSet.{Key, Inner, empty}
use indy_node.CompatSet.Table.{entries, raises, attribute_error, contains_entry}
use indy_node.CompatSet.Algebra.{
  Other, iterable, builtin_set, compat, itself, keep, update, intersection, intersect, seen_from,
  toggle, toggle_all, symmetric_difference_update,
}
use indy_node.CompatSet.Wrapper.{symmetric_difference}
use indy_node.CompatSet.Table.Slots.{length-entries}
use indy_node.CompatSet.Table.Good.{Plain, member}
use indy_node.CompatSet.Table.Steps.{Gives, contains_entry-Holds}
use indy_node.CompatSet.Table.Walk.{iterate-entries}
use indy_node.CompatSet.Table.Rebuild.{Distinct, entries-Distinct}
use indy_node.CompatSet.Table.Adds.{
  IsSetOf, IsSetOf-congr, add-IsSetOf, add_all-IsSetOf, discard-IsSetOf,
}
use indy_node.CompatSet.Algebra.Merge.{empty-IsSetOf, merge-IsSetOf}
use indy_node.CompatSet.Algebra.Difference.{Denotes, seen_from-Denotes, keep-IsSetOf}

abbrev pub differs : Bool → Bool → Bool
differs true b = not b
differs false b = b

module _ {ℓ} {A : Type ℓ} ⦃key : Key A⦄ (plain : Plain A) where
  pub update-IsSetOf :
      (f g : A → Bool) (s : Inner A) (other : Other A)
      → IsSetOf f s
      → Denotes f g other
      → Gives (update s other) (IsSetOf (λ y. g y || f y))
  unfolding update
  update-IsSetOf f g s (iterable xs) h d =
      let (t, run, holds) = add_all-IsSetOf plain f s xs h in
      (t, run, IsSetOf-congr _ _ t (λ y. ap (λ b. b || f y) (d y)) holds)
  update-IsSetOf f g s (builtin_set xs) h d =
      let (t, run, holds) = add_all-IsSetOf plain f s xs h in
      (t, run, IsSetOf-congr _ _ t (λ y. ap (λ b. b || f y) (d y)) holds)
  update-IsSetOf f g s (compat o) h d = merge-IsSetOf plain f g s o h d
  update-IsSetOf f g s itself h d = (s, refl, IsSetOf-congr f _ s (λ y. ground (arith, d y)) h)

  keep_common :
      (f g : A → Bool) (s : Inner A) (xs : List A)
      → IsSetOf f s
      → ((y : A) → member y xs ≡ g y)
      → Gives (keep (contains_entry s) empty xs) (IsSetOf (λ y. f y && g y))
  keep_common f g s xs h d =
      let (t, run, holds) =
        keep-IsSetOf plain (contains_entry s) f (λ x. contains_entry-Holds plain f s h.0 x)
          (λ _. false) empty xs (empty-IsSetOf plain) in
      (t, run, IsSetOf-congr _ _ t (λ y. ground (arith, d y)) holds)

  -- With another set that is no larger.
  pub intersection-IsSetOf :
      (f g : A → Bool) (s o : Inner A)
      → IsSetOf f s
      → IsSetOf g o
      → o.used ≤ s.used
      → Gives (intersection s (compat o)) (IsSetOf (λ y. f y && g y))
  unfolding intersection
  intersection-IsSetOf f g s o h d le =
      let smaller : ltb s.used o.used ≡ false = ground arith in
      let (t, run, holds) = keep_common f g s (entries o.table) h d.0.members in
      (t, rw (smaller, iterate-entries o d.0.good) run, holds)

  -- With another set that is larger.
  pub intersection-raises :
      (f g : A → Bool) (s o : Inner A)
      → IsSetOf f s
      → IsSetOf g o
      → s.used < o.used
      → intersection s (compat o) ≡ raises attribute_error
  unfolding intersection
  intersection-raises f g s o h d lt =
      let larger : ltb s.used o.used ≡ true = ground arith in
      rw (larger, iterate-entries o d.0.good)
        (some_entry (entries o.table) (omega (arith, length-entries o.table, d.0.good.counted, lt)))
    where
      some_entry : (xs : List A) → 0 < length xs → intersect true s xs ≡ raises attribute_error
      some_entry [] h = absurd (omega (arith, h))
      some_entry (x ∷ xs) h = refl

  toggle-IsSetOf :
      (f : A → Bool) (s : Inner A) (x : A)
      → IsSetOf f s
      → Gives (toggle s x) (IsSetOf (λ y. differs (key.equal x y) (f y)))
  unfolding toggle
  toggle-IsSetOf f s x h =
      let same : (y : A) → key.equal x y ≡ true → f x ≡ f y = λ y q. ap f (key.equal_sound x y q) in
      let (r, run, (found, left)) = discard-IsSetOf plain f s x h in
      elim (Bool-cases (f x)) [
        | inl e ↦ (
          r.1,
          rw run (rw (found, e) refl),
          IsSetOf-congr _ _ r.1 (λ y. ground (arith, e, same y)) left,
        )
        | inr e ↦
            let (u, runs, all) = add-IsSetOf plain _ r.1 x left in
            (
              u,
              rw run (rw (found, e) runs),
              IsSetOf-congr _ _ u (λ y. ground (arith, e, same y)) all,
            )
      ]

  toggle_all-IsSetOf :
      (f : A → Bool) (s : Inner A) (xs : List A)
      → Distinct xs
      → IsSetOf f s
      → Gives (toggle_all s xs) (IsSetOf (λ y. differs (member y xs) (f y)))
  unfolding toggle_all member
  toggle_all-IsSetOf f s [] d h = (s, refl, h)
  toggle_all-IsSetOf f s (x ∷ xs) d h =
      let (t, run, holds) = toggle-IsSetOf f s x h in
      let (u, runs, all) = toggle_all-IsSetOf (λ y. differs (key.equal x y) (f y)) t xs d.1 holds in
      let apart : (y : A) → key.equal x y ≡ true → member y xs ≡ false =
        λ y q. ap (λ z. member z xs) (sym (key.equal_sound x y q)) ∙ d.0 in
      (u, rw run runs, IsSetOf-congr _ _ u (λ y. ground (arith, apart y)) all)

  pub symmetric_difference-IsSetOf :
      (f g : A → Bool) (s : Inner A) (other : Other A)
      → IsSetOf f s
      → Denotes f g other
      → Gives (symmetric_difference s other) (IsSetOf (λ y. differs (f y) (g y)))
  unfolding symmetric_difference symmetric_difference_update
  symmetric_difference-IsSetOf f g s other h d =
      let (t, run, holds) =
        update-IsSetOf (λ _. false) g empty (seen_from s other) (empty-IsSetOf plain)
          (seen_from-Denotes plain (λ _. false) f g s other h d) in
      let (u, runs, all) =
        toggle_all-IsSetOf _ t (entries s.table) (entries-Distinct s h.0.good) holds in
      (
        u,
        rw run (rw (iterate-entries s h.0.good) runs),
        IsSetOf-congr _ _ u (λ y. ground (arith, h.0.members y)) all,
      )
