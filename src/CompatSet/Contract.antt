-- ===== src/CompatSet/Contract.antt =====
-- What a `CompatSet` promises: its calls return, and its elements are those of the mathematical
-- set.
use indy_node.Base.{◌<◌, ◌≤◌, Bool, true, false, not, ◌||◌, ◌&&◌, length, ◌≡◌, refl, ◌∙◌}
use indy_node.Base.{◌↔◌}
use indy_node.CompatSet.{Key, Inner}
use indy_node.CompatSet.Table.{
  entries, returns, raises, key_error, attribute_error, contains_entry, iterate, add,
}
use indy_node.CompatSet.Algebra.{
  Other, compat, copy, update, difference, difference_update, intersection,
}
use indy_node.CompatSet.Wrapper.{remove, symmetric_difference, is_subset, is_superset, is_disjoint}
use indy_node.CompatSet.Table.Slots.{length-entries}
use indy_node.CompatSet.Table.Good.{Plain, member}
use indy_node.CompatSet.Table.Steps.{Gives, contains_entry-Holds}
use indy_node.CompatSet.Table.Rebuild.{Distinct, entries-Distinct}
use indy_node.CompatSet.Table.Walk.{iterate-entries}
use indy_node.CompatSet.Table.Adds.{IsSetOf, add-IsSetOf, discard-IsSetOf}
use indy_node.CompatSet.Algebra.Merge.{copy-IsSetOf}
use indy_node.CompatSet.Algebra.Difference.{Denotes, difference-IsSetOf, difference_update-IsSetOf}
use indy_node.CompatSet.Algebra.Symmetric.{
  update-IsSetOf, differs, intersection-IsSetOf, intersection-raises, symmetric_difference-IsSetOf,
}
use indy_node.CompatSet.Wrapper.Compare.{
  Every, is_subset-Every, is_superset-Every, is_disjoint-Every,
}

module _ {ℓ} {A : Type ℓ} ⦃key : Key A⦄ (plain : Plain A) (f : A → Bool) (s : Inner A)
    (h : IsSetOf f s) where
  -- `in` tells the membership; `add` returns a table of the set with the element, between calls
  -- again; `remove` of a member returns one of the set without it, and of another element raises
  -- KeyError.
  pub element_calls :
      (x : A)
      → (contains_entry s x ≡ returns (f x))
        × Gives (add s x) (IsSetOf (λ y. key.equal x y || f y))
        × (f x ≡ true → Gives (remove s x) (IsSetOf (λ y. f y && not (key.equal x y))))
        × (f x ≡ false → remove s x ≡ raises key_error)
  unfolding remove
  element_calls x =
      let (r, run, (found, left)) = discard-IsSetOf plain f s x h in
      (
        contains_entry-Holds plain f s h.0 x,
        add-IsSetOf plain f s x h,
        (λ e. (r.1, rw run (rw (found, e) refl), left)),
        λ e. rw run (rw (found, e) refl),
      )

  -- The iteration gives the elements, each once.
  pub iterate-Distinct :
      Gives (iterate s) λ xs. Distinct xs × ((y : A) → member y xs ≡ f y) × (length xs ≡ s.used)
  iterate-Distinct = (
    entries s.table,
    iterate-entries s h.0.good,
    (entries-Distinct s h.0.good, h.0.members, length-entries s.table ∙ h.0.good.counted),
  )

  -- With another set that is no larger the intersection is returned; with a larger one
  -- AttributeError is raised.
  pub intersection_calls :
      (g : A → Bool) (o : Inner A)
      → IsSetOf g o
      → (o.used ≤ s.used → Gives (intersection s (compat o)) (IsSetOf (λ y. f y && g y)))
        × (s.used < o.used → intersection s (compat o) ≡ raises attribute_error)
  intersection_calls g o d =
      (intersection-IsSetOf plain f g s o h d, intersection-raises plain f g s o h d)

  module _ (g : A → Bool) (other : Other A) (d : Denotes f g other) where
    -- The operations with another collection return tables of the same set, the union, the
    -- difference, the difference and the symmetric difference, whatever the kind of the argument.
    pub set_calls :
        Gives (copy s) (IsSetOf f)
        × Gives (update s other) (IsSetOf (λ y. g y || f y))
        × Gives (difference s other) (IsSetOf (λ y. f y && not (g y)))
        × Gives (difference_update s other) (IsSetOf (λ y. f y && not (g y)))
        × Gives (symmetric_difference s other) (IsSetOf (λ y. differs (f y) (g y)))
    set_calls = (
      copy-IsSetOf plain f s h,
      update-IsSetOf plain f g s other h d,
      difference-IsSetOf plain f g s other h d,
      difference_update-IsSetOf plain f g s other h d,
      symmetric_difference-IsSetOf plain f g s other h d,
    )

    -- The comparisons return, and return true exactly when every element of the set is one of the
    -- argument, the other way round, and when no element of the set is one of the argument.
    pub compare_calls :
        Gives (is_subset s other) (λ b. (b ≡ true) ↔ Every f g)
        × Gives (is_superset s other) (λ b. (b ≡ true) ↔ Every g f)
        × Gives (is_disjoint s other) (λ b. (b ≡ true) ↔ Every f (λ y. not (g y)))
    compare_calls = (
      is_subset-Every plain f g s other h d,
      is_superset-Every plain f g s other h d,
      is_disjoint-Every plain f g s other h d,
    )
