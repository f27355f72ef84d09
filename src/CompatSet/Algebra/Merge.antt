-- ===== src/CompatSet/Algebra/Merge.antt =====
-- `merge`, `copy` and `update`: the elements are those of both sets.
use indy_node.Base.{
  ◌+◌, ◌*◌, ◌<◌, ◌≤◌, Bool, false, ◌||◌, ◌&&◌, List, [], ◌∷◌, length, ◌≡◌, refl, sym, ap, ◌∙◌, inl,
  inr, arith, Bool-cases, leb, num_eq,
}
use indy_node.CompatSet.{Key, Inner, empty, look_table}
use indy_node.CompatSet.Table.{entries}
use indy_node.CompatSet.Algebra.{insert_all, merge, merge_into, copy}
use indy_node.CompatSet.Table.Slots.{length-entries}
use indy_node.CompatSet.Table.Good.{Plain, member}
use indy_node.CompatSet.Table.Steps.{Holds, Gives, insert_entry-Holds}
use indy_node.CompatSet.Table.Rebuild.{
  Holds-congr, resize-Holds, insert_all_clean-Holds, entries-Distinct, cleared, tally-le,
}
use indy_node.CompatSet.Table.Adds.{IsSetOf, IsSetOf-congr}

module _ {ℓ} {A : Type ℓ} ⦃key : Key A⦄ (plain : Plain A) where
  pub empty-IsSetOf : IsSetOf (λ (x : A). false) empty
  empty-IsSetOf = (cleared plain empty 3, (omega arith, omega arith))

  -- A table without an entry has no element.
  pub none_used : (f : A → Bool) (s : Inner A) → Holds f s → s.used ≡ 0 → (y : A) → f y ≡ false
  unfolding member
  none_used f s h e y =
      sym (h.members y)
      ∙ ap (member y) (no_entries (entries s.table) (length-entries s.table ∙ h.good.counted ∙ e))
    where
      no_entries : (xs : List A) → length xs ≡ 0 → xs ≡ []
      no_entries [] e = refl
      no_entries (x ∷ xs) e = absurd (omega (arith, e))

  insert_all-Holds :
      (f : A → Bool) (s : Inner A) (xs : List A)
      → Holds f s
      → s.fill + length xs ≤ s.mask
      → Gives
          (insert_all s xs)
          λ t. Holds (λ y. member y xs || f y) t × (t.mask ≡ s.mask) × (t.fill ≤ s.fill + length xs)
  unfolding insert_all member
  insert_all-Holds f s [] h room = (s, refl, (h, refl, omega arith))
  insert_all-Holds f s (x ∷ xs) h room =
      let (r, run, (new, holds, mask, fill)) =
        insert_entry-Holds plain f s h x (omega (arith, room)) in
      let filled : r.1.fill ≤ s.fill + 1 = ground (arith, fill) in
      let (u, runs, (all, masks, fills)) =
        insert_all-Holds (λ y. key.equal x y || f y) r.1 xs holds
          (omega (arith, room, mask, filled)) in
      (
        u,
        rw run runs,
        (Holds-congr _ _ u (λ y. ground arith) all, masks ∙ mask, omega (arith, fills, filled)),
      )

  merge_into-IsSetOf :
      (f g : A → Bool) (s o : Inner A)
      → Holds f s
      → 7 ≤ s.mask
      → (s.fill + o.used) * 3 < (s.mask + 1) * 2
      → IsSetOf g o
      → Gives (merge_into s o) (IsSetOf (λ y. g y || f y))
  merge_into-IsSetOf f g s o h seven load hg =
      let many = length-entries o.table ∙ hg.0.good.counted in
      let none_in : s.fill ≡ 0 → (y : A) → f y ≡ false =
        λ e. none_used f s h (omega (arith, e, h.good.filled, h.good.counted, tally-le s.table)) in
      elim (Bool-cases (num_eq s.fill 0 && (num_eq s.mask o.mask && num_eq o.fill o.used))) [
        | inl e ↦
            let sizes : (s.fill ≡ 0) × (s.mask ≡ o.mask) × (o.fill ≡ o.used) = ground (arith, e) in
            let good = hg.0.good in
            (
              record s { table = o.table; fill = o.fill; used = o.used },
              rw e refl,
              (
                record {
                  good = record {
                    order = good.order;
                    size = sizes.1 ∙ good.size;
                    slots = good.slots;
                    filled = good.filled;
                    counted = good.counted;
                    room = omega (arith, good.room, sizes.1);
                    sound = λ j x at. ap (λ m. look_table o.table m x) sizes.1 ∙ good.sound j x at;
                  };
                  members = λ y. ground (arith, hg.0.members y, none_in sizes.0 y);
                },
                (omega (arith, load, sizes.2), omega (arith, seven)),
              ),
            )
        | inr e ↦ elim (Bool-cases (num_eq s.fill 0)) [
          | inl z ↦
              let unfilled : s.fill ≡ 0 = ground (arith, z) in
              let (t, run, (holds, mask, fill)) =
                insert_all_clean-Holds plain f s (entries o.table) h (entries-Distinct o hg.0.good)
                  (λ x _. none_in unfilled x) (omega (arith, many, load, seven)) in
              (
                t,
                rw (e, z) run,
                (
                  Holds-congr _ _ t (λ y. ap (λ b. b || f y) (hg.0.members y)) holds,
                  (omega (arith, load, many, mask, fill), omega (arith, mask, seven)),
                ),
              )
          | inr z ↦
              let (t, run, (holds, mask, fill)) =
                insert_all-Holds f s (entries o.table) h (omega (arith, many, load, seven)) in
              (
                t,
                rw (e, z) run,
                (
                  Holds-congr _ _ t (λ y. ap (λ b. b || f y) (hg.0.members y)) holds,
                  (omega (arith, load, many, mask, fill), omega (arith, mask, seven)),
                ),
              )
        ]
      ]

  -- `merge`, and with it `update` and `union`, is the union.
  pub merge-IsSetOf :
      (f g : A → Bool) (s o : Inner A)
      → IsSetOf f s
      → IsSetOf g o
      → Gives (merge s o) (IsSetOf (λ y. g y || f y))
  unfolding merge
  merge-IsSetOf f g s o h hg = elim (Bool-cases (num_eq o.used 0)) [
    | inl e ↦ (
      s,
      rw e refl,
      IsSetOf-congr f _ s (λ y. ground (arith, none_used g o hg.0 (ground (arith, e)) y)) h,
    )
    | inr e ↦ elim (Bool-cases (leb ((s.mask + 1) * 2) ((s.fill + o.used) * 3))) [
      | inl c ↦
          let (t, run, (holds, mask, seven, fill)) =
            resize-Holds plain f s ((s.used + o.used) * 2) h.0 (omega arith) in
          let (u, runs, all) =
            merge_into-IsSetOf f g t o holds seven (omega (arith, mask, fill, seven)) hg in
          (u, rw (e, c) (rw run runs), all)
      | inr c ↦
          let (u, runs, all) = merge_into-IsSetOf f g s o h.0 h.1.1 (ground (arith, c)) hg in
          (u, rw (e, c) runs, all)
    ]
  ]

  pub copy-IsSetOf : (f : A → Bool) (s : Inner A) → IsSetOf f s → Gives (copy s) (IsSetOf f)
  unfolding copy
  copy-IsSetOf f s h =
      let (t, run, holds) = merge-IsSetOf (λ _. false) f empty s empty-IsSetOf h in
      (t, run, IsSetOf-congr _ f t (λ y. ground arith) holds)
