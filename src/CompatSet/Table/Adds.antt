-- ===== src/CompatSet/Table/Adds.antt =====
-- What `add` and `discard` do to the elements, one at a time and in a loop.
use indy_node.Base.{
  ◌+◌, ◌*◌, ◌≤◌, Bool, true, false, not, ◌||◌, ◌&&◌, List, [], ◌∷◌, ◌≡◌, refl, inl, inr, arith,
  Bool-cases, leb,
}
use indy_node.CompatSet.{Key, Inner}
use indy_node.CompatSet.Table.{add, add_all, discard, discard_all}
use indy_node.CompatSet.Table.Good.{Plain, member}
use indy_node.CompatSet.Table.Steps.{Holds, Gives, insert_entry-Holds, discard-Holds}
use indy_node.CompatSet.Table.Rebuild.{Holds-congr, IsLoaded, grow-Holds}

module _ {ℓ} {A : Type ℓ} ⦃key : Key A⦄ where
  -- `s` is a table between two calls, and `f` tells its elements.
  abbrev pub IsSetOf : (A → Bool) → Inner A → Type ℓ
  IsSetOf f s = Holds f s × IsLoaded s

  pub IsSetOf-congr :
      (f g : A → Bool) (s : Inner A) → ((y : A) → f y ≡ g y) → IsSetOf f s → IsSetOf g s
  IsSetOf-congr f g s e h = (Holds-congr f g s e h.0, h.1)

  module _ (plain : Plain A) where
    pub add-IsSetOf :
        (f : A → Bool) (s : Inner A) (x : A)
        → IsSetOf f s
        → Gives (add s x) (IsSetOf (λ y. key.equal x y || f y))
    unfolding add
    add-IsSetOf f s x h =
        let room : s.fill + 1 ≤ s.mask = omega (arith, h.1.0, h.1.1) in
        let (r, run, (new, holds, mask, fill)) = insert_entry-Holds plain f s h.0 x room in
        elim (Bool-cases (r.0 && leb ((r.1.mask + 1) * 2) (r.1.fill * 3))) [
          | inl e ↦
              let (t, runs, grown) = grow-Holds plain _ r.1 holds in (t, rw run (rw e runs), grown)
          | inr e ↦
              let kept : (f x ≡ true → r.1.fill ≡ s.fill)
                  × (f x ≡ false → (r.0 ≡ true) × (r.1.fill ≡ s.fill + 1)) =
                ground (arith, new, fill) in
              (
                r.1,
                rw run (rw e refl),
                (holds, (ground (arith, kept, e, mask, h.1), omega (arith, h.1.1, mask))),
              )
        ]

    pub add_all-IsSetOf :
        (f : A → Bool) (s : Inner A) (xs : List A)
        → IsSetOf f s
        → Gives (add_all s xs) (IsSetOf (λ y. member y xs || f y))
    unfolding add_all member
    add_all-IsSetOf f s [] h = (s, refl, h)
    add_all-IsSetOf f s (x ∷ xs) h =
        let (t, run, holds) = add-IsSetOf f s x h in
        let (u, runs, all) = add_all-IsSetOf (λ y. key.equal x y || f y) t xs holds in
        (u, rw run runs, IsSetOf-congr _ _ u (λ y. ground arith) all)

    pub discard-IsSetOf :
        (f : A → Bool) (s : Inner A) (x : A)
        → IsSetOf f s
        → Gives (discard s x) λ r. (r.0 ≡ f x) × IsSetOf (λ y. f y && not (key.equal x y)) r.1
    discard-IsSetOf f s x h =
        let (r, run, (found, holds, mask, fill)) = discard-Holds plain f s h.0 x in
        (r, run, (found, (holds, (omega (arith, h.1.0, mask, fill), omega (arith, h.1.1, mask)))))

    pub discard_all-IsSetOf :
        (f : A → Bool) (s : Inner A) (xs : List A)
        → IsSetOf f s
        → Gives (discard_all s xs) (IsSetOf (λ y. f y && not (member y xs)))
    unfolding discard_all member
    discard_all-IsSetOf f s [] h = (s, refl, IsSetOf-congr f _ s (λ y. ground arith) h)
    discard_all-IsSetOf f s (x ∷ xs) h =
        let (r, run, (found, holds)) = discard-IsSetOf f s x h in
        let (u, runs, all) = discard_all-IsSetOf (λ y. f y && not (key.equal x y)) r.1 xs holds in
        (u, rw run runs, IsSetOf-congr _ _ u (λ y. ground arith) all)
