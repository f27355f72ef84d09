-- ===== src/CompatSet/Algebra/Difference.antt =====
-- `difference`, `difference_update`, `intersection` and `symmetric_difference_update`.
use indy_node.Base.{
  ◌-◌, ◌*◌, Bool, true, false, not, ◌||◌, ◌&&◌, List, [], ◌∷◌, ◌≡◌, refl, ap, ◌∙◌, inl, inr, arith,
  Bool-cases, leb, if◌then◌else◌,
}
use Prim.Native.Nat.{◌/◌}
use indy_node.CompatSet.{Key, Inner, empty}
use indy_node.CompatSet.Table.{entries, Outcome, returns, ◌>>=◌, grow, discard_all}
use indy_node.CompatSet.Algebra.{
  Other, iterable, builtin_set, compat, itself, listed, in_other, len_of, is_set, keep, absent_from,
  difference, difference_update, seen_from,
}
use indy_node.CompatSet.Table.Good.{Plain, member}
use indy_node.CompatSet.Table.Steps.{Gives, contains_entry-Holds}
use indy_node.CompatSet.Table.Walk.{iterate-entries}
use indy_node.CompatSet.Table.Rebuild.{grow-Holds}
use indy_node.CompatSet.Table.Adds.{IsSetOf, IsSetOf-congr, add-IsSetOf, discard_all-IsSetOf}
use indy_node.CompatSet.Algebra.Merge.{empty-IsSetOf, copy-IsSetOf}

module _ {ℓ} {A : Type ℓ} ⦃key : Key A⦄ where
  -- `g` tells the elements of the argument `other` of an operation on `s`, whose elements `f`
  -- tells.
  abbrev pub Denotes : (A → Bool) → (A → Bool) → Other A → Type ℓ
  Denotes f g (iterable xs) = (y : A) → member y xs ≡ g y
  Denotes f g (builtin_set xs) = (y : A) → member y xs ≡ g y
  Denotes f g (compat o) = IsSetOf g o
  Denotes f g itself = (y : A) → f y ≡ g y

  module _ (plain : Plain A) where
    pub listed-Denotes :
        (f g : A → Bool) (s : Inner A) (other : Other A)
        → IsSetOf f s
        → Denotes f g other
        → Gives (listed s other) λ xs. (y : A) → member y xs ≡ g y
    listed-Denotes f g s (iterable xs) h d = (xs, refl, d)
    listed-Denotes f g s (builtin_set xs) h d = (xs, refl, d)
    listed-Denotes f g s (compat o) h d = (entries o.table, iterate-entries o d.0.good, d.0.members)
    listed-Denotes f g s itself h d =
        (entries s.table, iterate-entries s h.0.good, λ y. h.0.members y ∙ d y)

    pub in_other-Denotes :
        (f g : A → Bool) (s : Inner A) (other : Other A) (x : A)
        → IsSetOf f s
        → Denotes f g other
        → in_other s other x ≡ returns (g x)
    in_other-Denotes f g s (iterable xs) x h d = ap returns (d x)
    in_other-Denotes f g s (builtin_set xs) x h d = ap returns (d x)
    in_other-Denotes f g s (compat o) x h d = contains_entry-Holds plain g o d.0 x
    in_other-Denotes f g s itself x h d = contains_entry-Holds plain f s h.0 x ∙ ap returns (d x)

    pub seen_from-Denotes :
        (e f g : A → Bool) (s : Inner A) (other : Other A)
        → IsSetOf f s
        → Denotes f g other
        → Denotes e g (seen_from s other)
    seen_from-Denotes e f g s (iterable xs) h d = d
    seen_from-Denotes e f g s (builtin_set xs) h d = d
    seen_from-Denotes e f g s (compat o) h d = d
    seen_from-Denotes e f g s itself h d = IsSetOf-congr f g s d h

    pub keep-IsSetOf :
        (test : A → Outcome Bool) (p : A → Bool)
        → ((x : A) → test x ≡ returns (p x))
        → (f : A → Bool) (res : Inner A) (xs : List A) → IsSetOf f res
        → Gives (keep test res xs) (IsSetOf (λ y. (member y xs && p y) || f y))
    unfolding keep member
    keep-IsSetOf test p e f res [] h = (res, refl, h)
    keep-IsSetOf test p e f res (x ∷ xs) h =
        let same : (y : A) → key.equal x y ≡ true → p x ≡ p y =
          λ y q. ap p (key.equal_sound x y q) in
        elim (Bool-cases (p x)) [
          | inl passed ↦
              let (t, run, holds) = add-IsSetOf plain f res x h in
              let (u, runs, all) = keep-IsSetOf test p e (λ y. key.equal x y || f y) t xs holds in
              (
                u,
                rw (e x, passed) (rw run runs),
                IsSetOf-congr _ _ u (λ y. ground (arith, passed, same y)) all,
              )
          | inr failed ↦
              let (u, runs, all) = keep-IsSetOf test p e f res xs h in
              (
                u,
                rw (e x, failed) runs,
                IsSetOf-congr _ _ u (λ y. ground (arith, failed, same y)) all,
              )
        ]

    -- The rest of `difference_update`, for the elements of the argument.
    drop_listed :
        (f g : A → Bool) (s : Inner A) (xs : List A)
        → IsSetOf f s
        → ((y : A) → member y xs ≡ g y)
        → Gives
            (discard_all s xs >>= λ t.
              if leb t.mask ((t.fill - t.used) * 5) then grow t else returns t)
            (IsSetOf (λ y. f y && not (g y)))
    drop_listed f g s xs h d =
        let (t, run, dropped) = discard_all-IsSetOf plain f s xs h in
        let holds =
          IsSetOf-congr _ (λ y. f y && not (g y)) t (λ y. ap (λ b. f y && not b) (d y)) dropped in
        elim (Bool-cases (leb t.mask ((t.fill - t.used) * 5))) [
          | inl e ↦
              let (u, runs, grown) = grow-Holds plain _ t holds.0 in (u, rw run (rw e runs), grown)
          | inr e ↦ (t, rw run (rw e refl), holds)
        ]

    pub difference_update-IsSetOf :
        (f g : A → Bool) (s : Inner A) (other : Other A)
        → IsSetOf f s
        → Denotes f g other
        → Gives (difference_update s other) (IsSetOf (λ y. f y && not (g y)))
    unfolding difference_update
    difference_update-IsSetOf f g s (iterable xs) h d = drop_listed f g s xs h d
    difference_update-IsSetOf f g s (builtin_set xs) h d = drop_listed f g s xs h d
    difference_update-IsSetOf f g s (compat o) h d =
        rw (iterate-entries o d.0.good) (drop_listed f g s (entries o.table) h d.0.members)
    difference_update-IsSetOf f g s itself h d =
        (empty, refl, IsSetOf-congr _ _ empty (λ y. ground (arith, d y)) (empty-IsSetOf plain))

    pub difference-IsSetOf :
        (f g : A → Bool) (s : Inner A) (other : Other A)
        → IsSetOf f s
        → Denotes f g other
        → Gives (difference s other) (IsSetOf (λ y. f y && not (g y)))
    unfolding difference
    difference-IsSetOf f g s other h d =
        elim (Bool-cases (is_set other && leb (s.used / 4) (len_of s other))) [
          | inl e ↦
              let test : (x : A) → absent_from (in_other s other) x ≡ returns (not (g x)) =
                λ x. rw (in_other-Denotes f g s other x h d) refl in
              let (t, run, holds) =
                keep-IsSetOf (absent_from (in_other s other)) (λ y. not (g y)) test (λ _. false)
                  empty (entries s.table) (empty-IsSetOf plain) in
              (
                t,
                rw e (rw (iterate-entries s h.0.good) run),
                IsSetOf-congr _ _ t (λ y. ground (arith, h.0.members y)) holds,
              )
          | inr e ↦
              let (res, run, copied) = copy-IsSetOf plain f s h in
              let (t, runs, holds) =
                difference_update-IsSetOf f g res (seen_from s other) copied
                  (seen_from-Denotes f f g s other h d) in
              (t, rw e (rw run runs), holds)
        ]
