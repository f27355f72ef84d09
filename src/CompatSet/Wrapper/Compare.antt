-- ===== src/CompatSet/Wrapper/Compare.antt =====
-- `issubset`, `issuperset` and `isdisjoint` tell what they are to tell.
use indy_node.Base.{
  Bool, true, false, not, List, [], ◌∷◌, ◌≡◌, refl, sym, ap, ◌∙◌, inl, inr, arith, Bool-cases, ltb,
}
use indy_node.Base.{◌↔◌}
use indy_node.CompatSet.{Key, Inner}
use indy_node.CompatSet.Table.{entries, Outcome, returns, contains_entry}
use indy_node.CompatSet.Algebra.{Other, in_other, absent_from, len_of}
use indy_node.CompatSet.Wrapper.{all_pass, is_subset, is_superset, is_disjoint}
use indy_node.CompatSet.Table.Good.{Plain, member}
use indy_node.CompatSet.Table.Steps.{Gives, contains_entry-Holds}
use indy_node.CompatSet.Table.Walk.{iterate-entries}
use indy_node.CompatSet.Table.Adds.{IsSetOf}
use indy_node.CompatSet.Algebra.Difference.{Denotes, listed-Denotes, in_other-Denotes}

module _ {ℓ} {A : Type ℓ} ⦃key : Key A⦄ where
  -- Every element that `f` tells passes `p`.
  abbrev pub Every : (A → Bool) → (A → Bool) → Type ℓ
  Every f p = (y : A) → f y ≡ true → p y ≡ true

  all_pass-Every :
      (test : A → Outcome Bool) (p : A → Bool)
      → ((x : A) → test x ≡ returns (p x))
      → (xs : List A) → Gives (all_pass test xs) λ b. (b ≡ true) ↔ Every (λ y. member y xs) p
  unfolding all_pass member
  all_pass-Every test p e [] = (true, refl, ((λ _ y m. absurd (ground (arith, m))), λ _. refl))
  all_pass-Every test p e (x ∷ xs) =
      let same : (y : A) → key.equal x y ≡ true → p x ≡ p y = λ y q. ap p (key.equal_sound x y q) in
      elim (Bool-cases (p x)) [
        | inl passed ↦
            let (b, run, (to, from)) = all_pass-Every test p e xs in
            (
              b,
              rw (e x, passed) run,
              (
                (λ t y m. ground (arith, m, to t y, same y, passed)),
                λ every. from (λ y m. every y (ground (arith, m))),
              ),
            )
        | inr failed ↦ (
          false,
          rw (e x, failed) refl,
          (
            (λ t. absurd (ground (arith, t))),
            λ every. absurd (ground (arith, every x (rw key.equal_refl refl), failed)),
          ),
        )
      ]

  module _ (plain : Plain A) (f g : A → Bool) (s : Inner A) (other : Other A) (h : IsSetOf f s)
      (d : Denotes f g other) where
    pub is_subset-Every : Gives (is_subset s other) λ b. (b ≡ true) ↔ Every f g
    unfolding is_subset
    is_subset-Every =
        let (b, run, (to, from)) =
          all_pass-Every (in_other s other) g (λ x. in_other-Denotes plain f g s other x h d)
            (entries s.table) in
        (
          b,
          rw (iterate-entries s h.0.good) run,
          (
            (λ t y m. to t y (h.0.members y ∙ m)),
            λ every. from (λ y m. every y (sym (h.0.members y) ∙ m)),
          ),
        )

    pub is_superset-Every : Gives (is_superset s other) λ b. (b ≡ true) ↔ Every g f
    unfolding is_superset
    is_superset-Every =
        let (xs, listing, elements) = listed-Denotes plain f g s other h d in
        let (b, run, (to, from)) =
          all_pass-Every (contains_entry s) f (λ x. contains_entry-Holds plain f s h.0 x) xs in
        (
          b,
          rw listing run,
          (
            (λ t y m. to t y (elements y ∙ m)),
            λ every. from (λ y m. every y (sym (elements y) ∙ m)),
          ),
        )

    pub is_disjoint-Every : Gives (is_disjoint s other) λ b. (b ≡ true) ↔ Every f (λ y. not (g y))
    unfolding is_disjoint
    is_disjoint-Every = elim (Bool-cases (ltb (len_of s other) s.used)) [
      | inl e ↦
          let test : (x : A) → absent_from (in_other s other) x ≡ returns (not (g x)) =
            λ x. rw (in_other-Denotes plain f g s other x h d) refl in
          let (b, run, (to, from)) =
            all_pass-Every (absent_from (in_other s other)) (λ y. not (g y)) test
              (entries s.table) in
          (
            b,
            rw (e, iterate-entries s h.0.good) run,
            (
              (λ t y m. to t y (h.0.members y ∙ m)),
              λ every. from (λ y m. every y (sym (h.0.members y) ∙ m)),
            ),
          )
      | inr e ↦
          let (xs, listing, elements) = listed-Denotes plain f g s other h d in
          let test : (x : A) → absent_from (contains_entry s) x ≡ returns (not (f x)) =
            λ x. rw (contains_entry-Holds plain f s h.0 x) refl in
          let (b, run, (to, from)) =
            all_pass-Every (absent_from (contains_entry s)) (λ y. not (f y)) test xs in
          (
            b,
            rw (e, listing) run,
            (
              (λ t y m. ground (arith, m, to t y, elements y)),
              λ every. from (λ y m. ground (arith, every y, elements y, m)),
            ),
          )
    ]
