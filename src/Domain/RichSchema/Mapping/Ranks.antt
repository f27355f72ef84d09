-- ===== src/Domain/RichSchema/Mapping/Ranks.antt =====
-- The ranks of a mapping: rich_schema_mapping_handler.py.
use indy_node.Base.{
  ℕ, zero, suc, ◌+◌, Option, none, some, Bool, true, false, ◌&&◌, List, [], ◌∷◌, num_eq, leb, ltb,
  length, ◌≡◌, refl, sym, ap, ap₂, ◌∙◌, arith, Bool-cases, inl, inr,
}
use indy_node.Revocation.Sets.{sort, insert}
use indy_node.Domain.RichSchema.{passed}
use indy_node.Domain.RichSchema.Mapping.{range_from, list_eq, check_ranks}

abbrev pub one_if : Bool → ℕ
one_if true = 1
one_if false = 0

-- How often a number stands in a list.
unfoldable pub occurrences : ℕ → List ℕ → ℕ
occurrences i [] = 0
occurrences i (x ∷ xs) = one_if (num_eq i x) + occurrences i xs

occurrences-insert :
    (i x : ℕ) (xs : List ℕ) → occurrences i (insert x xs) ≡ one_if (num_eq i x) + occurrences i xs
unfolding occurrences insert
occurrences-insert i x [] = refl
occurrences-insert i x (y ∷ ys) = elim (Bool-cases (leb x y)) [
  | inl e ↦ rw e refl
  | inr e ↦ rw e (rw (occurrences-insert i x ys) (omega arith))
]

occurrences-sort : (i : ℕ) (xs : List ℕ) → occurrences i (sort xs) ≡ occurrences i xs
unfolding occurrences sort
occurrences-sort i [] = refl
occurrences-sort i (x ∷ xs) =
    occurrences-insert i x (sort xs) ∙ ap (λ n. one_if (num_eq i x) + n) (occurrences-sort i xs)

occurrences-range :
    (i first n : ℕ) → occurrences i (range_from first n) ≡ one_if (leb first i && ltb i (first + n))
unfolding occurrences range_from
occurrences-range i first zero = ground arith
occurrences-range i first (suc n) = ground (arith, occurrences-range i (suc first) n)

list_eq-same : (xs ys : List ℕ) → list_eq xs ys ≡ true → xs ≡ ys
unfolding list_eq
list_eq-same [] [] h = refl
list_eq-same (x ∷ xs) (y ∷ ys) h =
    ap₂ (λ a b. a ∷ b) (ground (arith, h)) (list_eq-same xs ys (ground (arith, h)))
list_eq-same [] (y ∷ ys) h = absurd (ground (arith, h))
list_eq-same (x ∷ xs) [] h = absurd (ground (arith, h))

-- Each number from one to their number is one of the ranks, once, and there are no others.
abbrev pub Sequential : List ℕ → Type 0
Sequential l = (i : ℕ) → occurrences i l ≡ one_if (leb 1 i && leb i (length l))

pub check_ranks-Sequential :
    (r : Option (List ℕ)) → check_ranks r ≡ passed → (l : List ℕ) × (r ≡ some l) × Sequential l
check_ranks-Sequential none h = absurd (ground (arith, h))
check_ranks-Sequential (some l) h = elim (Bool-cases (list_eq (sort l) (range_from 1 (length l)))) [
  | inr e ↦ absurd (ground (arith, rw (e, check_ranks) at h))
  | inl e ↦ (
    l,
    refl,
    λ i.
        sym (occurrences-sort i l)
        ∙ ap (occurrences i) (list_eq-same (sort l) (range_from 1 (length l)) e)
        ∙ occurrences-range i 1 (length l)
        ∙ ground arith,
  )
]
