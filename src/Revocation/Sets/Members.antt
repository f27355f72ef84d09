-- ===== src/Revocation/Sets/Members.antt =====
-- The members of what each operation on sets returns, and that it repeats none.
use indy_node.Base.{
  ℕ, ◌≡◌, refl, sym, ap, true, not, ◌&&◌, ◌||◌, List, [], ◌∷◌, arith, num_eq, num_eq_iff,
  Bool-cases, inl, inr,
}
use indy_node.Revocation.Sets.{elem, add, update, set_of, difference, intersection, insert, sort}

elem-same : (i x : ℕ) (s : List ℕ) → num_eq i x ≡ true → elem x s ≡ elem i s
elem-same i x s h = ap (λ k. elem k s) (sym ((num_eq_iff i x).0 h))

pub elem-add : (i x : ℕ) (s : List ℕ) → elem i (add x s) ≡ (num_eq i x || elem i s)
unfolding add
elem-add i x s = elim (Bool-cases (elem x s)) [
  | inl e ↦ rw e (ground (arith, e, elem-same i x s))
  | inr e ↦ rw e (unfold elem in refl)
]

pub elem-update : (i : ℕ) (s xs : List ℕ) → elem i (update s xs) ≡ (elem i s || elem i xs)
unfolding update elem
elem-update i s [] = ground arith
elem-update i s (x ∷ xs) = ground (arith, elem-update i (add x s) xs, elem-add i x s)

pub elem-set_of : (i : ℕ) (xs : List ℕ) → elem i (set_of xs) ≡ elem i xs
unfolding set_of
elem-set_of i xs = rw elem-update (unfold elem in refl)

pub elem-difference :
    (i : ℕ) (s xs : List ℕ) → elem i (difference s xs) ≡ (elem i s && not (elem i xs))
unfolding difference elem
elem-difference i [] xs = refl
elem-difference i (x ∷ s) xs = ground (arith, elem-difference i s xs, elem-same i x xs)

pub elem-intersection :
    (i : ℕ) (s xs : List ℕ) → elem i (intersection s xs) ≡ (elem i s && elem i xs)
unfolding intersection elem
elem-intersection i [] xs = refl
elem-intersection i (x ∷ s) xs = ground (arith, elem-intersection i s xs, elem-same i x xs)

pub elem-insert : (i x : ℕ) (s : List ℕ) → elem i (insert x s) ≡ (num_eq i x || elem i s)
unfolding insert elem
elem-insert i x [] = refl
elem-insert i x (y ∷ s) = ground (arith, elem-insert i x s)

pub elem-sort : (i : ℕ) (s : List ℕ) → elem i (sort s) ≡ elem i s
unfolding sort elem
elem-sort i [] = refl
elem-sort i (x ∷ s) = rw elem-insert (rw (elem-sort i s))
