-- ===== src/Revocation/Sets/Order.antt =====
-- A sorted set is determined by its members.
use indy_node.Base.{
  ℕ, ◌<◌, ◌≡◌, refl, ap₂, true, false, List, [], ◌∷◌, arith, Bool-cases, inl, inr, leb,
}
use indy_node.Revocation.Sets.{elem, add, update, set_of, difference, insert, sort}
use indy_node.Revocation.Sets.Members.{elem-sort, elem-difference}

-- No member is repeated.
abbrev pub Distinct : List ℕ → Type 0
Distinct [] = Unit
Distinct (x ∷ xs) = (elem x xs ≡ false) × Distinct xs

abbrev pub Above : ℕ → List ℕ → Type 0
Above i [] = Unit
Above i (x ∷ xs) = (i < x) × Above i xs

-- Strictly ascending.
abbrev pub Ascending : List ℕ → Type 0
Ascending [] = Unit
Ascending (x ∷ xs) = Above x xs × Ascending xs

Above-trans : (i j : ℕ) (xs : List ℕ) → i < j → Above j xs → Above i xs
Above-trans i j [] h a = tt
Above-trans i j (x ∷ xs) h a = (omega (arith, h, a.0), Above-trans i j xs h a.1)

Above-insert : (i j : ℕ) (xs : List ℕ) → i < j → Above i xs → Above i (insert j xs)
unfolding insert
Above-insert i j [] h a = (h, tt)
Above-insert i j (x ∷ xs) h a = elim (Bool-cases (leb j x)) [
  | inl e ↦ rw e (h, (a.0, a.1))
  | inr e ↦ rw e (a.0, Above-insert i j xs h a.1)
]

insert-Ascending :
    (i : ℕ) (xs : List ℕ) → elem i xs ≡ false → Ascending xs → Ascending (insert i xs)
unfolding insert elem
insert-Ascending i [] e a = (tt, tt)
insert-Ascending i (x ∷ xs) e a = elim (Bool-cases (leb i x)) [
  | inl l ↦
      let below : i < x = ground arith in rw l ((below, Above-trans i x xs below a.0), (a.0, a.1))
  | inr l ↦ rw l (Above-insert x i xs (ground arith) a.0, insert-Ascending i xs (ground arith) a.1)
]

pub sort-Ascending : (xs : List ℕ) → Distinct xs → Ascending (sort xs)
unfolding sort
sort-Ascending [] d = tt
sort-Ascending (x ∷ xs) d = insert-Ascending x (sort xs) (rw elem-sort d.0) (sort-Ascending xs d.1)

Above-elem : (i : ℕ) (xs : List ℕ) → Above i xs → elem i xs ≡ false
unfolding elem
Above-elem i [] a = refl
Above-elem i (x ∷ xs) a = ground (arith, Above-elem i xs a.1)

elem-Above : (i j : ℕ) (xs : List ℕ) → Above i xs → elem j xs ≡ true → i < j
unfolding elem
elem-Above i j [] a e = absurd (ground arith)
elem-Above i j (x ∷ xs) a e = ground (arith, elem-Above i j xs a.1)

tails :
    (x y : ℕ) (xs ys : List ℕ)
    → x ≡ y
    → Above x xs
    → Above y ys
    → ((i : ℕ) → elem i (x ∷ xs) ≡ elem i (y ∷ ys))
    → (i : ℕ) → elem i xs ≡ elem i ys
unfolding elem
tails x y xs ys e a b h i = ground (arith, h i, elem-Above x i xs a, elem-Above y i ys b)

pub Ascending-unique :
    (xs ys : List ℕ) → Ascending xs → Ascending ys → ((i : ℕ) → elem i xs ≡ elem i ys) → xs ≡ ys
unfolding elem
Ascending-unique [] [] a b h = refl
Ascending-unique [] (y ∷ ys) a b h = absurd (ground (arith, h y))
Ascending-unique (x ∷ xs) [] a b h = absurd (ground (arith, h x))
Ascending-unique (x ∷ xs) (y ∷ ys) a b h =
    let e : x ≡ y = ground (arith, h x, h y, elem-Above x y xs a.0, elem-Above y x ys b.0) in
    let rest = Ascending-unique xs ys a.1 b.1 (tails x y xs ys e a.0 b.0 h) in
    ap₂ (λ i l. i ∷ l) e rest

pub add-Distinct : (x : ℕ) (s : List ℕ) → Distinct s → Distinct (add x s)
unfolding add
add-Distinct x s d = elim (Bool-cases (elem x s)) [ inl e ↦ rw e d | inr e ↦ rw e (e, d) ]

pub update-Distinct : (s xs : List ℕ) → Distinct s → Distinct (update s xs)
unfolding update
update-Distinct s [] d = d
update-Distinct s (x ∷ xs) d = update-Distinct (add x s) xs (add-Distinct x s d)

pub difference-Distinct : (s xs : List ℕ) → Distinct s → Distinct (difference s xs)
unfolding difference
difference-Distinct [] xs d = tt
difference-Distinct (i ∷ s) xs d = elim (Bool-cases (elem i xs)) [
  | inl e ↦ rw e (difference-Distinct s xs d.1)
  | inr e ↦ rw e (rw elem-difference (ground (arith, d.0)), difference-Distinct s xs d.1)
]

pub set_of-Distinct : (xs : List ℕ) → Distinct (set_of xs)
unfolding set_of
set_of-Distinct xs = update-Distinct [] xs tt
