-- ===== src/Revocation/Sets.antt =====
-- Python's sets of indices, as the revocation strategies use them. A set is the list of its members
-- without repetition; what the program reads of it does not depend on the order, but for the legacy
-- ordering. Indices are natural numbers.
pub mod Members
pub mod Order
use indy_node.Base.{
  ℕ, Bool, true, false, not, ◌&&◌, ◌||◌, List, [], ◌∷◌, num_eq, leb, if◌then◌else◌,
}

-- `i in xs`
unfoldable pub elem : ℕ → List ℕ → Bool
elem i [] = false
elem i (x ∷ xs) = num_eq i x || elem i xs

-- `s.add(i)`
unfoldable pub add : ℕ → List ℕ → List ℕ
add i s = if elem i s then s else i ∷ s

-- `s.update(xs)`
unfoldable pub update : List ℕ → List ℕ → List ℕ
update s [] = s
update s (x ∷ xs) = update (add x s) xs

-- `set(xs)`
unfoldable pub set_of : List ℕ → List ℕ
set_of xs = update [] xs

-- `s.difference(xs)`
unfoldable pub difference : List ℕ → List ℕ → List ℕ
difference [] xs = []
difference (i ∷ s) xs = let rest = difference s xs in if elem i xs then rest else i ∷ rest

-- `s.intersection(xs)`
unfoldable pub intersection : List ℕ → List ℕ → List ℕ
intersection [] xs = []
intersection (i ∷ s) xs = let rest = intersection s xs in if elem i xs then i ∷ rest else rest

unfoldable pub insert : ℕ → List ℕ → List ℕ
insert i [] = i ∷ []
insert i (x ∷ xs) = let rest = insert i xs in if leb i x then i ∷ x ∷ xs else x ∷ rest

-- `list.sort()`
unfoldable pub sort : List ℕ → List ℕ
sort [] = []
sort (x ∷ xs) = insert x (sort xs)
