-- ===== src/CompatSet/Bound.antt =====
-- In a table whose size is a power of two, every index that the loops visit is one of the table's.
use Prim.Native.Nat.{◌^◌}
use native.Mathlib.Nat.{one-le-pow, mod-lt}
use indy_node.Base.{
  ℕ, zero, suc, ◌+◌, ◌-◌, ◌*◌, ◌<◌, ◌≤◌, Bool, some, List, [], ◌∷◌, ◌++◌, leb, ◌≡◌, arith,
  Bool-cases, inl, inr,
}
use indy_node.Base.Bits.{bit_and_mask}
use indy_node.CompatSet.{ℤ, pos, negsuc, Slot, turn, linear_probes, range, plus, shift, masked}
use indy_node.CompatSet.Path.{path, probes, first}

abbrev pub Below : ℕ → List ℕ → Type 0
Below q [] = Unit
Below q (i ∷ is) = (i < q) × Below q is

Below-append : (q : ℕ) (is js : List ℕ) → Below q is → Below q js → Below q (is ++ js)
Below-append q [] js a b = b
Below-append q (i ∷ is) js a b = (a.0, Below-append q is js a.1 b)

pub first-Below {ℓ} :
    {A : Type ℓ} (p : Slot A → Bool) (table : List (Slot A)) (q : ℕ) (is : List ℕ) (j : ℕ)
    → Below q is
    → first p table is ≡ some j
    → j < q
unfolding first
first-Below p table q [] j a e = absurd (ground (arith, e))
first-Below p table q (i ∷ is) j a e = ground (arith, first-Below p table q is j a.1)

range-Below : (q i n : ℕ) → i + n ≤ q → Below q (range i n)
range-Below q i zero h = tt
range-Below q i (suc n) h = (omega (arith, h), range-Below q (suc i) n (omega (arith, h)))

turn-Below : (q i : ℕ) → i < q → Below q (turn (q - 1) i)
unfolding turn
turn-Below q i h = elim (Bool-cases (leb (i + linear_probes) (q - 1))) [
  | inl e ↦ rw e (h, range-Below q (i + 1) linear_probes (ground (arith, e)))
  | inr e ↦ rw e (h, tt)
]

module _ (k : ℕ) where
  pub masked-Below : (n : ℤ) → masked n (2 ^ k - 1) < 2 ^ k
  masked-Below (pos n) = rw bit_and_mask (mod-lt n (one-le-pow k 2 (omega arith)))
  masked-Below (negsuc n) = omega (arith, one-le-pow k 2 (omega arith))

  path-Below : (n i : ℕ) (p : ℤ) → i < 2 ^ k → Below (2 ^ k) (path n (2 ^ k - 1) i p)
  unfolding path
  path-Below zero i p h = tt
  path-Below (suc n) i p h =
      Below-append (2 ^ k) (turn (2 ^ k - 1) i) _ (turn-Below (2 ^ k) i h)
        (path-Below n _ (shift p) (masked-Below (plus (i * 5 + 1) (shift p))))

  pub probes-Below : (hash : ℤ) → Below (2 ^ k) (probes (2 ^ k - 1) hash)
  unfolding probes
  probes-Below hash = path-Below _ _ hash (masked-Below hash)
