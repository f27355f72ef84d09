-- ===== src/Upgrade/Ledger/Search.antt =====
-- What the traversals of `get_upgrade_txn` (indy_node/server/upgrader.py) find.
use indy_node.Base.{
  ℕ, zero, suc, ◌-◌, ◌≤◌, ◌<◌, ◌≡◌, ◌≢◌, refl, ap, sym, none, some, Bool, true, false, arith,
  Bool-cases, inl, inr, ◌⊎◌,
}
use indy_node.Upgrade.Ledger.{find_down, find_up}

≤-split : (n b : ℕ) → n ≤ suc b → (n < suc b) ⊎ (n ≡ suc b)
≤-split n b h = ground (arith, h)

module _ {T : Type 0} (txn_at : ℕ → T) (p : T → Bool) where
  -- A number where the predicate holds, and above which up to a bound it fails.
  pub record LastBelow (bound n : ℕ) : Type 0 where
    pub positive : 0 < n
    pub bounded : n ≤ bound
    pub holds : p (txn_at n) ≡ true
    pub later : (m : ℕ) → n < m → m ≤ bound → p (txn_at m) ≡ false

  abbrev pub NoneBetween : ℕ → ℕ → Type 0
  NoneBetween low high = (m : ℕ) → low ≤ m → m ≤ high → p (txn_at m) ≡ false

  apart : (i j : ℕ) → p (txn_at i) ≡ true → p (txn_at j) ≡ false → i ≢ j
  apart i j h g e = cc (h, g, ap (λ k. p (txn_at k)) e)

  LastBelow-suc :
      (bound n : ℕ) → p (txn_at (suc bound)) ≡ false → LastBelow (suc bound) n → LastBelow bound n
  LastBelow-suc bound n h l =
      let bounded' : n ≤ bound = ground (arith, apart n (suc bound) l.holds h, l.bounded) in
      record {
        positive = l.positive;
        bounded = bounded';
        holds = l.holds;
        later = λ m a b. l.later m a (omega (arith, b));
      }

  last_one : (bound n : ℕ) → LastBelow (suc bound) n → p (txn_at (suc bound)) ≡ true → suc bound ≡ n
  last_one bound n l e = elim (≤-split n bound l.bounded) [
    | inl below ↦ absurd (ground (arith, e, l.later (suc bound) below (omega arith)))
    | inr same ↦ sym same
  ]

  pub find_down-LastBelow :
      (bound n : ℕ) → LastBelow bound n → find_down txn_at p bound ≡ some (txn_at n)
  unfolding find_down
  find_down-LastBelow zero n l = absurd (omega (arith, l.positive, l.bounded))
  find_down-LastBelow (suc bound) n l = elim (Bool-cases (p (txn_at (suc bound)))) [
    | inl e ↦ rw e (ap (λ k. some (txn_at k)) (last_one bound n l e))
    | inr e ↦ rw e (find_down-LastBelow bound n (LastBelow-suc bound n e l))
  ]

  pub find_down-NoneBetween : (bound : ℕ) → NoneBetween 1 bound → find_down txn_at p bound ≡ none
  unfolding find_down
  find_down-NoneBetween zero h = refl
  find_down-NoneBetween (suc bound) h =
      rw (h (suc bound) (omega arith) (omega arith))
        (find_down-NoneBetween bound (λ m a b. h m a (omega (arith, b))))

  pub find_up-NoneBetween :
      (left n high : ℕ) → suc high - n ≡ left → NoneBetween n high → find_up txn_at p left n ≡ none
  unfolding find_up
  find_up-NoneBetween zero n high e h = refl
  find_up-NoneBetween (suc left) n high e h =
      rw (h n (omega arith) (omega (arith, e))) (
        find_up-NoneBetween left (suc n) high (omega (arith, e))
          (λ m a b. h m (omega (arith, a)) b))

  pub find_up-some :
      (left n high m : ℕ)
      → suc high - n ≡ left
      → n ≤ m
      → m ≤ high
      → p (txn_at m) ≡ true
      → (k : ℕ) × (find_up txn_at p left n ≡ some (txn_at k))
  unfolding find_up
  find_up-some zero n high m e a b h = absurd (omega (arith, e, a, b))
  find_up-some (suc left) n high m e a b h = elim (Bool-cases (p (txn_at n))) [
    | inl t ↦ (n, rw t refl)
    | inr f ↦
        rw f (
          find_up-some left (suc n) high m (omega (arith, e)) (ground (arith, a, apart m n h f)) b
            h)
  ]
