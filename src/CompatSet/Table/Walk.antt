-- ===== src/CompatSet/Table/Walk.antt =====
-- The iteration of a set gives the entries of its table, in the order of the slots, and `pop` finds
-- one.
use native.Mathlib.Nat.{one-le-pow}
use indy_node.Base.{
  ℕ, zero, suc, ◌+◌, ◌-◌, ◌<◌, ◌≤◌, Option, some, none, List, [], ◌∷◌, length, ◌≡◌, refl, sym, ap,
  ◌∙◌, ◌⊎◌, inl, inr, arith, Bool-cases, ltb,
}
use indy_node.CompatSet.{Key, Slot, free, removed, entry, Inner, slot_at}
use indy_node.CompatSet.Table.{entries, returns, ◌>>=◌, next, next_loop, iter_loop, iterate}
use indy_node.CompatSet.Table.Good.{IsGood}

module _ {ℓ} {A : Type ℓ} where
  abbrev drop : ℕ → List A → List A
  drop zero xs = xs
  drop (suc n) [] = []
  drop (suc n) (x ∷ xs) = drop n xs

  drop-all : (xs : List A) (n : ℕ) → length xs ≤ n → drop n xs ≡ []
  drop-all [] zero h = refl
  drop-all (x ∷ xs) zero h = absurd (omega (arith, h))
  drop-all [] (suc n) h = refl
  drop-all (x ∷ xs) (suc n) h = drop-all xs n (omega (arith, h))

module _ {ℓ} {A : Type ℓ} where
  drop-slot :
      (table : List (Slot A)) (i : ℕ)
      → i < length table
      → drop i table ≡ slot_at table i ∷ drop (suc i) table
  drop-slot [] i h = absurd (omega (arith, h))
  drop-slot (s ∷ table) zero h = refl
  drop-slot (s ∷ table) (suc i) h = drop-slot table i (omega (arith, h))

  -- The result of `next` tells the entries from a position on.
  abbrev IsNext : ℕ × Option A → ℕ → List (Slot A) → Type ℓ
  IsNext r i table =
      ((r.1 ≡ none) × (entries (drop i table) ≡ []))
      ⊎ ((x : A) × (r.1 ≡ some x)
          × (entries (drop i table) ≡ x ∷ entries (drop r.0 table))
          × (i < r.0)
          × (r.0 ≤ length table))

  skip_slot :
      (s : Slot A) (rest : ℕ × Option A) (i j : ℕ) (table : List (Slot A))
      → i < j
      → j ≤ length table
      → entries (drop i table) ≡ entries (s ∷ drop j table)
      → IsNext rest j table
      → IsNext (elim s [ entry x ↦ (j, some x) | _ ↦ rest ]) i table
  skip_slot (entry x) rest i j table b c e h = inr (x, refl, e, b, c)
  skip_slot free rest i j table b c e (inl h) = inl (h.0, e ∙ h.1)
  skip_slot free rest i j table b c e (inr (x, f, g, l, m)) =
      inr (x, f, e ∙ g, omega (arith, l, b), m)
  skip_slot removed rest i j table b c e (inl h) = inl (h.0, e ∙ h.1)
  skip_slot removed rest i j table b c e (inr (x, f, g, l, m)) =
      inr (x, f, e ∙ g, omega (arith, l, b), m)

  next_loop-IsNext :
      (n : ℕ) (table : List (Slot A)) (mask i : ℕ)
      → length table ≡ mask + 1
      → 1 ≤ n
      → mask + 2 ≤ i + n
      → IsNext (next_loop n table mask i) i table
  next_loop-IsNext zero table mask i size h le = absurd (omega (arith, h))
  next_loop-IsNext (suc n) table mask i size h le = elim (Bool-cases (ltb mask i)) [
    | inl e ↦ rw e (inl (refl, ap entries (drop-all table i (ground (arith, e, size)))))
    | inr e ↦
        let inside : i ≤ mask = ground (arith, e) in
        let one : suc i ≡ i + 1 = omega arith in
        let split = drop-slot table i (omega (arith, inside, size)) in
        rw e (
          skip_slot (slot_at table i) (next_loop n table mask (i + 1)) i (i + 1) table (omega arith)
            (omega (arith, inside, size))
            (ap entries (split ∙ ap (λ t. slot_at table i ∷ drop t table) one))
            (next_loop-IsNext n table mask (i + 1) size (omega (arith, inside, le))
              (omega (arith, le))))
  ]

  iter_step :
      (n : ℕ) (s : Inner A) (r : ℕ × Option A) (ys zs : List A)
      → ((r.1 ≡ none) × (ys ≡ []))
        ⊎ ((x : A) × (r.1 ≡ some x) × (ys ≡ x ∷ zs) × (iter_loop n s r.0 ≡ returns zs))
      → (elim r.1 [ none ↦ returns [] | some x ↦ iter_loop n s r.0 >>= λ rest. returns (x ∷ rest) ])
        ≡ returns ys
  iter_step n s (p, none) ys zs (inl h) = ap returns (sym h.1)
  iter_step n s (p, none) ys zs (inr h) = absurd (ground (arith, h.1))
  iter_step n s (p, some y) ys zs (inl h) = absurd (ground (arith, h.0))
  iter_step n s (p, some y) ys zs (inr (x, e, f, g)) =
      ap (λ o. o >>= λ rest. returns (y ∷ rest)) g ∙ ap returns (ap (head_of zs) e ∙ sym f)
    where
      head_of : List A → Option A → List A
      head_of zs none = []
      head_of zs (some a) = a ∷ zs

  iter_loop-entries :
      (n : ℕ) (s : Inner A) (i : ℕ)
      → length s.table ≡ s.mask + 1
      → i ≤ s.mask + 1
      → 1 ≤ n
      → s.mask + 2 ≤ i + n
      → iter_loop n s i ≡ returns (entries (drop i s.table))
  unfolding iter_loop next
  iter_loop-entries zero s i size b h le = absurd (omega (arith, h))
  iter_loop-entries (suc n) s i size b h le =
      let r = next s i in
      iter_step n s r _ (entries (drop r.0 s.table))
        (elim (next_loop-IsNext (s.mask + 2 - i) s.table s.mask i size (omega (arith, b))
          (omega (arith, b))) [
            | inl ended ↦ inl ended
            | inr (x, found, split, further, inside) ↦ inr (
              x,
              found,
              split,
              iter_loop-entries n s _ size (omega (arith, inside, size))
                  (omega (arith, le, further, inside, size)) (omega (arith, le, further)),
            )
          ])

module _ {ℓ} {A : Type ℓ} ⦃key : Key A⦄ where
  pub length-table : (s : Inner A) → IsGood s → length s.table ≡ s.mask + 1
  length-table s good = omega (arith, good.slots, good.size, one-le-pow good.order 2 (omega arith))

  pub iterate-entries : (s : Inner A) → IsGood s → iterate s ≡ returns (entries s.table)
  unfolding iterate
  iterate-entries s good =
      iter_loop-entries (s.mask + 2) s 0 (length-table s good) (omega arith) (omega arith)
        (omega arith)
