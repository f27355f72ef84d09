-- ===== src/CompatSet/Path.antt =====
-- The loops of `look_entry` and `insert_entry_clean` as a search along the sequence of indices that
-- they visit.
use indy_node.Base.{
  ℕ, zero, suc, Bool, true, false, Option, none, some, List, [], ◌∷◌, ◌++◌, if◌then◌else◌, ◌≡◌,
  refl, Bool-cases, inl, inr,
}
use indy_node.CompatSet.{
  ℤ, Key, Slot, free, removed, entry, Seen, hit, miss, slot_at, look_slot, look_turn, look_loop,
  look_table, free_turn, free_loop, free_table, turn, turns, next_index, shift, masked,
}

-- The indices that a loop visits in `n` turns.
unfoldable pub path : ℕ → ℕ → ℕ → ℤ → List ℕ
path zero mask i perturb = []
path (suc n) mask i perturb =
    turn mask i ++ path n mask (next_index mask i (shift perturb)) (shift perturb)

unfoldable pub probes : ℕ → ℤ → List ℕ
probes mask hash = path (turns mask hash) mask (masked hash mask) hash

abbrev or_first : Option ℕ → Option ℕ → Option ℕ
or_first none b = b
or_first (some a) b = some a

module _ {ℓ} {A : Type ℓ} where
  -- The first index of the list whose slot passes the test.
  unfoldable pub first : (Slot A → Bool) → List (Slot A) → List ℕ → Option ℕ
  first p table [] = none
  first p table (i ∷ is) =
      let rest = first p table is in if p (slot_at table i) then some i else rest

  first-append :
      (p : Slot A → Bool) (table : List (Slot A)) (is js : List ℕ)
      → first p table (is ++ js) ≡ or_first (first p table is) (first p table js)
  unfolding first
  first-append p table [] js = refl
  first-append p table (i ∷ is) js = elim (Bool-cases (p (slot_at table i))) [
    | inl e ↦ rw e refl
    | inr e ↦ rw e (first-append p table is js)
  ]

  abbrev pub is_free : Slot A → Bool
  is_free free = true
  is_free _ = false

  free_turn-first :
      (table : List (Slot A)) (is : List ℕ) → free_turn table is ≡ first is_free table is
  unfolding free_turn first
  free_turn-first table [] = refl
  free_turn-first table (i ∷ is) = go (slot_at table i) (free_turn-first table is)
    where
      go :
          (s : Slot A)
          → free_turn table is ≡ first is_free table is
          → (elim s [ free ↦ some i | _ ↦ free_turn table is ])
            ≡ (if is_free s then some i else first is_free table is)
      go free e = refl
      go removed e = e
      go (entry x) e = e

  free_loop-first :
      (n : ℕ) (table : List (Slot A)) (mask i : ℕ) (perturb : ℤ)
      → free_loop n table mask i perturb ≡ first is_free table (path n mask i perturb)
  unfolding free_loop path first
  free_loop-first zero table mask i perturb = refl
  free_loop-first (suc n) table mask i perturb =
      rw (first-append, ← free_turn-first table (turn mask i))
        (go (free_turn table (turn mask i)) _ _
          (free_loop-first n table mask (next_index mask i (shift perturb)) (shift perturb)))
    where
      go : (o r t : Option ℕ) → r ≡ t → (elim o [ some j ↦ some j | none ↦ r ]) ≡ or_first o t
      go none r t e = e
      go (some j) r t e = refl

abbrev stop_of : Seen → Option ℕ
stop_of (hit j) = some j
stop_of (miss f) = none

module _ {ℓ} {A : Type ℓ} ⦃key : Key A⦄ where
  abbrev pub stops : A → Slot A → Bool
  stops x free = true
  stops x removed = false
  stops x (entry y) = key.equal y x

  -- A turn stops at the first slot that is free or holds the element, whatever `free_idx` is.
  look_turn-first :
      (table : List (Slot A)) (x : A) (f : Option ℕ) (is : List ℕ)
      → stop_of (look_turn table x f is) ≡ first (stops x) table is
  unfolding first look_turn
  look_turn-first table x f [] = refl
  look_turn-first table x f (i ∷ is) = go (slot_at table i) f (λ g. look_turn-first table x g is)
    where
      go :
          (s : Slot A) (f : Option ℕ)
          → ((g : Option ℕ) → stop_of (look_turn table x g is) ≡ first (stops x) table is)
          → stop_of (elim (look_slot s x f i) [ hit j ↦ hit j | miss g ↦ look_turn table x g is ])
            ≡ (if stops x s then some i else first (stops x) table is)
      go free none h = refl
      go free (some f) h = refl
      go removed none h = h (some i)
      go removed (some f) h = h (some f)
      go (entry y) f h = elim (Bool-cases (key.equal y x)) [
        | inl e ↦ rw e refl
        | inr e ↦ rw e (h f)
      ]

  look_loop-first :
      (n : ℕ) (table : List (Slot A)) (mask : ℕ) (x : A) (f : Option ℕ) (i : ℕ) (perturb : ℤ)
      → look_loop n table mask x f i perturb ≡ first (stops x) table (path n mask i perturb)
  unfolding look_loop path first
  look_loop-first zero table mask x f i perturb = refl
  look_loop-first (suc n) table mask x f i perturb =
      let p = shift perturb in
      rw (first-append, ← look_turn-first table x f (turn mask i))
        (go (look_turn table x f (turn mask i)) _ _
          (λ g. look_loop-first n table mask x g (next_index mask i p) p))
    where
      go :
          (s : Seen) (k : Option ℕ → Option ℕ) (r : Option ℕ)
          → ((g : Option ℕ) → k g ≡ r)
          → (elim s [ hit j ↦ some j | miss g ↦ k g ]) ≡ or_first (stop_of s) r
      go (hit j) k r h = refl
      go (miss g) k r h = h g

  pub look_table-first :
      (table : List (Slot A)) (mask : ℕ) (x : A)
      → look_table table mask x ≡ first (stops x) table (probes mask (key.hash x))
  unfolding look_table probes
  look_table-first table mask x = look_loop-first _ table mask x none _ _

  pub free_table-first :
      (table : List (Slot A)) (mask : ℕ) (x : A)
      → free_table table mask x ≡ first is_free table (probes mask (key.hash x))
  unfolding free_table probes
  free_table-first table mask x = free_loop-first _ table mask _ _
