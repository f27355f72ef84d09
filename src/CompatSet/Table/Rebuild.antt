-- ===== src/CompatSet/Table/Rebuild.antt =====
-- `insert_entry_clean`, `resize` and `grow`: the rebuilt table has the same elements.
use Prim.Native.Nat.{◌^◌}
use native.Mathlib.Nat.{one-le-pow, pow-suc}
use indy_node.Base.{
  ℕ, zero, suc, ◌+◌, ◌-◌, ◌*◌, ◌<◌, ◌≤◌, Bool, true, false, ◌||◌, List, [], ◌∷◌, length, ◌≡◌, refl,
  sym, ap, ◌∙◌, inl, inr, arith, Bool-cases, leb, ltb, if◌then◌else◌,
}
use indy_node.CompatSet.{
  Key, Slot, free, removed, entry, Inner, slot_at, put_slot, is_entry, look_table, free_slots,
  free_table,
}
use indy_node.CompatSet.Path.{first, is_free, stops, probes, look_table-first, free_table-first}
use indy_node.CompatSet.Table.{
  entries, returns, insert_entry_clean, insert_all_clean, double_size, resize, grow,
}
use indy_node.CompatSet.Table.Slots.{
  tally, tally-free_slots, length-free_slots, slot_at-free_slots, length-entries,
}
use indy_node.CompatSet.Table.Good.{
  IsGood, Plain, is_taken, look-IsGood, member, member-slot, slot-member,
}
use indy_node.CompatSet.Table.Change.{some_lem, insert-IsGood, member-put_entry}
use indy_node.CompatSet.Table.Steps.{Holds, Gives}

-- `new_size` ends above `min_used`, and is a power of two.
double_size-lt :
    (n a min_used : ℕ)
    → 1 ≤ n
    → min_used + 2 ≤ 2 ^ a + n
    → (b : ℕ) × (double_size n (2 ^ a) min_used ≡ returns (2 ^ b))
      × (min_used < 2 ^ b)
      × (2 ^ a ≤ 2 ^ b)
double_size-lt zero a min_used h le = absurd (omega (arith, h))
double_size-lt (suc n) a min_used h le = elim (Bool-cases (leb (2 ^ a) min_used)) [
  | inl e ↦
      let pos_a = one-le-pow a 2 (omega arith) in
      let under : 2 ^ a ≤ min_used = ground (arith, e) in
      let (b, run, above, more) =
        double_size-lt n (suc a) min_used (omega (arith, le, under))
          (omega (arith, le, under, pos_a, pow-suc 2 a)) in
      (b, rw e (rw (← pow-suc 2 a) run), above, omega (arith, more, pow-suc 2 a))
  | inr e ↦ (a, rw e refl, ground (arith, e), omega arith)
]

module _ {ℓ} {A : Type ℓ} where
  first_congr :
      (p q : Slot A → Bool) (table : List (Slot A)) (is : List ℕ)
      → ((i : ℕ) → p (slot_at table i) ≡ q (slot_at table i))
      → first p table is ≡ first q table is
  unfolding first
  first_congr p q table [] h = refl
  first_congr p q table (i ∷ is) h = rw (h i, first_congr p q table is h) refl

  entries-free_slots : (n : ℕ) → entries (free_slots {A = A} n) ≡ []
  entries-free_slots zero = refl
  entries-free_slots (suc n) = entries-free_slots n

  pub tally-le : (table : List (Slot A)) → tally is_entry table ≤ tally is_taken table
  unfolding tally
  tally-le [] = omega arith
  tally-le (free ∷ table) = omega (arith, tally-le table)
  tally-le (removed ∷ table) = omega (arith, tally-le table)
  tally-le (entry x ∷ table) = omega (arith, tally-le table)

module _ {ℓ} {A : Type ℓ} ⦃key : Key A⦄ where
  -- No element occurs twice.
  abbrev pub Distinct : List A → Type 0
  Distinct [] = Unit
  Distinct (x ∷ xs) = (member x xs ≡ false) × Distinct xs

  entries_once :
      (table : List (Slot A))
      → ((i j : ℕ) (x : A) → slot_at table i ≡ entry x → slot_at table j ≡ entry x → i ≡ j)
      → Distinct (entries table)
  entries_once [] once = tt
  entries_once (free ∷ table) once =
      entries_once table (λ i j x e f. omega (arith, once (suc i) (suc j) x e f))
  entries_once (removed ∷ table) once =
      entries_once table (λ i j x e f. omega (arith, once (suc i) (suc j) x e f))
  entries_once (entry y ∷ table) once = (
    elim (Bool-cases (member y (entries table))) [
      | inl e ↦
          let (j, at) = slot-member y table e in absurd (omega (arith, once 0 (suc j) y refl at))
      | inr e ↦ e
    ],
    entries_once table (λ i j x e f. omega (arith, once (suc i) (suc j) x e f)),
  )

  pub entries-Distinct : (s : Inner A) → IsGood s → Distinct (entries s.table)
  entries-Distinct s good =
      entries_once s.table (λ i j x e f. some_lem i j _ (good.sound i x e) (good.sound j x f))

  -- For an element that the table does not hold, the clean search ends where `look_entry` does.
  free_table-look_table :
      (table : List (Slot A)) (mask : ℕ) (x : A)
      → member x (entries table) ≡ false
      → free_table table mask x ≡ look_table table mask x
  free_table-look_table table mask x absent =
      free_table-first table mask x
      ∙ first_congr is_free (stops x) table (probes mask (key.hash x))
          (λ i. same (slot_at table i) i refl)
      ∙ sym (look_table-first table mask x)
    where
      same : (r : Slot A) (i : ℕ) → slot_at table i ≡ r → is_free r ≡ stops x r
      same free i e = refl
      same removed i e = refl
      same (entry y) i e = elim (Bool-cases (key.equal y x)) [
        | inl p ↦
            absurd
              (ground (arith, absent, member-slot x table i (e ∙ ap entry (key.equal_sound y x p))))
        | inr p ↦ sym p
      ]

  pub Holds-congr : (f g : A → Bool) (s : Inner A) → ((y : A) → f y ≡ g y) → Holds f s → Holds g s
  Holds-congr f g s e h = record { good = h.good; members = λ y. h.members y ∙ e y }

  -- At most two thirds of the slots are in use, of eight at least: what holds between calls.
  abbrev pub IsLoaded : Inner A → Type 0
  IsLoaded s = (s.fill * 3 < (s.mask + 1) * 2) × (7 ≤ s.mask)

  module _ (plain : Plain A) where
    insert_entry_clean-Holds :
        (f : A → Bool) (s : Inner A) (x : A)
        → Holds f s
        → f x ≡ false
        → s.fill + 1 ≤ s.mask
        → Gives
            (insert_entry_clean s x)
            λ t. Holds (λ y. key.equal x y || f y) t × (t.mask ≡ s.mask) × (t.fill ≡ s.fill + 1)
    unfolding insert_entry_clean
    insert_entry_clean-Holds f s x h absent room =
        let (j, found, below, at) = look-IsGood s x plain h.good in
        let here = free_table-look_table s.table s.mask x (h.members x ∙ absent) ∙ found in
        let empty : slot_at s.table j ≡ free = elim at [
          | inl e ↦ e
          | inr e ↦ absurd (ground (arith, absent, h.members x, member-slot x s.table j e))
        ] in
        (
          record s { table = put_slot s.table j (entry x); fill = s.fill + 1; used = s.used + 1 },
          rw here refl,
          (
            record {
              good = insert-IsGood s h.good x j below found empty room;
              members = λ y.
                  member-put_entry s.table j x y below empty
                  ∙ ap (λ b. key.equal x y || b) (h.members y);
            },
            refl,
            refl,
          ),
        )

    pub insert_all_clean-Holds :
        (f : A → Bool) (s : Inner A) (xs : List A)
        → Holds f s
        → Distinct xs
        → ((x : A) → member x xs ≡ true → f x ≡ false)
        → s.fill + length xs ≤ s.mask
        → Gives (insert_all_clean s xs) λ t.
          Holds (λ y. member y xs || f y) t × (t.mask ≡ s.mask) × (t.fill ≡ s.fill + length xs)
    unfolding insert_all_clean member
    insert_all_clean-Holds f s [] h d apart room = (s, refl, (h, refl, omega arith))
    insert_all_clean-Holds f s (x ∷ xs) h d apart room =
        let (t, run, (holds, mask, fill)) =
          insert_entry_clean-Holds f s x h (apart x (rw key.equal_refl refl))
            (omega (arith, room)) in
        let others : (z : A) → member z xs ≡ true → (key.equal x z || f z) ≡ false = λ z m.
          elim (Bool-cases (key.equal x z)) [
            | inl e ↦
                let same = ap (λ y. member y xs) (key.equal_sound x z e) in
                absurd (ground (arith, same, m, d.0))
            | inr e ↦ rw e (apart z (rw (e, m) refl))
          ] in
        let (u, runs, (all, masks, fills)) =
          insert_all_clean-Holds (λ y. key.equal x y || f y) t xs holds d.1 others
            (omega (arith, room, mask, fill)) in
        (
          u,
          rw run runs,
          (Holds-congr _ _ u (λ y. ground arith) all, masks ∙ mask, omega (arith, fills, fill)),
        )

    pub cleared :
        (s : Inner A) (b : ℕ)
        → Holds
            (λ _. false)
            (record s { table = free_slots (2 ^ b); fill = 0; mask = 2 ^ b - 1; used = 0 })
    unfolding member
    cleared s b = record {
      good = record {
        order = b;
        size = refl;
        slots = length-free_slots A (2 ^ b);
        filled = tally-free_slots is_taken refl (2 ^ b);
        counted = tally-free_slots is_entry refl (2 ^ b);
        room = omega arith;
        sound = λ j x e. absurd (ground (arith, e, slot_at-free_slots {A = A} (2 ^ b) j));
      };
      members = λ y. ap (member y) (entries-free_slots (2 ^ b));
    }

    -- A rebuilt table has the same elements, and no slot of it was removed.
    pub resize-Holds :
        (f : A → Bool) (s : Inner A) (min_used : ℕ)
        → Holds f s
        → s.used ≤ min_used
        → Gives
            (resize s min_used)
            λ t. Holds f t × (min_used ≤ t.mask) × (7 ≤ t.mask) × (t.fill ≡ s.used)
    unfolding resize
    resize-Holds f s min_used h room =
        let (b, run, above, more) =
          double_size-lt (min_used + 1) 3 min_used (omega arith) (omega arith) in
        let start = cleared s b in
        let many = length-entries s.table ∙ h.good.counted in
        let (t, runs, (holds, mask, fill)) =
          insert_all_clean-Holds (λ _. false) _ (entries s.table) start (entries-Distinct s h.good)
            (λ _ _. refl) (omega (arith, many, room, above)) in
        (
          t,
          rw run runs,
          (
            Holds-congr _ f t (λ y. ground (arith, h.members y)) holds,
            omega (arith, mask, above),
            omega (arith, mask, more),
            omega (arith, fill, many),
          ),
        )

    pub grow-Holds :
        (f : A → Bool) (s : Inner A) → Holds f s → Gives (grow s) λ t. Holds f t × IsLoaded t
    unfolding grow
    grow-Holds f s h =
        let n = if ltb 50000 s.used then s.used * 2 else s.used * 4 in
        let twice : s.used * 2 ≤ n = ground arith in
        let (t, run, (holds, mask, seven, fill)) = resize-Holds f s n h (omega (arith, twice)) in
        (t, run, (holds, (omega (arith, mask, twice, fill, seven), seven)))
