-- ===== src/CompatSet/Table/Steps.antt =====
-- What `contains_entry`, `insert_entry` and `discard_entry` return, and the table that they leave.
use indy_node.Base.{
  ℕ, ◌+◌, ◌<◌, ◌≤◌, Bool, true, false, not, ◌||◌, ◌&&◌, some, length, ◌≡◌, refl, sym, ap, ◌∙◌, ◌⊎◌,
  inl, inr, arith, Bool-cases, leb, if◌then◌else◌,
}
use indy_node.CompatSet.{Key, free, entry, Inner, slot_at, is_entry, look_table}
use indy_node.CompatSet.Table.{
  entries, Outcome, returns, raises, assertion_error, returned, ◌>>=◌, look_entry, contains_entry,
  insert_entry, insert_at, discard, discard_at,
}
use indy_node.CompatSet.Table.Good.{IsGood, Plain, look-IsGood, member, member-slot, slot-member}
use indy_node.CompatSet.Table.Change.{
  some_lem, insert-IsGood, member-put_entry, discard-IsGood, discard-member,
}

module _ {ℓ} {A : Type ℓ} ⦃key : Key A⦄ where
  -- `s` is a table in order, and `f` tells its elements.
  pub record Holds (f : A → Bool) (s : Inner A) : Type ℓ where
    pub good : IsGood s
    pub members : (y : A) → member y (entries s.table) ≡ f y

-- The call returns, with what satisfies `P`.
abbrev pub Gives {κ μ} : {B : Type κ} → Outcome B → (B → Type μ) → Type (κ ⊔ μ)
Gives {B = B} o P = (b : B) × (o ≡ returns b) × P b

module _ {ℓ} {A : Type ℓ} ⦃key : Key A⦄ (plain : Plain A) (f : A → Bool) (s : Inner A)
    (holds : Holds f s) (x : A) where
  look_entry-IsGood :
      (j : ℕ) × (look_entry s x ≡ returns j)
      × (look_table s.table s.mask x ≡ some j)
      × (j < length s.table)
      × (((slot_at s.table j ≡ free) × (f x ≡ false))
          ⊎ ((slot_at s.table j ≡ entry x) × (f x ≡ true)))
  unfolding look_entry
  look_entry-IsGood =
      let good = holds.good in
      let (j, found, below, at) = look-IsGood s x plain good in
      let asserted : leb s.fill s.mask ≡ true = ground (arith, good.room) in
      (
        j,
        ap (λ b. if b then returned (look_table s.table s.mask x) else raises assertion_error)
              asserted
            ∙ ap returned found,
        found,
        below,
        elim at [
          | inl e ↦ inl (e, absent j found e)
          | inr e ↦ inr (e, sym (holds.members x) ∙ member-slot x s.table j e)
        ],
      )
    where
      absent :
          (j : ℕ) → look_table s.table s.mask x ≡ some j → slot_at s.table j ≡ free → f x ≡ false
      absent j found e = elim (Bool-cases (f x)) [
        | inl p ↦
            let (k, at) = slot-member x s.table (holds.members x ∙ p) in
            let same = some_lem j k _ found (holds.good.sound k x at) in
            absurd (ground (arith, sym e ∙ ap (slot_at s.table) same ∙ at))
        | inr p ↦ p
      ]

  pub contains_entry-Holds : contains_entry s x ≡ returns (f x)
  unfolding contains_entry
  contains_entry-Holds =
      let (j, eq, found, below, at) = look_entry-IsGood in
      ap (λ o. o >>= λ i. returns (is_entry (slot_at s.table i))) eq ∙ elim at [
        | inl (e, p) ↦ ap (λ r. returns (is_entry r)) e ∙ ap returns (sym p)
        | inr (e, p) ↦ ap (λ r. returns (is_entry r)) e ∙ ap returns (sym p)
      ]

  pub insert_entry-Holds :
      s.fill + 1 ≤ s.mask
      → Gives (insert_entry s x) λ r.
        (r.0 ≡ not (f x))
        × Holds (λ y. key.equal x y || f y) r.1
        × (r.1.mask ≡ s.mask)
        × (r.1.fill ≡ (if f x then s.fill else s.fill + 1))
  unfolding insert_entry
  insert_entry-Holds room =
      let (j, eq, found, below, at) = look_entry-IsGood in
      let run = ap (λ o. o >>= λ i. returns (insert_at s x i (slot_at s.table i))) eq in
      elim at [
        | inl (e, p) ↦ (
          insert_at s x j free,
          run ∙ ap (λ r. returns (insert_at s x j r)) e,
          (
            ap not (sym p),
            record {
              good = insert-IsGood s holds.good x j below found e room;
              members = λ y.
                  member-put_entry s.table j x y below e
                  ∙ ap (λ b. key.equal x y || b) (holds.members y);
            },
            refl,
            rw p refl,
          ),
        )
        | inr (e, p) ↦ (
          (false, s),
          run ∙ ap (λ r. returns (insert_at s x j r)) e,
          (
            ap not (sym p),
            record { good = holds.good; members = λ y. holds.members y ∙ already y p },
            refl,
            rw p refl,
          ),
        )
      ]
    where
      already : (y : A) → f x ≡ true → f y ≡ (key.equal x y || f y)
      already y p = elim (Bool-cases (key.equal x y)) [
        | inl e ↦ rw e (ap f (sym (key.equal_sound x y e)) ∙ p)
        | inr e ↦ rw e refl
      ]

  pub discard-Holds : Gives (discard s x) λ r.
      (r.0 ≡ f x)
      × Holds (λ y. f y && not (key.equal x y)) r.1
      × (r.1.mask ≡ s.mask)
      × (r.1.fill ≡ s.fill)
  unfolding discard
  discard-Holds =
      let (j, eq, found, below, at) = look_entry-IsGood in
      let run = ap (λ o. o >>= λ i. returns (discard_at s i (slot_at s.table i))) eq in
      elim at [
        | inl (e, p) ↦ (
          (false, s),
          run ∙ ap (λ r. returns (discard_at s j r)) e,
          (
            sym p,
            record { good = holds.good; members = λ y. holds.members y ∙ never y p },
            refl,
            refl,
          ),
        )
        | inr (e, p) ↦ (
          discard_at s j (entry x),
          run ∙ ap (λ r. returns (discard_at s j r)) e,
          (
            sym p,
            record {
              good = discard-IsGood s holds.good x j below e;
              members = λ y.
                  discard-member s holds.good x j below e y
                  ∙ ap (λ b. b && not (key.equal x y)) (holds.members y);
            },
            refl,
            refl,
          ),
        )
      ]
    where
      never : (y : A) → f x ≡ false → f y ≡ (f y && not (key.equal x y))
      never y p = elim (Bool-cases (key.equal x y)) [
        | inl e ↦ rw e (ground (arith, ap f (key.equal_sound x y e), p))
        | inr e ↦ rw e (ground arith)
      ]
