-- ===== src/Upgrade/Schedule/Spacing.antt =====
-- What a schedule that `isScheduleValid` (indy_node/server/upgrader.py) accepts has of its times.
use indy_node.Base.{
  ℕ, ◌+◌, ◌*◌, ◌≤◌, ◌≡◌, ◌↔◌, ◌⊎◌, refl, subst, true, false, List, [], ◌∷◌, arith, Bool-cases, inl,
  inr, leb,
}
use indy_node.Upgrade.Schedule.{schedule_valid, insert_time, sorted, check_spacing}

-- Two times are so many microseconds apart.
abbrev pub IsApart : ℕ → ℕ → ℕ → Type 0
IsApart gap t u = (t + gap ≤ u) ⊎ (u + gap ≤ t)

abbrev pub ApartFrom : ℕ → ℕ → List ℕ → Type 0
ApartFrom gap t [] = Unit
ApartFrom gap t (u ∷ ts) = IsApart gap t u × ApartFrom gap t ts

-- Any two times of the list are apart.
abbrev pub Spaced : ℕ → List ℕ → Type 0
Spaced gap [] = Unit
Spaced gap (t ∷ ts) = ApartFrom gap t ts × Spaced gap ts

ApartFrom-insert :
    (gap t u : ℕ) (ts : List ℕ)
    → IsApart gap t u
    → ApartFrom gap t ts
    → ApartFrom gap t (insert_time u ts)
unfolding insert_time
ApartFrom-insert gap t u [] a h = (a, tt)
ApartFrom-insert gap t u (v ∷ ts) a h = elim (Bool-cases (leb u v)) [
  | inl e ↦ rw e (a, h)
  | inr e ↦ rw e (h.0, ApartFrom-insert gap t u ts a h.1)
]

insert-here : (u v : ℕ) (ts : List ℕ) → leb u v ≡ true → insert_time u (v ∷ ts) ≡ (u ∷ v ∷ ts)
unfolding insert_time
insert-here u v ts e = rw e refl

insert-there :
    (u v : ℕ) (ts : List ℕ) → leb u v ≡ false → insert_time u (v ∷ ts) ≡ (v ∷ insert_time u ts)
unfolding insert_time
insert-there u v ts e = rw e refl

insert-ApartFrom :
    (gap t u : ℕ) (ts : List ℕ)
    → ApartFrom gap t (insert_time u ts)
    → IsApart gap t u × ApartFrom gap t ts
unfolding insert_time
insert-ApartFrom gap t u [] h = h
insert-ApartFrom gap t u (v ∷ ts) h = elim (Bool-cases (leb u v)) [
  | inl e ↦ subst (ApartFrom gap t) (insert-here u v ts e) h
  | inr e ↦
      let k = subst (ApartFrom gap t) (insert-there u v ts e) h in
      let rest = insert-ApartFrom gap t u ts k.1 in (rest.0, (k.0, rest.1))
]

IsApart-sym : (gap t u : ℕ) → IsApart gap t u → IsApart gap u t
IsApart-sym gap t u (inl h) = inr h
IsApart-sym gap t u (inr h) = inl h

Spaced-insert :
    (gap u : ℕ) (ts : List ℕ) → ApartFrom gap u ts → Spaced gap ts → Spaced gap (insert_time u ts)
unfolding insert_time
Spaced-insert gap u [] a s = (tt, tt)
Spaced-insert gap u (v ∷ ts) a s = elim (Bool-cases (leb u v)) [
  | inl e ↦ rw e (a, s)
  | inr e ↦
      rw e
        (ApartFrom-insert gap v u ts (IsApart-sym gap u v a.0) s.0, Spaced-insert gap u ts a.1 s.1)
]

insert-Spaced :
    (gap u : ℕ) (ts : List ℕ) → Spaced gap (insert_time u ts) → ApartFrom gap u ts × Spaced gap ts
unfolding insert_time
insert-Spaced gap u [] h = h
insert-Spaced gap u (v ∷ ts) h = elim (Bool-cases (leb u v)) [
  | inl e ↦ subst (Spaced gap) (insert-here u v ts e) h
  | inr e ↦
      let k = subst (Spaced gap) (insert-there u v ts e) h in
      let a = insert-ApartFrom gap v u ts k.0 in
      let rest = insert-Spaced gap u ts k.1 in ((IsApart-sym gap v u a.0, rest.0), (a.1, rest.1))
]

ApartFrom-sorted : (gap t : ℕ) (ts : List ℕ) → ApartFrom gap t ts → ApartFrom gap t (sorted ts)
unfolding sorted
ApartFrom-sorted gap t [] h = tt
ApartFrom-sorted gap t (u ∷ ts) h =
    ApartFrom-insert gap t u (sorted ts) h.0 (ApartFrom-sorted gap t ts h.1)

Spaced-sorted : (gap : ℕ) (ts : List ℕ) → Spaced gap ts → Spaced gap (sorted ts)
unfolding sorted
Spaced-sorted gap [] h = tt
Spaced-sorted gap (t ∷ ts) h =
    Spaced-insert gap t (sorted ts) (ApartFrom-sorted gap t ts h.0) (Spaced-sorted gap ts h.1)

sorted-ApartFrom : (gap t : ℕ) (ts : List ℕ) → ApartFrom gap t (sorted ts) → ApartFrom gap t ts
unfolding sorted
sorted-ApartFrom gap t [] h = tt
sorted-ApartFrom gap t (u ∷ ts) h =
    let k = insert-ApartFrom gap t u (sorted ts) h in (k.0, sorted-ApartFrom gap t ts k.1)

sorted-Spaced : (gap : ℕ) (ts : List ℕ) → Spaced gap (sorted ts) → Spaced gap ts
unfolding sorted
sorted-Spaced gap [] h = tt
sorted-Spaced gap (t ∷ ts) h =
    let k = insert-Spaced gap t (sorted ts) h in
    (sorted-ApartFrom gap t ts k.0, sorted-Spaced gap ts k.1)

abbrev AtLeast : ℕ → List ℕ → Type 0
AtLeast t [] = Unit
AtLeast t (u ∷ ts) = (t ≤ u) × AtLeast t ts

abbrev IsSorted : List ℕ → Type 0
IsSorted [] = Unit
IsSorted (t ∷ ts) = AtLeast t ts × IsSorted ts

AtLeast-trans : (t u : ℕ) (ts : List ℕ) → t ≤ u → AtLeast u ts → AtLeast t ts
AtLeast-trans t u [] h a = tt
AtLeast-trans t u (v ∷ ts) h a = (omega (arith, h, a.0), AtLeast-trans t u ts h a.1)

AtLeast-insert : (t u : ℕ) (ts : List ℕ) → t ≤ u → AtLeast t ts → AtLeast t (insert_time u ts)
unfolding insert_time
AtLeast-insert t u [] h a = (h, tt)
AtLeast-insert t u (v ∷ ts) h a = elim (Bool-cases (leb u v)) [
  | inl e ↦ rw e (h, a)
  | inr e ↦ rw e (a.0, AtLeast-insert t u ts h a.1)
]

insert-IsSorted : (u : ℕ) (ts : List ℕ) → IsSorted ts → IsSorted (insert_time u ts)
unfolding insert_time
insert-IsSorted u [] s = (tt, tt)
insert-IsSorted u (v ∷ ts) s = elim (Bool-cases (leb u v)) [
  | inl e ↦ let below : u ≤ v = ground arith in rw e ((below, AtLeast-trans u v ts below s.0), s)
  | inr e ↦ rw e (AtLeast-insert v u ts (ground arith) s.0, insert-IsSorted u ts s.1)
]

sorted-IsSorted : (ts : List ℕ) → IsSorted (sorted ts)
unfolding sorted
sorted-IsSorted [] = tt
sorted-IsSorted (t ∷ ts) = insert-IsSorted t (sorted ts) (sorted-IsSorted ts)

AtLeast-ApartFrom : (gap t u : ℕ) (ts : List ℕ) → t + gap ≤ u → AtLeast u ts → ApartFrom gap t ts
AtLeast-ApartFrom gap t u [] h a = tt
AtLeast-ApartFrom gap t u (v ∷ ts) h a =
    (inl (omega (arith, h, a.0)), AtLeast-ApartFrom gap t u ts h a.1)

module _ (sep : ℕ) where
  abbrev gap : ℕ
  gap = sep * 1000000

  check-Spaced : (ts : List ℕ) → IsSorted ts → check_spacing sep ts ≡ schedule_valid → Spaced gap ts
  unfolding check_spacing
  check-Spaced [] s h = tt
  check-Spaced (t ∷ []) s h = (tt, tt)
  check-Spaced (t ∷ (u ∷ ts)) s h =
      let far : t + gap ≤ u = ground (arith, h, s.0.0) in
      (
        (inl far, AtLeast-ApartFrom gap t u ts far s.1.0),
        check-Spaced (u ∷ ts) s.1 (ground (arith, h)),
      )

  Spaced-check : (ts : List ℕ) → IsSorted ts → Spaced gap ts → check_spacing sep ts ≡ schedule_valid
  unfolding check_spacing
  Spaced-check [] s h = refl
  Spaced-check (t ∷ []) s h = refl
  Spaced-check (t ∷ (u ∷ ts)) s h = ground (arith, h.0.0, s.0.0, Spaced-check (u ∷ ts) s.1 h.1)

  -- The check of neighbours in the sorted list is the check of all pairs.
  pub check_spacing_iff :
      (ts : List ℕ) → (check_spacing sep (sorted ts) ≡ schedule_valid) ↔ Spaced gap ts
  check_spacing_iff ts = (
    λ h. sorted-Spaced gap ts (check-Spaced (sorted ts) (sorted-IsSorted ts) h),
    λ h. Spaced-check (sorted ts) (sorted-IsSorted ts) (Spaced-sorted gap ts h),
  )
