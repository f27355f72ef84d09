-- ===== src/Upgrade/Schedule/Validity.antt =====
-- `isScheduleValid` of indy_node/server/upgrader.py against what makes a schedule valid.
use indy_node.Base.{
  ℕ, ◌*◌, ◌≡◌, ◌≢◌, ◌↔◌, refl, String, Option, some, Bool, true, false, not, ◌&&◌, List, [], ◌∷◌,
  arith, Bool-cases, Option-cases, inl, inr, leb,
}
use indy_node.Upgrade.Schedule.{
  schedule_valid, Times, times, refused, cons_time, parse_times, check_times, is_schedule_valid,
  same_set, keys, non_demoted_nodes,
}
use indy_node.Upgrade.Schedule.Spacing.{Spaced, check_spacing_iff}

module _ (parse : String → Option ℕ) (min_sep now : ℕ) where
  -- Every date of the schedule is read as the time beside it, which is in the future unless forced.
  abbrev pub Reads : Bool → List (String × String) → List ℕ → Type 0
  Reads force [] [] = Unit
  Reads force ((k, date) ∷ schedule) (t ∷ ts) =
      (parse date ≡ some t) × ((leb t now && not force) ≡ false) × Reads force schedule ts
  Reads force _ _ = ⊥

  abbrev Good : Bool → List (String × String) → Times → Type 0
  Good force schedule (times ts) = Reads force schedule ts
  Good force schedule (refused r) = r ≢ schedule_valid

  cons-Good :
      (force : Bool) (k date : String) (schedule : List (String × String)) (t : ℕ) (o : Times)
      → parse date ≡ some t
      → (leb t now && not force) ≡ false
      → Good force schedule o
      → Good force ((k, date) ∷ schedule) (cons_time t o)
  cons-Good force k date schedule t (times ts) e f g = (e, f, g)
  cons-Good force k date schedule t (refused r) e f g = g

  parse-Good :
      (force : Bool) (schedule : List (String × String))
      → Good force schedule (parse_times parse min_sep now force schedule)
  unfolding parse_times
  parse-Good force [] = tt
  parse-Good force ((k, date) ∷ schedule) = elim (Option-cases (parse date)) [
    | inl e ↦ rw (e, parse_times) (λ h. ground (arith, h))
    | inr (t, e) ↦ elim (Bool-cases (leb t now && not force)) [
      | inl f ↦ rw (e, parse_times) (rw f (λ h. ground (arith, h)))
      | inr f ↦
          rw (e, parse_times)
            (rw f (cons-Good force k date schedule t _ e f (parse-Good force schedule)))
    ]
  ]

  Reads-parse :
      (force : Bool) (schedule : List (String × String)) (ts : List ℕ)
      → Reads force schedule ts
      → parse_times parse min_sep now force schedule ≡ times ts
  unfolding parse_times
  Reads-parse force [] [] r = refl
  Reads-parse force [] (t ∷ ts) r = absurd r
  Reads-parse force ((k, date) ∷ schedule) [] r = absurd r
  Reads-parse force ((k, date) ∷ schedule) (t ∷ ts) (e, f, r) =
      rw (e, parse_times) (rw f (rw (Reads-parse force schedule ts r) refl))

  -- The dates are read; and unless forced, the schedule names the nodes that have services and any
  -- two times are separated as the config asks.
  abbrev pub ValidSchedule : List (String × String) → List (String × List String) → Bool → Type 0
  ValidSchedule schedule node_srvs force =
      (ts : List ℕ) × Reads force schedule ts
      × (force ≡ false
          → (same_set (keys schedule) (non_demoted_nodes node_srvs) ≡ true)
            × Spaced (min_sep * 1000000) ts)

  check-Good :
      (force : Bool) (schedule : List (String × String)) (o : Times)
      → Good force schedule o
      → check_times parse min_sep now force o ≡ schedule_valid
      → (ts : List ℕ) × Reads force schedule ts × (force ≡ false → Spaced (min_sep * 1000000) ts)
  unfolding check_times
  check-Good force schedule (refused r) g h = absurd (g h)
  check-Good true schedule (times ts) g h = (ts, g, λ e. absurd (ground (arith, e)))
  check-Good false schedule (times ts) g h = (ts, g, λ e. (check_spacing_iff min_sep ts).0 h)

  valid-ValidSchedule :
      (schedule : List (String × String)) (node_srvs : List (String × List String)) (force : Bool)
      → is_schedule_valid parse min_sep now schedule node_srvs force ≡ schedule_valid
      → ValidSchedule schedule node_srvs force
  unfolding is_schedule_valid
  valid-ValidSchedule schedule node_srvs force h =
      let (ts, r, s) =
        check-Good force schedule _ (parse-Good force schedule) (ground (arith, h)) in
      (ts, r, λ e. (ground (arith, h, e), s e))

  check-valid :
      (force : Bool) (ts : List ℕ)
      → (force ≡ false → Spaced (min_sep * 1000000) ts)
      → check_times parse min_sep now force (times ts) ≡ schedule_valid
  unfolding check_times
  check-valid true ts h = refl
  check-valid false ts h = (check_spacing_iff min_sep ts).1 (h refl)

  ValidSchedule-valid :
      (schedule : List (String × String)) (node_srvs : List (String × List String)) (force : Bool)
      → ValidSchedule schedule node_srvs force
      → is_schedule_valid parse min_sep now schedule node_srvs force ≡ schedule_valid
  unfolding is_schedule_valid
  ValidSchedule-valid schedule node_srvs true (ts, r, h) =
      rw (Reads-parse true schedule ts r) (check-valid true ts (λ e. (h e).1))
  ValidSchedule-valid schedule node_srvs false (ts, r, h) =
      rw ((h refl).0) (rw (Reads-parse false schedule ts r) (check-valid false ts (λ e. (h e).1)))

  -- A schedule is valid exactly when its dates are read, and, unless it is forced, all are in the
  -- future, it names exactly the nodes that have services, and any two of its times are at least
  -- the configured separation apart.
  pub is_schedule_valid_iff :
      (schedule : List (String × String)) (node_srvs : List (String × List String)) (force : Bool)
      → (is_schedule_valid parse min_sep now schedule node_srvs force ≡ schedule_valid)
        ↔ ValidSchedule schedule node_srvs force
  is_schedule_valid_iff schedule node_srvs force =
      (valid-ValidSchedule schedule node_srvs force, ValidSchedule-valid schedule node_srvs force)
