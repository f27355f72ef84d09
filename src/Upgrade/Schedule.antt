-- ===== src/Upgrade/Schedule.antt =====
-- `isScheduleValid` of indy_node/server/upgrader.py. Times are counted in microseconds and the
-- separation in seconds, as in the config. `parse` is `dateutil.parser.parse`, `none` standing for
-- ValueError.
pub mod Spacing
pub mod Validity
use indy_node.Base.{
  ℕ, ◌-◌, ◌*◌, String, Option, none, some, Bool, true, false, not, ◌&&◌, ◌||◌, List, [], ◌∷◌, ltb,
  leb, if◌then◌else◌, ◌==◌,
}

pub data Schedule : Type 0 where
  schedule_valid : Schedule
  not_all_nodes : Schedule
  in_the_past : ℕ → Schedule
  unparsable : String → Schedule
  too_close : (diff : ℕ) → Schedule

abbrev pub mem : String → List String → Bool
mem k [] = false
mem k (j ∷ ks) = (j == k) || mem k ks

abbrev pub subset : List String → List String → Bool
subset [] ks = true
subset (j ∷ js) ks = mem j ks && subset js ks

-- `==` between two sets
abbrev pub same_set : List String → List String → Bool
same_set js ks = subset js ks && subset ks js

abbrev pub keys : List (String × String) → List String
keys [] = []
keys ((k, v) ∷ d) = k ∷ keys d

-- The ids with a non-empty list of services.
abbrev pub non_demoted_nodes : List (String × List String) → List String
non_demoted_nodes [] = []
non_demoted_nodes ((k, []) ∷ d) = non_demoted_nodes d
non_demoted_nodes ((k, s ∷ ss) ∷ d) = k ∷ non_demoted_nodes d

-- The list of times, or the reason why one is refused.
pub data Times : Type 0 where
  times : List ℕ → Times
  refused : Schedule → Times

abbrev pub cons_time : ℕ → Times → Times
cons_time t (times ts) = times (t ∷ ts)
cons_time t (refused r) = refused r

-- `sorted(times)`
unfoldable pub insert_time : ℕ → List ℕ → List ℕ
insert_time t [] = t ∷ []
insert_time t (u ∷ ts) = let rest = insert_time t ts in if leb t u then t ∷ u ∷ ts else u ∷ rest

unfoldable pub sorted : List ℕ → List ℕ
sorted [] = []
sorted (t ∷ ts) = insert_time t (sorted ts)

-- The loop over neighbours.
unfoldable pub check_spacing : (min_sep : ℕ) → List ℕ → Schedule
check_spacing min_sep [] = schedule_valid
check_spacing min_sep (t ∷ []) = schedule_valid
check_spacing min_sep (t ∷ (u ∷ ts)) =
    let rest = check_spacing min_sep (u ∷ ts) in
    if ltb (u - t) (min_sep * 1000000) then too_close (u - t) else rest

module _ (parse : String → Option ℕ) (min_sep now : ℕ) where
  -- The loop over `schedule.values()`.
  unfoldable pub parse_times : (force : Bool) → List (String × String) → Times
  parse_times force [] = times []
  parse_times force ((k, date) ∷ schedule) =
      let rest = parse_times force schedule in
      elim (parse date) [
        | none ↦ refused (unparsable date)
        | some when ↦
            if leb when now && not force then refused (in_the_past when) else cons_time when rest
      ]

  unfoldable pub check_times : (force : Bool) → Times → Schedule
  check_times force (refused r) = r
  check_times force (times ts) = if force then schedule_valid else check_spacing min_sep (sorted ts)

  -- `isScheduleValid`
  unfoldable pub is_schedule_valid :
      (schedule : List (String × String))
      → (node_srvs : List (String × List String)) → Bool
      → Schedule
  is_schedule_valid schedule node_srvs force =
      if not force && not (same_set (keys schedule) (non_demoted_nodes node_srvs))
      then not_all_nodes
      else check_times force (parse_times force schedule)
