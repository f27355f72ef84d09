-- ===== src/CompatSet/Wrapper.antt =====
-- The class `CompatSet` of indy_common/compat_set.py, around `_CompatSetInner`. The operators `&`,
-- `|`, `-` and `^` and their in-place forms call these.
pub mod Compare
pub mod Equality
use indy_node.Base.{
  ℕ, ◌+◌, Bool, true, false, not, ◌&&◌, Option, none, some, List, [], ◌∷◌, ltb, num_eq,
  if◌then◌else◌,
}
use indy_node.CompatSet.{Key, Inner, empty}
use indy_node.CompatSet.Table.{
  Outcome, returns, raises, key_error, ◌>>=◌, iterate, contains_entry, discard,
}
use indy_node.CompatSet.Algebra.{
  Other, iterable, builtin_set, compat, itself, listed, len_of, in_other, absent_from, seen_from,
  copy, update, difference, difference_update, intersection, symmetric_difference_update, inner_eq,
}

module _ {ℓ} {A : Type ℓ} ⦃key : Key A⦄ where
  -- `CompatSet(elems)`
  unfoldable pub new : Option (Other A) → Outcome (Inner A)
  new none = returns empty
  new (some elems) = update empty elems

  -- `remove`
  unfoldable pub remove : Inner A → A → Outcome (Inner A)
  remove s x = do (found, t) ← discard s x; if found then returns t else raises key_error

  -- `update(*others)`
  unfoldable pub update_each : Inner A → List (Other A) → Outcome (Inner A)
  update_each s [] = returns s
  update_each s (other ∷ others) = do t ← update s other; update_each t others

  -- `union(*others)`
  unfoldable pub union : Inner A → List (Other A) → Outcome (Inner A)
  union s others = do inner ← copy s; go inner others
    where
      go : Inner A → List (Other A) → Outcome (Inner A)
      go inner [] = returns inner
      go inner (other ∷ others) = do t ← update inner (seen_from s other); go t others

  -- `difference(*others)`
  unfoldable pub difference_each : Inner A → List (Other A) → Outcome (Inner A)
  difference_each s [] = copy s
  difference_each s (other ∷ others) = do inner ← difference s other; go inner others
    where
      go : Inner A → List (Other A) → Outcome (Inner A)
      go inner [] = returns inner
      go inner (other ∷ others) = do t ← difference_update inner (seen_from s other); go t others

  -- `intersection(*others)`
  unfoldable pub intersection_each : Inner A → List (Other A) → Outcome (Inner A)
  intersection_each s [] = copy s
  intersection_each s (other ∷ others) = do inner ← intersection s other; go inner others
    where
      go : Inner A → List (Other A) → Outcome (Inner A)
      go inner [] = returns inner
      go inner (other ∷ others) = do t ← intersection inner (seen_from s other); go t others

  -- `symmetric_difference(other)`
  unfoldable pub symmetric_difference : Inner A → Other A → Outcome (Inner A)
  symmetric_difference s other = do
    inner ← update empty (seen_from s other)
    symmetric_difference_update inner (compat s)

  -- `all(test(elem) for elem in xs)`
  unfoldable pub all_pass : (A → Outcome Bool) → List A → Outcome Bool
  all_pass test [] = returns true
  all_pass test (x ∷ xs) = do passed ← test x; if passed then all_pass test xs else returns false

  unfoldable pub is_subset : Inner A → Other A → Outcome Bool
  is_subset s other = do xs ← iterate s; all_pass (in_other s other) xs

  unfoldable pub is_superset : Inner A → Other A → Outcome Bool
  is_superset s other = do xs ← listed s other; all_pass (contains_entry s) xs

  -- `isdisjoint`, which goes through the larger of the two sets
  unfoldable pub is_disjoint : Inner A → Other A → Outcome Bool
  is_disjoint s other =
      if ltb (len_of s other) s.used
      then iterate s >>= all_pass (absent_from (in_other s other))
      else listed s other >>= all_pass (absent_from (contains_entry s))

  -- `__eq__`
  unfoldable pub set_eq : Inner A → Other A → Outcome Bool
  set_eq s (iterable xs) = returns false
  set_eq s (builtin_set xs) =
      if num_eq (len_of s (builtin_set xs)) s.used
      then is_subset s (builtin_set xs)
      else returns false
  set_eq s (compat o) = inner_eq o s
  set_eq s itself = inner_eq s s
