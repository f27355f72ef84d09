-- ===== src/CompatSet/Algebra.antt =====
-- The operations of `_CompatSetInner` with another collection.
pub mod Merge
pub mod Difference
pub mod Symmetric
use indy_node.Base.{
  ℕ, zero, suc, ◌+◌, ◌-◌, ◌*◌, Bool, true, false, not, ◌&&◌, ◌||◌, Option, none, some, List, [],
  ◌∷◌, leb, ltb, num_eq, if◌then◌else◌, length,
}
use Prim.Native.Nat.{◌/◌}
use indy_node.CompatSet.{Key, Slot, free, removed, entry, Inner, empty, slot_at}
use indy_node.CompatSet.Table.Good.{member}
use indy_node.CompatSet.Table.{
  Outcome, returns, raises, attribute_error, type_error, ◌>>=◌, iterate, entries, contains_entry,
  insert_entry, insert_all_clean, resize, grow, add, add_all, discard, discard_all,
}

-- The argument of an operation on a set: an iterable that gives elements, a Python `set` that has
-- them, another `CompatSet` or the same.
pub data Other {ℓ} (A : Type ℓ) : Type ℓ where
  iterable builtin_set : List A → Other A
  compat : Inner A → Other A
  itself : Other A

module _ {ℓ} {A : Type ℓ} where
  -- `for elem in other`
  abbrev pub listed : Inner A → Other A → Outcome (List A)
  listed s (iterable xs) = returns xs
  listed s (builtin_set xs) = returns xs
  listed s (compat o) = iterate o
  listed s itself = iterate s

  -- `len(other)`
  abbrev pub len_of : Inner A → Other A → ℕ
  len_of s (iterable xs) = length xs
  len_of s (builtin_set xs) = length xs
  len_of s (compat o) = o.used
  len_of s itself = s.used

  -- `isinstance(other, (CompatSet, set))`
  abbrev pub is_set : Other A → Bool
  is_set (iterable xs) = false
  is_set _ = true

module _ {ℓ} {A : Type ℓ} ⦃key : Key A⦄ where
  -- `elem in other`
  abbrev pub in_other : Inner A → Other A → A → Outcome Bool
  in_other s (iterable xs) x = returns (member x xs)
  in_other s (builtin_set xs) x = returns (member x xs)
  in_other s (compat o) x = contains_entry o x
  in_other s itself x = contains_entry s x

  -- The loop `for entry in other._table: self.insert_entry(entry)`
  unfoldable pub insert_all : Inner A → List A → Outcome (Inner A)
  insert_all s [] = returns s
  insert_all s (x ∷ xs) = do (inserted, t) ← insert_entry s x; insert_all t xs

  abbrev pub merge_into : Inner A → Inner A → Outcome (Inner A)
  merge_into s other =
      if num_eq s.fill 0 && (num_eq s.mask other.mask && num_eq other.fill other.used)
      then returns (record s { table = other.table; fill = other.fill; used = other.used })
      else if num_eq s.fill 0
      then insert_all_clean s (entries other.table)
      else insert_all s (entries other.table)

  -- `merge` of another object
  unfoldable pub merge : Inner A → Inner A → Outcome (Inner A)
  merge s other = if num_eq other.used 0 then returns s else do
    t ←
        if leb ((s.mask + 1) * 2) ((s.fill + other.used) * 3)
        then resize s ((s.used + other.used) * 2)
        else returns s
    merge_into t other

  unfoldable pub copy : Inner A → Outcome (Inner A)
  copy s = merge empty s

  unfoldable pub update : Inner A → Other A → Outcome (Inner A)
  update s (iterable xs) = add_all s xs
  update s (builtin_set xs) = add_all s xs
  update s (compat o) = merge s o
  update s itself = returns s

  -- The elements that pass the test are added to `res`.
  unfoldable pub keep : (A → Outcome Bool) → Inner A → List A → Outcome (Inner A)
  keep test res [] = returns res
  keep test res (x ∷ xs) = do
    passed ← test x
    next ← if passed then add res x else returns res
    keep test next xs

  -- `not (x in other)`
  abbrev pub absent_from : (A → Outcome Bool) → A → Outcome Bool
  absent_from test x = do found ← test x; returns (not found)

  unfoldable pub difference_update : Inner A → Other A → Outcome (Inner A)
  difference_update s itself = returns empty
  difference_update s other = do
    xs ← listed s other
    t ← discard_all s xs
    if leb t.mask ((t.fill - t.used) * 5) then grow t else returns t

  -- `other` as it is seen from another set than `s`
  abbrev pub seen_from : Inner A → Other A → Other A
  seen_from s itself = compat s
  seen_from s other = other

  unfoldable pub difference : Inner A → Other A → Outcome (Inner A)
  difference s other =
      if is_set other && leb (s.used / 4) (len_of s other)
      then iterate s >>= keep (absent_from (in_other s other)) empty
      else copy s >>= λ res. difference_update res (seen_from s other)

  -- The loop over the entries of the other set. Where that is the larger one, `self` has become a
  -- `CompatSet`, which has no `contains_entry`.
  abbrev pub intersect : Bool → Inner A → List A → Outcome (Inner A)
  intersect false s xs = keep (contains_entry s) empty xs
  intersect true s [] = returns empty
  intersect true s (x ∷ xs) = raises attribute_error

  -- For the set itself, `update` gets an object that is no iterable.
  unfoldable pub intersection : Inner A → Other A → Outcome (Inner A)
  intersection s itself = raises type_error
  intersection s (compat o) = iterate o >>= intersect (ltb s.used o.used) s
  intersection s (iterable xs) = keep (contains_entry s) empty xs
  intersection s (builtin_set xs) = keep (contains_entry s) empty xs

  -- `if not self.discard_entry(entry): self.add_entry(entry)`
  unfoldable pub toggle : Inner A → A → Outcome (Inner A)
  toggle s x = do (found, t) ← discard s x; if found then returns t else add t x

  unfoldable pub toggle_all : Inner A → List A → Outcome (Inner A)
  toggle_all s [] = returns s
  toggle_all s (x ∷ xs) = do t ← toggle s x; toggle_all t xs

  unfoldable pub symmetric_difference_update : Inner A → Other A → Outcome (Inner A)
  symmetric_difference_update s itself = returns empty
  symmetric_difference_update s other = do xs ← listed s other; toggle_all s xs

  -- The loop of `__eq__`, over `n` slots of `self`
  unfoldable pub eq_loop : Inner A → List (Slot A) → ℕ → ℕ → Outcome Bool
  eq_loop other table zero at = returns true
  eq_loop other table (suc n) at =
      let rest = eq_loop other table n (suc at) in
      elim (slot_at table at) [
        | entry x ↦ do found ← contains_entry other x; if found then rest else returns false
        | _ ↦ rest
      ]

  -- `__eq__` of two inner sets
  unfoldable pub inner_eq : Inner A → Inner A → Outcome Bool
  inner_eq s other =
      if num_eq other.used s.used then eq_loop other s.table s.used 0 else returns false
