-- ===== src/CompatSet/Table.antt =====
-- The class `_CompatSetInner` of indy_common/compat_set.py. An operation that the source makes on
-- an object returns the object it leaves. `search` is `_search`, and so on.
pub mod Slots
pub mod Good
pub mod Change
pub mod Steps
pub mod Rebuild
pub mod Adds
pub mod Walk
pub mod Pop
use indy_node.Base.{
  ℕ, zero, suc, ◌+◌, ◌-◌, ◌*◌, Bool, true, false, not, ◌&&◌, ◌||◌, Option, none, some, List, [],
  ◌∷◌, leb, ltb, num_eq, if◌then◌else◌, length,
}
use Prim.Native.Nat.{◌/◌, bit_and}
use indy_node.CompatSet.{
  Key, Slot, free, removed, entry, Inner, empty, min_size, slot_at, put_slot, free_slots, is_entry,
  look_table, free_table,
}

pub data Error : Type 0 where
  key_error attribute_error type_error assertion_error : Error

-- A call returns, raises, or has not returned within the turns that its loop is given.
pub data Outcome {ℓ} (A : Type ℓ) : Type ℓ where
  returns : A → Outcome A
  raises : Error → Outcome A
  runs_on : Outcome A

infixl 5 ◌>>=◌
abbrev pub ◌>>=◌ {ℓ κ} : {A : Type ℓ} {B : Type κ} → Outcome A → (A → Outcome B) → Outcome B
returns a >>= f = f a
raises e >>= f = raises e
runs_on >>= f = runs_on

abbrev pub returned {ℓ} : {A : Type ℓ} → Option A → Outcome A
returned none = runs_on
returned (some a) = returns a

-- `while new_size <= min_used: new_size *= 2`
abbrev pub double_size : ℕ → ℕ → ℕ → Outcome ℕ
double_size zero size min_used = runs_on
double_size (suc n) size min_used =
    let rest = double_size n (size * 2) min_used in if leb size min_used then rest else returns size

module _ {ℓ} {A : Type ℓ} where
  -- The loop of `next`: the next position and the entry, or `None` past the last slot.
  abbrev pub next_loop : ℕ → List (Slot A) → ℕ → ℕ → ℕ × Option A
  next_loop zero table mask at = (at, none)
  next_loop (suc n) table mask at =
      let rest = next_loop n table mask (at + 1) in
      if ltb mask at
      then (at, none)
      else elim (slot_at table at) [ entry x ↦ (at + 1, some x) | _ ↦ rest ]

  -- `_CompatSetInner.next`
  unfoldable pub next : Inner A → ℕ → ℕ × Option A
  next s at = next_loop (s.mask + 2 - at) s.table s.mask at

  -- `__next__` until it raises `StopIteration`
  unfoldable pub iter_loop : ℕ → Inner A → ℕ → Outcome (List A)
  iter_loop zero s at = runs_on
  iter_loop (suc n) s at =
      let (later, found) = next s at in
      elim found [ none ↦ returns [] | some x ↦ do rest ← iter_loop n s later; returns (x ∷ rest) ]

  -- `list(s)`
  unfoldable pub iterate : Inner A → Outcome (List A)
  iterate s = iter_loop (s.mask + 2) s 0

  -- `for entry in table`, past the slots that hold none
  abbrev pub entries : List (Slot A) → List A
  entries [] = []
  entries (entry x ∷ table) = x ∷ entries table
  entries (free ∷ table) = entries table
  entries (removed ∷ table) = entries table

  -- The loop of `pop`: the index of an entry, from `i` on and round the table.
  abbrev pub pop_loop : ℕ → List (Slot A) → ℕ → ℕ → Outcome (ℕ × A)
  pop_loop zero table mask i = runs_on
  pop_loop (suc n) table mask i =
      let rest = pop_loop n table mask (if ltb mask (i + 1) then 0 else i + 1) in
      elim (slot_at table i) [ entry x ↦ returns (i, x) | _ ↦ rest ]

  unfoldable pub pop : Inner A → Outcome (A × Inner A)
  pop s = if num_eq s.used 0 then raises key_error else do
    (i, x) ← pop_loop (s.mask + 2) s.table s.mask (bit_and s.search s.mask)
    returns (x, record s { table = put_slot s.table i removed; used = s.used - 1; search = i + 1 })

module _ {ℓ} {A : Type ℓ} ⦃key : Key A⦄ where
  -- `look_entry`, with its assertion
  unfoldable pub look_entry : Inner A → A → Outcome ℕ
  look_entry s x =
      if leb s.fill s.mask then returned (look_table s.table s.mask x) else raises assertion_error

  unfoldable pub contains_entry : Inner A → A → Outcome Bool
  contains_entry s x = do index ← look_entry s x; returns (is_entry (slot_at s.table index))

  abbrev pub insert_at : Inner A → A → ℕ → Slot A → Bool × Inner A
  insert_at s x index free = (
    true,
    record s { table = put_slot s.table index (entry x); fill = s.fill + 1; used = s.used + 1 },
  )
  insert_at s x index removed =
      (true, record s { table = put_slot s.table index (entry x); used = s.used + 1 })
  insert_at s x index (entry y) = (false, s)

  unfoldable pub insert_entry : Inner A → A → Outcome (Bool × Inner A)
  insert_entry s x = do
    index ← look_entry s x
    returns (insert_at s x index (slot_at s.table index))

  unfoldable pub insert_entry_clean : Inner A → A → Outcome (Inner A)
  insert_entry_clean s x = do
    found ← returned (free_table s.table s.mask x)
    returns (record s {
      table = put_slot s.table found (entry x);
      fill = s.fill + 1;
      used = s.used + 1;
    })

  -- The loop `for entry in old_table: self.insert_entry_clean(entry)`
  unfoldable pub insert_all_clean : Inner A → List A → Outcome (Inner A)
  insert_all_clean s [] = returns s
  insert_all_clean s (x ∷ xs) = do t ← insert_entry_clean s x; insert_all_clean t xs

  unfoldable pub resize : Inner A → ℕ → Outcome (Inner A)
  resize s min_used = do
    new_size ← double_size (min_used + 1) min_size min_used
    insert_all_clean
        (record s { table = free_slots new_size; fill = 0; mask = new_size - 1; used = 0 })
        (entries s.table)

  unfoldable pub grow : Inner A → Outcome (Inner A)
  grow s = resize s (if ltb 50000 s.used then s.used * 2 else s.used * 4)

  -- `add`, `add_entry`
  unfoldable pub add : Inner A → A → Outcome (Inner A)
  add s x = do
    (inserted, t) ← insert_entry s x
    if inserted && leb ((t.mask + 1) * 2) (t.fill * 3) then grow t else returns t

  unfoldable pub add_all : Inner A → List A → Outcome (Inner A)
  add_all s [] = returns s
  add_all s (x ∷ xs) = do t ← add s x; add_all t xs

  abbrev pub discard_at : Inner A → ℕ → Slot A → Bool × Inner A
  discard_at s index (entry y) =
      (true, record s { table = put_slot s.table index removed; used = s.used - 1 })
  discard_at s index _ = (false, s)

  -- `discard`, `discard_entry`
  unfoldable pub discard : Inner A → A → Outcome (Bool × Inner A)
  discard s x = do index ← look_entry s x; returns (discard_at s index (slot_at s.table index))

  unfoldable pub discard_all : Inner A → List A → Outcome (Inner A)
  discard_all s [] = returns s
  discard_all s (x ∷ xs) = do (found, t) ← discard s x; discard_all t xs
