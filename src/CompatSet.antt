-- ===== src/CompatSet.antt =====
-- The set of indy_common/compat_set.py: the open addressing of CPython 3.5 in Python, which keeps
-- the order of its iteration. Here its table and how a slot is looked for; the children hold the
-- rest.
pub mod Orbit
pub mod Path
pub mod Reach
pub mod Bound
pub mod Diverge
pub mod Ints
pub mod Contract
mod Tests
pub mod Table
pub mod Algebra
pub mod Wrapper
use Prim.Native.Nat.{◌/◌, bit_and}
use indy_node.Base.{
  ℕ, zero, suc, ◌+◌, ◌-◌, ◌*◌, Bool, true, false, Option, none, some, List, [], ◌∷◌, is_none, leb,
  if◌then◌else◌, ◌≡◌,
}

-- A hash is an `int`: `pos n` is `n` and `negsuc n` is `-n - 1`.
pub data ℤ : Type 0 where
  pos negsuc : ℕ → ℤ

-- `__eq__` and `__hash__` of the elements, where equal elements are the same value.
pub record Key {ℓ} (A : Type ℓ) : Type ℓ where
  pub equal : A → A → Bool
  pub hash : A → ℤ
  pub equal_sound : (x y : A) → equal x y ≡ true → x ≡ y
  pub equal_refl : (x : A) → equal x x ≡ true

abbrev pub min_size : ℕ
min_size = 8

abbrev pub linear_probes : ℕ
linear_probes = 9

-- `hash & mask`
abbrev pub masked : ℤ → ℕ → ℕ
masked (pos n) mask = bit_and n mask
masked (negsuc n) mask = mask - bit_and n mask

-- `perturb >> PERTURB_SHIFT`, rounded down
abbrev pub shift : ℤ → ℤ
shift (pos n) = pos (n / 32)
shift (negsuc n) = negsuc (n / 32)

-- `n + perturb`
abbrev pub plus : ℕ → ℤ → ℤ
plus n (pos p) = pos (n + p)
plus n (negsuc p) = if leb (suc p) n then pos (n - suc p) else negsuc (p - n)

-- `(i * 5 + 1 + perturb) & mask`
abbrev pub next_index : ℕ → ℕ → ℤ → ℕ
next_index mask i perturb = masked (plus (i * 5 + 1) perturb) mask

-- A slot of the table is `None`, `REMOVED` or an entry. An entry stands for its element: the hash
-- beside it is always that of the element.
pub data Slot {ℓ} (A : Type ℓ) : Type ℓ where
  free removed : Slot A
  entry : A → Slot A

pub record Inner {ℓ} (A : Type ℓ) : Type ℓ where
  pub fill : ℕ
  pub mask : ℕ
  pub search : ℕ
  pub table : List (Slot A)
  pub used : ℕ

module _ {ℓ} {A : Type ℓ} where
  -- `table[i]`; no index that is read lies past the end, where this is `free`
  abbrev pub slot_at : List (Slot A) → ℕ → Slot A
  slot_at [] i = free
  slot_at (s ∷ table) zero = s
  slot_at (s ∷ table) (suc i) = slot_at table i

  -- `table[i] = s`
  abbrev pub put_slot : List (Slot A) → ℕ → Slot A → List (Slot A)
  put_slot [] i s = []
  put_slot (r ∷ table) zero s = s ∷ table
  put_slot (r ∷ table) (suc i) s = r ∷ put_slot table i s

  -- `[None] * n`
  abbrev pub free_slots : ℕ → List (Slot A)
  free_slots zero = []
  free_slots (suc n) = free ∷ free_slots n

  -- `_CompatSetInner()`
  abbrev pub empty : Inner A
  empty = record {
    fill = 0;
    mask = min_size - 1;
    search = 0;
    table = free_slots min_size;
    used = 0;
  }

  -- `found is not None and found is not REMOVED`
  abbrev pub is_entry : Slot A → Bool
  is_entry (entry x) = true
  is_entry _ = false

-- `range(i, i + n)`
abbrev pub range : ℕ → ℕ → List ℕ
range i zero = []
range i (suc n) = i ∷ range (suc i) n

-- The slots that one turn of the loop looks at: `i`, and its followers where the table has them.
unfoldable pub turn : ℕ → ℕ → List ℕ
turn mask i = i ∷ (if leb (i + linear_probes) mask then range (i + 1) linear_probes else [])

-- A turn of `look_entry` returns an index or goes on with `free_idx`.
pub data Seen : Type 0 where
  hit : ℕ → Seen
  miss : Option ℕ → Seen

-- How often the loops can turn before the probes repeat.
unfoldable pub turns : ℕ → ℤ → ℕ
turns mask (pos n) = n + mask + 3
turns mask (negsuc n) = n + mask + 3

module _ {ℓ} {A : Type ℓ} where
  -- The first free slot of a turn, in `insert_entry_clean`
  unfoldable pub free_turn : List (Slot A) → List ℕ → Option ℕ
  free_turn table [] = none
  free_turn table (i ∷ is) =
      let rest = free_turn table is in elim (slot_at table i) [ free ↦ some i | _ ↦ rest ]

  unfoldable pub free_loop : ℕ → List (Slot A) → ℕ → ℕ → ℤ → Option ℕ
  free_loop zero table mask i perturb = none
  free_loop (suc n) table mask i perturb = elim (free_turn table (turn mask i)) [
    | some j ↦ some j
    | none ↦ free_loop n table mask (next_index mask i (shift perturb)) (shift perturb)
  ]

module _ {ℓ} {A : Type ℓ} ⦃key : Key A⦄ where
  -- One slot, at `i`. A slot that was removed is no entry, so it is equal to none.
  abbrev pub look_slot : Slot A → A → Option ℕ → ℕ → Seen
  look_slot free x free_idx i = hit (if is_none free_idx then i else i)
  look_slot removed x none i = miss (some i)
  look_slot removed x (some f) i = miss (some f)
  look_slot (entry y) x free_idx i = if key.equal y x then hit i else miss free_idx

  unfoldable pub look_turn : List (Slot A) → A → Option ℕ → List ℕ → Seen
  look_turn table x free_idx [] = miss free_idx
  look_turn table x free_idx (i ∷ is) = elim (look_slot (slot_at table i) x free_idx i) [
    | hit j ↦ hit j
    | miss f ↦ look_turn table x f is
  ]

  unfoldable pub look_loop : ℕ → List (Slot A) → ℕ → A → Option ℕ → ℕ → ℤ → Option ℕ
  look_loop zero table mask x free_idx i perturb = none
  look_loop (suc n) table mask x free_idx i perturb =
      elim (look_turn table x free_idx (turn mask i)) [
        | hit j ↦ some j
        | miss f ↦ look_loop n table mask x f (next_index mask i (shift perturb)) (shift perturb)
      ]

  -- The loop of `look_entry`
  unfoldable pub look_table : List (Slot A) → ℕ → A → Option ℕ
  look_table table mask x =
      let hash = key.hash x in look_loop (turns mask hash) table mask x none (masked hash mask) hash

  -- The loop of `insert_entry_clean`
  unfoldable pub free_table : List (Slot A) → ℕ → A → Option ℕ
  free_table table mask x =
      let hash = key.hash x in free_loop (turns mask hash) table mask (masked hash mask) hash
