-- ===== src/Revocation/Strategy/Writes.antt =====
-- What `write` of indy_node/server/revocation_strategy.py leaves in the state.
use Prim.Native.String as Text
use Prim.Native.Char.{code}
use text.Mathlib.TextLemmas.{cons-append}
use indy_node.Base.{
  ℕ, String, ◌≡◌, ◌≢◌, refl, ap, Bool, true, false, Option, none, some, List, arith, put, get,
  get-put-put, other_eq, num_eq,
}
use indy_node.Revocation.Strategy.{
  RevocEntry, Strategy, Txn, Stored, State, write, changed_entry, set_to_state, prepare_for_state,
  make_state_path_for_revoc_reg_entry, make_state_path_for_revoc_reg_entry_accum, only_accum,
}

-- Whether a path begins with the marker of an entry.
begins_with_5 : String → Bool
begins_with_5 Text.[] = false
begins_with_5 (Text.◌∷◌ c s) = num_eq (code c) b'5'

entry_path : (id : String) → begins_with_5 (make_state_path_for_revoc_reg_entry id) ≡ true
unfolding begins_with_5 make_state_path_for_revoc_reg_entry
entry_path id = rw cons-append refl

accum_path : (id : String) → begins_with_5 (make_state_path_for_revoc_reg_entry_accum id) ≡ false
unfolding begins_with_5 make_state_path_for_revoc_reg_entry_accum
accum_path id = rw cons-append refl

paths_differ :
    (id : String)
    → make_state_path_for_revoc_reg_entry id ≢ make_state_path_for_revoc_reg_entry_accum id
paths_differ id e = cc (entry_path id, accum_path id, ap begins_with_5 e)

-- The four assertions of the write hold.
pub record IsComplete (txn : Txn) : Type 0 where
  pub author : txn.author_did ≢ ""
  pub id : txn.entry.revoc_reg_def_id ≢ ""
  pub numbered : txn.seq_no ≢ 0
  pub timed : txn.txn_time ≢ 0

id-changed_entry :
    (legacy : List ℕ → List ℕ → List ℕ → List ℕ) (b : Bool) (s : Strategy)
    (current : Option RevocEntry) (e : RevocEntry)
    → (changed_entry legacy b s current e).revoc_reg_def_id ≡ e.revoc_reg_def_id
unfolding changed_entry
id-changed_entry legacy b s none e = refl
id-changed_entry legacy b s (some c) e = refl

prepare-IsComplete :
    (txn : Txn) (e : RevocEntry)
    → e.revoc_reg_def_id ≡ txn.entry.revoc_reg_def_id
    → IsComplete txn
    → prepare_for_state (record txn { entry = e })
      ≡ some (record { entry = e; seq_no = txn.seq_no; txn_time = txn.txn_time })
unfolding prepare_for_state
prepare-IsComplete txn e same c = ground (
  arith,
  same,
  c.numbered,
  c.timed,
  other_eq txn.author_did "" c.author,
  other_eq txn.entry.revoc_reg_def_id "" c.id,
)

module _ (legacy : List ℕ → List ℕ → List ℕ → List ℕ) (sort_legacy : Bool) (strategy : Strategy)
    (state : State) (current : Option RevocEntry) (txn : Txn) where
  abbrev changed : RevocEntry
  changed = changed_entry legacy sort_legacy strategy current txn.entry

  abbrev stored : Stored
  stored = record { entry = changed; seq_no = txn.seq_no; txn_time = txn.txn_time }

  abbrev accum_only : Stored
  accum_only = record stored { entry = record changed { value = only_accum changed.value } }

  abbrev path : String
  path = make_state_path_for_revoc_reg_entry txn.entry.revoc_reg_def_id

  abbrev path_of_accum : String
  path_of_accum = make_state_path_for_revoc_reg_entry_accum txn.entry.revoc_reg_def_id

  abbrev written : State
  written = put path_of_accum accum_only (put path stored state)

  write-written :
      IsComplete txn → write legacy sort_legacy strategy state current txn ≡ some written
  unfolding write set_to_state
  write-written c =
      let same = id-changed_entry legacy sort_legacy strategy current txn.entry in
      rw (prepare-IsComplete txn changed same c, write, set_to_state) (rw same)

  -- A complete transaction is written: under the path of the entry stands the changed entry, under
  -- the path of the accumulator its accumulator alone, each with the transaction's number and time,
  -- and every other path keeps its value.
  pub write_lem :
      IsComplete txn
      → (after : State) × (write legacy sort_legacy strategy state current txn ≡ some after)
        × (get path after ≡ some stored)
        × (get path_of_accum after ≡ some accum_only)
        × ((k : String) → k ≢ path → k ≢ path_of_accum → get k after ≡ get k state)
  write_lem c =
      let (entry, accum, others) =
        get-put-put path path_of_accum stored accum_only state
          (paths_differ txn.entry.revoc_reg_def_id) in
      (written, write-written c, entry, accum, others)
