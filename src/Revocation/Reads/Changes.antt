-- ===== src/Revocation/Reads/Changes.antt =====
-- What a client makes of the reply of get_revoc_reg_delta_handler.py.
use indy_node.Base.{ℕ, String, Option, none, some, Bool, true, false, not, ◌&&◌, ◌||◌}
use indy_node.Revocation.Sets.{elem}
use indy_node.Revocation.Strategy.{RevocEntry, Strategy, revoked_strategy, issued_strategy, Stored}
use indy_node.Revocation.Strategy.Status.{is_issued}
use indy_node.Revocation.Reads.{
  StateValue, Definition, DeltaRequest, Delta, entry_at, accum_at, if_given, earlier, make_delta,
}

-- The status of a registry with an entry or without one: the strategy names what it starts from.
abbrev pub status : Strategy → Option RevocEntry → ℕ → Bool
status revoked_strategy none i = true
status issued_strategy none i = false
status s (some e) i = is_issued s e i

-- What a client makes of the status at FROM.
abbrev pub replayed : Delta → (ℕ → Bool) → ℕ → Bool
replayed d old i = elem i d.issued || (not (elem i d.revoked) && old i)

module _ (past_root : ℕ → Option String) (stored_at : String → String → Option Stored)
    (proof_at : String → String → Option String)
    (definition_at : String → String → Option Definition) where
  abbrev entry_read : ℕ → String → StateValue
  entry_read = entry_at past_root stored_at proof_at definition_at

  abbrev accum_read : ℕ → String → StateValue
  accum_read = accum_at past_root stored_at proof_at definition_at

  -- The entry of a registry at the time FROM, where the state has it and its accumulator then.
  abbrev pub entry_from : DeltaRequest → Option RevocEntry
  entry_from r =
      earlier past_root stored_at proof_at definition_at
        (if_given past_root stored_at proof_at definition_at entry_read r.from r.revoc_reg_def_id)
        (if_given past_root stored_at proof_at definition_at accum_read r.from r.revoc_reg_def_id)

  abbrev entry_read_from : DeltaRequest → StateValue
  entry_read_from r =
      if_given past_root stored_at proof_at definition_at entry_read r.from r.revoc_reg_def_id

  abbrev made : DeltaRequest → ℕ → RevocEntry → Definition → Strategy → Delta
  made r time to d s =
      make_delta past_root stored_at proof_at definition_at r s d.revoc_type to (entry_read_from r)
        (if_given past_root stored_at proof_at definition_at accum_read r.from r.revoc_reg_def_id)
        (accum_read time r.revoc_reg_def_id)
