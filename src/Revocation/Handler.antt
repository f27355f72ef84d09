-- ===== src/Revocation/Handler.antt =====
-- revoc_reg_entry_handler.py under indy_node/server/request_handlers/domain_req_handlers, and the
-- map of strategies of revoc_reg_def_handler.py. What the state holds of a definition is its
-- issuance type.
pub mod Guarded
use Prim.Native.String as Text
use Prim.Native.Char.{Char, code}
use indy_node.Base.{
  ℕ, ◌+◌, String, Option, none, some, Bool, true, false, ◌&&◌, ◌||◌, List, [], ◌∷◌, num_eq, ◌==◌,
  get, is_none, not, if◌then◌else◌,
}
use indy_node.Auth.Txn
use indy_node.Auth.Action.{Action, text, auth_action_add, auth_action_edit}
use indy_node.Auth.Request.{Request}
use indy_node.Auth.Validator.{Validation, authorised}
use indy_node.Revocation.Strategy.{
  RevocEntry, Strategy, revoked_strategy, issued_strategy, Check, valid, invalid, Invalid, State,
  Txn, make_state_path_for_revoc_reg_entry, validate, write,
}

-- `revocation_strategy_map.get`; `none` is `None`, whose call raises TypeError.
abbrev pub get_revocation_strategy : String → Option Strategy
get_revocation_strategy typ =
    if typ == "ISSUANCE_BY_DEFAULT"
    then some revoked_strategy
    else if typ == "ISSUANCE_ON_DEMAND"
    then some issued_strategy
    else none

-- One letter, in either case.
abbrev pub is_letter : ℕ → Char → Bool
is_letter lower c = num_eq (code c) lower || num_eq (code c + 32) lower

abbrev pub spells : List ℕ → String → Bool
spells [] Text.[] = true
spells [] (Text.◌∷◌ c s) = false
spells (l ∷ ls) Text.[] = false
spells (l ∷ ls) (Text.◌∷◌ c s) = is_letter l c && spells ls s

-- `use_legacy_sort`, of the value of the flag at the time of the transaction and the setting
unfoldable pub use_legacy_sort : (sort_state : Option String) (legacy_sort_config : Bool) → Bool
use_legacy_sort none legacy_sort_config = legacy_sort_config
use_legacy_sort (some s) legacy_sort_config =
    if spells (b'f' ∷ b'a' ∷ b'l' ∷ b's' ∷ b'e' ∷ []) s then false else legacy_sort_config

-- `rev_reg_tags.split(":", 1)[0]`
unfoldable pub author_of : String → String
author_of Text.[] = ""
author_of (Text.◌∷◌ c s) =
    let rest = author_of s in if num_eq (code c) b':' then "" else Text.◌∷◌ c rest

pub data EntryCheck : Type 0 where
  passed : EntryCheck
  denied : Validation → EntryCheck
  refused : Invalid → EntryCheck
  assertion_failed no_definition unknown_issuance : EntryCheck

abbrev pub current_entry : State → String → Option RevocEntry
current_entry state id = elim (get (make_state_path_for_revoc_reg_entry id) state) [
  | none ↦ none
  | some stored ↦ some (stored.entry)
]

unfoldable pub entry_action : (exists is_owner : Bool) → Action
entry_action true is_owner =
    auth_action_edit Txn.revoc_reg_entry (some (text "*")) (some (text "*")) (some (text "*"))
      is_owner
entry_action false is_owner =
    auth_action_add Txn.revoc_reg_entry (some (text "*")) (some (text "*")) is_owner

abbrev pub strategy_check : Option Strategy → Option RevocEntry → RevocEntry → EntryCheck
strategy_check none current entry = unknown_issuance
strategy_check (some s) current entry = elim (validate s current entry) [
  | valid ↦ passed
  | invalid reason ↦ refused reason
]

abbrev pub after_authorisation : Validation → EntryCheck → EntryCheck
after_authorisation authorised check = check
after_authorisation refusal check = denied refusal

-- `issuance_at` gives the issuance type of the definition under a path, where there is one.
module _ (issuance_at : String → Option String) where
  -- `additional_dynamic_validation`
  unfoldable pub validate_entry :
      (Request → List Action → Validation) → State → Request → RevocEntry → EntryCheck
  validate_entry authorise state request entry =
      let id = entry.revoc_reg_def_id in
      let current = current_entry state id in
      if id == "" then assertion_failed else elim (issuance_at id) [
        | none ↦ no_definition
        | some typ ↦
            after_authorisation
              (authorise request
                (entry_action (not (is_none current)) (author_of id == request.identifier) ∷ []))
              (strategy_check (get_revocation_strategy typ) current entry)
      ]

  abbrev pub write_with :
      (List ℕ → List ℕ → List ℕ → List ℕ) → Bool → State → Txn → Option Strategy → Option State
  write_with legacy sort_legacy state txn none = none
  write_with legacy sort_legacy state txn (some s) =
      write legacy sort_legacy s state (current_entry state txn.entry.revoc_reg_def_id) txn

  -- `update_state`; `none` is an exception. `sort_state` is the flag at the time of the
  -- transaction.
  unfoldable pub update_entry :
      (List ℕ → List ℕ → List ℕ → List ℕ) → Option String → Bool → State → Txn → Option State
  update_entry legacy sort_state legacy_sort_config state txn =
      if txn.entry.revoc_reg_def_id == ""
      then none
      else elim (issuance_at txn.entry.revoc_reg_def_id) [
        | none ↦ none
        | some typ ↦
            write_with legacy (use_legacy_sort sort_state legacy_sort_config) state txn
              (get_revocation_strategy typ)
      ]
