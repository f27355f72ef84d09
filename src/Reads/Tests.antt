-- ===== src/Reads/Tests.antt =====
-- Reads of a ledger with one batch, and the theorems there.
use Prim.Native.String as Text
use indy_node.Base.{
  ℕ, String, Option, none, some, true, false, List, [], ◌∷◌, ltb, get, num_eq, if◌then◌else◌, ◌≡◌,
  ◌≢◌, ◌↔◌, refl, arith, Bool-cases, inl, inr, eq_iff,
}
use indy_node.Base.Json as Json
use indy_node.Domain.Definitions.{DomainState, DomainTxn, StateValue}
use indy_node.Domain.Attribute.{
  enc_attr, AttribOp, AttributeStore, passed, static_validation, typed_value, parse_attr_txn,
  update_attribute,
}
use indy_node.Domain.Paths.{make_state_path_for_attr}
use indy_node.Identity.Writes.{NymDetails}
use indy_node.Revocation.Handler.{use_legacy_sort}
use indy_node.Reads.{
  Ledger, result, both_versions, value_error, Version, both_given, lookup_version,
  timestamp_from_seq_no, get_nym_result,
}
use indy_node.Reads.Attribute.{get_attr_result}
use indy_node.Reads.Flags as Flags
use indy_node.Reads.Flags.{
  FlagState, FlagTxn, FlagOp, update_flag, make_state_path_for_flag, check_flag, get_flag_result,
  lookup_key,
}
use indy_node.Reads.Log.{StateLog, Keeps, last_at, read, read_root, lookup_version-log, Gives}
use indy_node.Reads.Written.{asking, get_attr_result-update}
use indy_node.Reads.Ordering.{compat_ordering, use_legacy_sort_at}
use indy_node.Reads.Errors.{BothWithZero, get_nym_result-errors}

program : Unit {0}
unfolding lookup_version timestamp_from_seq_no get_nym_result get_attr_result update_flag
    make_state_path_for_flag check_flag get_flag_result lookup_key use_legacy_sort_at
    use_legacy_sort static_validation typed_value parse_attr_txn update_attribute
    make_state_path_for_attr
program = tt

module _ {V : Type 0} (s : List (String × V)) where
  -- A batch at the time 10, with the transaction 3.
  abbrev one_batch : Ledger V
  one_batch = record {
    value_now = λ path. get path s;
    value_at = λ root path. get path s;
    proof_now = λ path. none;
    proof_at = λ root path. some "proof";
    past_root = λ t. if ltb t 10 then none else some "root";
    result_at = λ n. if num_eq n 3 then some (some 10) else none;
  }

  abbrev log : StateLog V
  log = (10, s) ∷ []

  past_read :
      (t : ℕ) (path : String)
      → read_root one_batch path (one_batch.past_root t) ≡ read path (last_at t log)
  past_read t path = elim (Bool-cases (ltb t 10)) [ inl e ↦ ground arith | inr e ↦ ground arith ]

  root_given : (t : ℕ) → one_batch.past_root t ≢ some ""
  root_given t e = absurd (ground (arith, e, eq_iff "root" ""))

  one_batch-Keeps : Keeps one_batch log
  one_batch-Keeps = record { now = λ path. refl; past = past_read; rooted = root_given }

abbrev numbers : List (String × ℕ)
numbers = ("k", 7) ∷ []

lookup_version-log_example :
    Gives {V = ℕ}
      (one_batch numbers)
      "k"
      true
      (lookup_version (one_batch numbers) "k" (some 3) none true)
      (some 7)
lookup_version-log_example =
    lookup_version-log (one_batch numbers) "k" true [] [] 10 numbers 10 (some 3) none
      (one_batch-Keeps numbers) tt (omega arith) (omega arith) (omega arith, refl)

abbrev digest : String → String
digest s = Text.◌∷◌ "#" s

abbrev parse : String → Option Json.Fields
parse s = none

abbrev dump : Json.Fields → String
dump fs = ""

abbrev secret : DomainTxn AttribOp
secret = record {
  from = "did";
  content = record { dest = "did"; raw = none; enc = some "secret"; hash = none };
  seq_no = 3;
  txn_time = 10;
}

secret_valid : static_validation parse dump digest secret.content ≡ passed
unfolding program
secret_valid = refl

secret_parsed :
    parse_attr_txn parse dump digest secret.content ≡ some (enc_attr, "secret", some "secret")
unfolding program
secret_parsed = refl

abbrev value_stored : StateValue
value_stored = record { val = Json.str "#secret"; lsn = 3; lut = 10 }

abbrev with_secret : DomainState × AttributeStore
with_secret = (("did:1:#secret", value_stored) ∷ [], ("#secret", "secret") ∷ [])

secret_stored : update_attribute parse dump digest [] [] secret ≡ some with_secret
unfolding program
secret_stored = refl

get_attr_result-update_example :
    (proof : Option String) × (get_attr_result digest
        (one_batch with_secret.0)
        with_secret.1
        (asking "did" enc_attr "secret")
        (record { timestamp = some 20; seq_no = none })
      ≡ result (some "secret") (some 3) (some 10) proof)
get_attr_result-update_example =
    get_attr_result-update parse dump digest [] [] secret (enc_attr, "secret", some "secret")
      with_secret (one_batch with_secret.0) [] [] 10 20 with_secret.1
      (record { timestamp = some 20; seq_no = none }) secret_valid secret_parsed secret_stored
      (one_batch-Keeps with_secret.0) tt (omega arith) (omega arith) refl (λ h v e. e)

abbrev new_order : FlagTxn
new_order = record { name = compat_ordering; flag_value = some "False"; seq_no = 3; txn_time = 10 }

nameless : check_flag (record { name = some (Json.str ""); flag_value = none }) ≡ Flags.no_name
unfolding program
nameless = refl

new_order_used : use_legacy_sort (some "False") true ≡ false
unfolding program
new_order_used = refl

abbrev no_nyms : List (String × NymDetails)
no_nyms = []

abbrev same_key : String → String
same_key k = k

abbrev zero_number : Version
zero_number = record { timestamp = some 5; seq_no = some 0 }

get_nym_result-errors_example :
    ((get_nym_result same_key (one_batch no_nyms) "did" zero_number ≡ both_versions)
      ↔ (both_given zero_number ≡ true))
    × ((get_nym_result same_key (one_batch no_nyms) "did" zero_number ≡ value_error)
        ↔ BothWithZero (some 5) (some 0))
get_nym_result-errors_example = get_nym_result-errors same_key (one_batch no_nyms) "did" zero_number
