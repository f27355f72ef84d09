-- ===== src/Auth/Role.antt =====
-- Roles and transaction types: indy_common/roles.py, indy_common/transactions.py and
-- indy_common/constants.py. The codes of TRUSTEE, STEWARD, NODE and NYM and of the transactions
-- for the author agreement and the frozen ledgers are those that docs/source lists.
use indy_node.Base.{
  String, Option, none, some, List, [], ◌∷◌, Bool, ◌||◌, opt_eq, ◌==◌, if◌then◌else◌,
}

abbrev pub trustee : String
trustee = "0"

abbrev pub steward : String
steward = "2"

abbrev pub endorser : String
endorser = "101"

abbrev pub network_monitor : String
network_monitor = "201"

-- `IDENTITY_OWNER = None`
abbrev pub identity_owner : Option String
identity_owner = none

abbrev pub accepted_roles : List (Option String)
accepted_roles =
    identity_owner
    ∷ some network_monitor
    ∷ some endorser
    ∷ some steward
    ∷ some trustee
    ∷ some "*"
    ∷ []

abbrev pub member : Option String → List (Option String) → Bool
member r [] = Bool.false
member r (s ∷ l) = opt_eq r s || member r l

-- `get_named_role`, with `Roles.nameFromValue`
unfoldable pub get_named_role : Option String → String
get_named_role none = "None role"
get_named_role (some code) =
    if code == ""
    then "None role"
    else if code == trustee
    then "TRUSTEE"
    else if code == steward
    then "STEWARD"
    else if code == endorser
    then "ENDORSER"
    else if code == network_monitor
    then "NETWORK_MONITOR"
    else "Unknown role"
