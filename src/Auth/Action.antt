-- ===== src/Auth/Action.antt =====
-- indy_common/authorize/auth_actions.py: an action and its id, five parts joined by "--".
pub mod RoundTrip
use Prim.Native.String as Text
use indy_node.Base.{String, Option, none, some, List, [], ◌∷◌, Bool}
use indy_node.Base.Split.{join, split}

pub record ActionDef : Type 0 where
  pub txn_type : String
  pub prefix : String
  pub field : String
  pub old_value : String
  pub new_value : String

abbrev pub add_prefix : String
add_prefix = "ADD"

abbrev pub edit_prefix : String
edit_prefix = "EDIT"

unfoldable pub compile_action_id : ActionDef → String
unfolding join
compile_action_id d = join (d.txn_type ∷ d.prefix ∷ d.field ∷ d.old_value ∷ d.new_value ∷ [])

-- `ActionDef(*parts)`: a number of parts other than five is a TypeError.
abbrev action_def : List String → Option ActionDef
action_def (t ∷ p ∷ f ∷ o ∷ n ∷ []) =
    some (record { txn_type = t; prefix = p; field = f; old_value = o; new_value = n })
action_def _ = none

unfoldable pub split_action_id : String → Option ActionDef
unfolding split
split_action_id action_id = action_def (split action_id)

-- A value that the constructors pass to `str`: a text, or the services of a node. The names of
-- services hold no quote and no backslash, so Python prints each between single quotes.
pub data Value : Type 0 where
  text : String → Value
  services : List String → Value

-- A value that is a text or `None`.
abbrev pub as_value : Option String → Option Value
as_value none = none
as_value (some s) = some (text s)

abbrev quoted : List String → String
quoted [] = ""
quoted (s ∷ []) = Text.◌++◌ "'" (Text.◌++◌ s "'")
quoted (s ∷ t ∷ r) = Text.◌++◌ "'" (Text.◌++◌ s (Text.◌++◌ "', " (quoted (t ∷ r))))

unfoldable pub str : Value → String
str (text s) = s
str (services l) = Text.◌++◌ "[" (Text.◌++◌ (quoted l) "]")

-- `str(v) if v is not None else ''`
unfoldable pub str_or_empty : Option Value → String
unfolding str
str_or_empty none = ""
str_or_empty (some v) = str v

pub data Action : Type 0 where
  add : (txn_type field value : String) (is_owner : Bool) → Action
  edit : (txn_type field old_value new_value : String) (is_owner : Bool) → Action

unfoldable pub auth_action_add : String → Option Value → Option Value → Bool → Action
unfolding str_or_empty
auth_action_add txn_type field value is_owner =
    add txn_type (str_or_empty field) (str_or_empty value) is_owner

unfoldable pub auth_action_edit :
    String → Option Value → Option Value → Option Value → Bool → Action
unfolding str_or_empty
auth_action_edit txn_type field old_value new_value is_owner =
    edit txn_type (str_or_empty field) (str_or_empty old_value) (str_or_empty new_value) is_owner

-- The parts that `get_action_id` hands to `compile_action_id`.
abbrev pub parts : Action → ActionDef
parts (add t f v _) = record {
  txn_type = t;
  prefix = add_prefix;
  field = f;
  old_value = "*";
  new_value = v;
}
parts (edit t f o n _) = record {
  txn_type = t;
  prefix = edit_prefix;
  field = f;
  old_value = o;
  new_value = n;
}

unfoldable pub get_action_id : Action → String
unfolding compile_action_id
get_action_id a = compile_action_id (parts a)

abbrev pub is_owner : Action → Bool
is_owner (add _ _ _ o) = o
is_owner (edit _ _ _ _ o) = o

abbrev pub field_of : Action → String
field_of (add _ f _ _) = f
field_of (edit _ f _ _ _) = f

abbrev pub txn_type_of : Action → String
txn_type_of (add t _ _ _) = t
txn_type_of (edit t _ _ _ _) = t
