-- ===== src/Identity/Writes/History.antt =====
-- A nym over time: what a sequence of transactions leaves in the state by `update_state` of
-- indy_node/server/request_handlers/domain_req_handlers/nym_handler.py.
use indy_node.Base.{String, Option, some, List, [], ◌∷◌, ◌≡◌}
use indy_node.Identity.Nym.{NymOperation}
use indy_node.Identity.Writes.{NymDetails, NymTxn, updated, override}

-- The details after the transactions of one nym, in their order.
unfoldable pub replay : NymDetails → List NymTxn → NymDetails
replay d [] = d
replay d (txn ∷ txns) = replay (updated txn (some d)) txns

-- The value that the last transaction with the key gave to it.
abbrev pub last_named {ℓ} :
    {A : Type ℓ} → (NymOperation → Option (Option A)) → Option A → List NymTxn → Option A
last_named key old [] = old
last_named key old (txn ∷ txns) = last_named key (override (key txn.payload) old) txns

-- The identity of the creator, and the values of the two keys.
abbrev pub Remembers : Option String → (role verkey : Option String) → NymDetails → Type 0
Remembers author role verkey d = (d.identifier ≡ author) × (d.role ≡ role) × (d.verkey ≡ verkey)
