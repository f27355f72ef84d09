-- ===== src/Auth/Request.antt =====
-- What the authorizers read of a request (`Request` of the plenum library).
use indy_node.Base.{ℕ, String, Option, List}

-- `signature` and `signatures` are read for their truth only before they are used, so an absent
-- dictionary of signatures is the empty one. The author's DID is always there.
pub record Request : Type 0 where
  pub identifier : String
  pub req_id : ℕ
  pub signature : Option String
  pub signatures : List (String × String)
  pub endorser : Option String
