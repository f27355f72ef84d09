-- ===== src/Revocation/Strategy/Delta.antt =====
-- `get_delta` of indy_node/server/revocation_strategy.py as the difference of two statuses.
use indy_node.Base.{ℕ, ◌≡◌, not, ◌&&◌, some, arith, List}
use indy_node.Revocation.Sets.{elem, set_of, difference}
use indy_node.Revocation.Sets.Members.{elem-difference, elem-set_of}
use indy_node.Revocation.Strategy.{
  RevocEntry, Strategy, revoked_strategy, issued_strategy, issued_of, revoked_of, get_delta,
}
use indy_node.Revocation.Strategy.Status.{is_issued}

elem-minus :
    (i : ℕ) (xs ys : List ℕ)
    → elem i (difference (set_of xs) (set_of ys)) ≡ (elem i xs && not (elem i ys))
elem-minus i xs ys =
    ground (arith, elem-difference i (set_of xs) (set_of ys), elem-set_of i xs, elem-set_of i ys)

-- Between two entries the delta lists as issued the indices that are issued at the later one and
-- not at the earlier, and as revoked those that are issued at the earlier one and not at the later;
-- for both strategies.
pub elem-get_delta :
    (strategy : Strategy) (to from : RevocEntry) (i : ℕ)
    → (elem i (get_delta strategy to (some from)).0
        ≡ (is_issued strategy to i && not (is_issued strategy from i)))
      × (elem i (get_delta strategy to (some from)).1
          ≡ (is_issued strategy from i && not (is_issued strategy to i)))
unfolding get_delta is_issued
elem-get_delta revoked_strategy to from i = (
  ground (arith, elem-minus i (revoked_of from) (revoked_of to)),
  ground (arith, elem-minus i (revoked_of to) (revoked_of from)),
)
elem-get_delta issued_strategy to from i =
    (elem-minus i (issued_of to) (issued_of from), elem-minus i (issued_of from) (issued_of to))
