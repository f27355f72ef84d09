-- ===== src/Revocation/Strategy/Status.antt =====
-- Which indices of a registry are issued, whatever the strategy stores: the view that the
-- strategies of indy_node/server/revocation_strategy.py share.
use indy_node.Base.{ℕ, ◌≡◌, Bool, true, false, not, ◌&&◌, ◌||◌}
use indy_node.Revocation.Sets.{elem}
use indy_node.Revocation.Strategy.{
  RevocEntry, Strategy, revoked_strategy, issued_strategy, issued_of, revoked_of,
}

unfoldable pub is_issued : Strategy → RevocEntry → ℕ → Bool
is_issued revoked_strategy e i = not (elem i (revoked_of e))
is_issued issued_strategy e i = elem i (issued_of e)

-- What a transaction makes of an earlier status.
unfoldable pub after : RevocEntry → (ℕ → Bool) → ℕ → Bool
after txn old i = elem i (issued_of txn) || (not (elem i (revoked_of txn)) && old i)

-- No index is both issued and revoked.
abbrev pub Disjoint : RevocEntry → Type 0
Disjoint txn = (i : ℕ) → elem i (issued_of txn) ≡ true → elem i (revoked_of txn) ≡ false
