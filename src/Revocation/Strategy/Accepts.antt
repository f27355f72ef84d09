-- ===== src/Revocation/Strategy/Accepts.antt =====
-- `validate` of indy_node/server/revocation_strategy.py against what makes an entry valid.
use indy_node.Base.{◌≡◌, ◌≢◌, ◌↔◌, Bool, true, false, ◌||◌, Option, none, some, arith, opt_eq_iff}
use indy_node.Revocation.Sets.{set_of, intersection}
use indy_node.Revocation.Sets.Members.{elem-intersection, elem-set_of}
use indy_node.Revocation.Strategy.{
  RevocEntry, Strategy, issued_of, revoked_of, valid, some_in, validate, validate_next,
}
use indy_node.Revocation.Strategy.Status.{Disjoint}
use indy_node.Revocation.Strategy.Validity.{
  Flips, some_in-elem, elem-some_in, specific_validation-Flips, Flips-specific_validation,
}

-- A further entry names the accumulator of the last one, changes it, and lists indices, all of
-- which change their status.
pub record Continues (strategy : Strategy) (current txn : RevocEntry) : Type 0 where
  pub chained : current.value.accum ≡ txn.value.prev_accum
  pub changed : txn.value.prev_accum ≢ txn.value.accum
  pub listed : (some_in (issued_of txn) || some_in (revoked_of txn)) ≡ true
  pub flips : Flips strategy current txn

-- A first entry names no earlier accumulator.
abbrev pub ValidEntry : Strategy → Option RevocEntry → RevocEntry → Type 0
ValidEntry strategy none txn = Disjoint txn × (txn.value.prev_accum ≡ none)
ValidEntry strategy (some current) txn = Disjoint txn × Continues strategy current txn

module _ (s : Strategy) (txn : RevocEntry) where
  abbrev both : Bool
  both = some_in (intersection (set_of (issued_of txn)) (set_of (revoked_of txn)))

  both-Disjoint : both ≡ false → Disjoint txn
  both-Disjoint h i e = ground (
    arith,
    e,
    some_in-elem i _ h,
    elem-intersection i (set_of (issued_of txn)) (set_of (revoked_of txn)),
    elem-set_of i (issued_of txn),
    elem-set_of i (revoked_of txn),
  )

  Disjoint-both : Disjoint txn → both ≡ false
  Disjoint-both d = elem-some_in _ (λ i. ground (
    arith,
    d i,
    elem-intersection i (set_of (issued_of txn)) (set_of (revoked_of txn)),
    elem-set_of i (issued_of txn),
    elem-set_of i (revoked_of txn),
  ))

  validate_next-Continues : (c : RevocEntry) → validate_next s c txn ≡ valid → Continues s c txn
  unfolding validate_next
  validate_next-Continues c h = record {
    chained = ground (arith, h, opt_eq_iff c.value.accum txn.value.prev_accum);
    changed = λ e. ground (arith, h, opt_eq_iff txn.value.prev_accum txn.value.accum);
    listed = ground (arith, h);
    flips = specific_validation-Flips s c txn (ground (arith, h));
  }

  Continues-validate_next : (c : RevocEntry) → Continues s c txn → validate_next s c txn ≡ valid
  unfolding validate_next
  Continues-validate_next c g = ground (
    arith,
    Flips-specific_validation s c txn g.flips,
    opt_eq_iff c.value.accum txn.value.prev_accum,
    opt_eq_iff txn.value.prev_accum txn.value.accum,
  )

  validate-ValidEntry :
      (current : Option RevocEntry) → validate s current txn ≡ valid → ValidEntry s current txn
  unfolding validate
  validate-ValidEntry none h = (both-Disjoint (ground (arith, h)), ground (arith, h))
  validate-ValidEntry (some c) h =
      (both-Disjoint (ground (arith, h)), validate_next-Continues c (ground (arith, h)))

  ValidEntry-validate :
      (current : Option RevocEntry) → ValidEntry s current txn → validate s current txn ≡ valid
  unfolding validate
  ValidEntry-validate none (d, p) = ground (arith, Disjoint-both d, p)
  ValidEntry-validate (some c) (d, g) = ground (arith, Disjoint-both d, Continues-validate_next c g)

  pub validate_entry_iff :
      (current : Option RevocEntry) → (validate s current txn ≡ valid) ↔ ValidEntry s current txn
  validate_entry_iff current = (validate-ValidEntry current, ValidEntry-validate current)
