-- ===== src/Revocation/Strategy/Validity.antt =====
-- Which entries `validate` of indy_node/server/revocation_strategy.py lets through.
use indy_node.Base.{ℕ, ◌≡◌, refl, true, false, List, [], ◌∷◌, arith}
use indy_node.Revocation.Sets.{elem, set_of, difference, intersection}
use indy_node.Revocation.Sets.Members.{elem-intersection, elem-difference, elem-set_of}
use indy_node.Revocation.Strategy.{
  RevocEntry, Strategy, revoked_strategy, issued_strategy, issued_of, revoked_of, valid, some_in,
  specific_validation,
}
use indy_node.Revocation.Strategy.Status.{is_issued}

pub some_in-elem : (i : ℕ) (xs : List ℕ) → some_in xs ≡ false → elem i xs ≡ false
unfolding elem
some_in-elem i [] h = refl
some_in-elem i (x ∷ xs) h = absurd (ground (arith, h))

pub elem-some_in : (xs : List ℕ) → ((i : ℕ) → elem i xs ≡ false) → some_in xs ≡ false
unfolding elem
elem-some_in [] h = refl
elem-some_in (x ∷ xs) h = absurd (ground (arith, h x))

-- The status of every listed index changes.
pub record Flips (strategy : Strategy) (current txn : RevocEntry) : Type 0 where
  pub issues : (i : ℕ) → elem i (issued_of txn) ≡ true → is_issued strategy current i ≡ false
  pub revokes : (i : ℕ) → elem i (revoked_of txn) ≡ true → is_issued strategy current i ≡ true

pub specific_validation-Flips :
    (s : Strategy) (current txn : RevocEntry)
    → specific_validation s current txn ≡ valid
    → Flips s current txn
unfolding specific_validation is_issued
specific_validation-Flips revoked_strategy c t h = record {
  issues = λ i e. ground (
    arith,
    h,
    some_in-elem i (difference (set_of (issued_of t)) (revoked_of c)),
    elem-difference i (set_of (issued_of t)) (revoked_of c),
    elem-set_of i (issued_of t),
  );
  revokes = λ i e. ground (
    arith,
    h,
    some_in-elem i (intersection (set_of (revoked_of c)) (revoked_of t)),
    elem-intersection i (set_of (revoked_of c)) (revoked_of t),
    elem-set_of i (revoked_of c),
  );
}
specific_validation-Flips issued_strategy c t h = record {
  issues = λ i e. ground (
    arith,
    h,
    some_in-elem i (intersection (set_of (issued_of c)) (issued_of t)),
    elem-intersection i (set_of (issued_of c)) (issued_of t),
    elem-set_of i (issued_of c),
  );
  revokes = λ i e. ground (
    arith,
    h,
    some_in-elem i (difference (set_of (revoked_of t)) (issued_of c)),
    elem-difference i (set_of (revoked_of t)) (issued_of c),
    elem-set_of i (revoked_of t),
  );
}

no_difference :
    (xs ys : List ℕ)
    → ((i : ℕ) → elem i xs ≡ true → elem i ys ≡ true)
    → some_in (difference (set_of xs) ys) ≡ false
no_difference xs ys h =
    elem-some_in _ (λ i. ground (arith, elem-difference i (set_of xs) ys, elem-set_of i xs, h i))

no_intersection :
    (xs ys : List ℕ)
    → ((i : ℕ) → elem i ys ≡ true → elem i xs ≡ false)
    → some_in (intersection (set_of xs) ys) ≡ false
no_intersection xs ys h =
    elem-some_in _ (λ i. ground (arith, elem-intersection i (set_of xs) ys, elem-set_of i xs, h i))

pub Flips-specific_validation :
    (s : Strategy) (current txn : RevocEntry)
    → Flips s current txn
    → specific_validation s current txn ≡ valid
unfolding specific_validation is_issued
Flips-specific_validation revoked_strategy c t f =
    rw (no_difference (issued_of t) (revoked_of c) (λ i e. ground (arith, f.issues i e)))
      (rw (no_intersection (revoked_of c) (revoked_of t) (λ i e. ground (arith, f.revokes i e))))
Flips-specific_validation issued_strategy c t f =
    rw (no_difference (revoked_of t) (issued_of c) f.revokes)
      (rw (no_intersection (issued_of c) (issued_of t) f.issues))
