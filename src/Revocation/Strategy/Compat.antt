-- ===== src/Revocation/Strategy/Compat.antt =====
-- The legacy order of indy_node/server/revocation_strategy.py, by the set of
-- indy_common/compat_set.py that it uses.
use indy_node.Base.{ℕ, false, not, ◌&&◌, ◌||◌, List, [], ◌∷◌, some, ◌≡◌, refl, ap, ◌∙◌, sym, arith}
use indy_node.CompatSet.Ints.{index_key, index-Plain}
use indy_node.CompatSet.Table.{Outcome, returns, raises, runs_on, ◌>>=◌, entries, iterate}
use indy_node.CompatSet.Algebra.{iterable}
use indy_node.CompatSet.Wrapper.{new, difference_each, update_each}
use indy_node.CompatSet.Table.Good.{member}
use indy_node.CompatSet.Table.Steps.{Gives}
use indy_node.CompatSet.Table.Walk.{iterate-entries}
use indy_node.CompatSet.Table.Rebuild.{Distinct, entries-Distinct}
use indy_node.CompatSet.Algebra.Merge.{empty-IsSetOf}
use indy_node.CompatSet.Algebra.Difference.{difference-IsSetOf}
use indy_node.CompatSet.Algebra.Symmetric.{update-IsSetOf}
use indy_node.Revocation.Sets.{elem}
use indy_node.Revocation.Strategy.{Strategy}
use indy_node.Revocation.Strategy.Effect.{ListsMembers}

-- `CompatSet(indices).difference(removed)`, then `update(added)` and `list`
unfoldable pub compat_list : List ℕ → List ℕ → List ℕ → Outcome (List ℕ)
compat_list indices removed added = do
  s ← new (some (iterable indices))
  d ← difference_each s (iterable removed ∷ [])
  u ← update_each d (iterable added ∷ [])
  iterate u

member-elem : (i : ℕ) (xs : List ℕ) → member i xs ≡ elem i xs
unfolding member elem
member-elem i [] = refl
member-elem i (x ∷ xs) = ground (arith, member-elem i xs)

-- The call returns: it lists the members of the resulting set, each once.
pub compat_list-elem :
    (indices removed added : List ℕ)
    → Gives (compat_list indices removed added) λ xs.
      ((i : ℕ) → elem i xs ≡ ((elem i indices && not (elem i removed)) || elem i added))
      × Distinct xs
unfolding compat_list new difference_each update_each
compat_list-elem indices removed added =
    let (s, make, made) =
      update-IsSetOf index-Plain (λ _. false) (λ y. elem y indices) _ (iterable indices)
        (empty-IsSetOf index-Plain) (λ y. member-elem y indices) in
    let (d, drop, dropped) =
      difference-IsSetOf index-Plain _ (λ y. elem y removed) s (iterable removed) made
        (λ y. member-elem y removed) in
    let (u, join, joined) =
      update-IsSetOf index-Plain _ (λ y. elem y added) d (iterable added) dropped
        (λ y. member-elem y added) in
    (
      entries u.table,
      rw (make, drop, join) (iterate-entries u joined.0.good),
      (
        (λ i. sym (member-elem i (entries u.table)) ∙ joined.0.members i ∙ ground arith),
        entries-Distinct u joined.0.good,
      ),
    )

-- The list, by the theorem above; an outcome without a list does not arise.
abbrev pub list_of : Outcome (List ℕ) → List ℕ
list_of (returns xs) = xs
list_of (raises e) = []
list_of runs_on = []

abbrev pub compat_order : List ℕ → List ℕ → List ℕ → List ℕ
compat_order indices removed added = list_of (compat_list indices removed added)

pub compat_order-ListsMembers : ListsMembers compat_order
compat_order-ListsMembers i indices removed added =
    let (xs, run, (elements, once)) = compat_list-elem indices removed added in
    ap (λ o. elem i (list_of o)) run ∙ elements i
