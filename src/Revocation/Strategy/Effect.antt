-- ===== src/Revocation/Strategy/Effect.antt =====
-- What `write` of indy_node/server/revocation_strategy.py does to the status of the indices.
use indy_node.Base.{ℕ, ◌≡◌, Bool, false, not, ◌&&◌, ◌||◌, List, some, arith, Bool-cases, inl, inr}
use indy_node.Revocation.Sets.{elem}
use indy_node.Revocation.Sets.Members.{elem-sort, elem-update, elem-difference, elem-set_of}
use indy_node.Revocation.Sets.Order.{
  Ascending, Ascending-unique, sort-Ascending, update-Distinct, difference-Distinct,
  set_of-Distinct,
}
use indy_node.Revocation.Strategy.{
  RevocEntry, Strategy, revoked_strategy, issued_strategy, issued_of, revoked_of, result_indices,
  changed_entry, next_value,
}
use indy_node.Revocation.Strategy.Status.{is_issued, after, Disjoint}

-- What is relied on of the legacy order: it lists the members of the set.
abbrev pub ListsMembers : (List ℕ → List ℕ → List ℕ → List ℕ) → Type 0
ListsMembers legacy =
    (i : ℕ) (indices removed added : List ℕ)
    → elem i (legacy indices removed added)
      ≡ ((elem i indices && not (elem i removed)) || elem i added)

module _ (legacy : List ℕ → List ℕ → List ℕ → List ℕ) (lists : ListsMembers legacy)
    (sort_legacy : Bool) where
  elem-result_indices :
      (i : ℕ) (indices removed added : List ℕ)
      → elem i (result_indices legacy sort_legacy indices removed added)
        ≡ ((elem i indices && not (elem i removed)) || elem i added)
  unfolding result_indices
  elem-result_indices i indices removed added = elim (Bool-cases sort_legacy) [
    | inl e ↦ rw e (lists i indices removed added)
    | inr e ↦ rw e (rw (elem-sort, elem-update, elem-difference, elem-set_of))
  ]

  -- After a transaction that lists no index twice, on a registry that has an entry, the issued
  -- indices are those that it issues and those that were issued before and that it does not revoke.
  -- This holds for both strategies and both orders.
  pub is_issued-changed_entry :
      (strategy : Strategy) (current txn : RevocEntry)
      → Disjoint txn
      → (i : ℕ)
      → is_issued strategy (changed_entry legacy sort_legacy strategy (some current) txn) i
        ≡ after txn (is_issued strategy current) i
  unfolding is_issued after changed_entry next_value
  is_issued-changed_entry revoked_strategy current txn d i =
      ground
        (arith, d i, elem-result_indices i (revoked_of current) (issued_of txn) (revoked_of txn))
  is_issued-changed_entry issued_strategy current txn d i =
      ground (arith, elem-result_indices i (issued_of current) (revoked_of txn) (issued_of txn))

-- Without the legacy order the list that is stored is strictly ascending, and it depends only on
-- which indices are in the lists that it is made from, not on their order or repetitions.
module _ (legacy : List ℕ → List ℕ → List ℕ → List ℕ) where
  result_indices-Ascending :
      (indices removed added : List ℕ)
      → Ascending (result_indices legacy false indices removed added)
  unfolding result_indices
  result_indices-Ascending indices removed added =
      sort-Ascending _
        (update-Distinct _ added (difference-Distinct _ removed (set_of-Distinct indices)))

  elem-sorted :
      (i : ℕ) (indices removed added : List ℕ)
      → elem i (result_indices legacy false indices removed added)
        ≡ ((elem i indices && not (elem i removed)) || elem i added)
  unfolding result_indices
  elem-sorted i indices removed added = rw (elem-sort, elem-update, elem-difference, elem-set_of)

  -- Without the legacy order the stored list is strictly ascending, and the same for lists with the
  -- same members, whatever their order and repetitions.
  pub result_indices_canonical :
      (indices removed added indices' removed' added' : List ℕ)
      → ((i : ℕ) → elem i indices ≡ elem i indices')
      → ((i : ℕ) → elem i removed ≡ elem i removed')
      → ((i : ℕ) → elem i added ≡ elem i added')
      → Ascending (result_indices legacy false indices removed added)
        × (result_indices legacy false indices removed added
            ≡ result_indices legacy false indices' removed' added')
  result_indices_canonical xs rs ys xs' rs' ys' hx hr ha = (
    result_indices-Ascending xs rs ys,
    Ascending-unique _ _ (result_indices-Ascending xs rs ys) (result_indices-Ascending xs' rs' ys')
        (λ i. ground (arith, hx i, hr i, ha i, elem-sorted i xs rs ys, elem-sorted i xs' rs' ys')),
  )
