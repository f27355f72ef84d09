-- ===== src/Reads/Errors.antt =====
-- Which versions the reads refuse: get_nym_handler.py and version_read_request_handler.py.
use indy_node.Base.{
  ◌==◌, ◌≢◌, sym, ◌∙◌, ℕ, String, Option, none, some, true, false, ◌&&◌, num_eq, ◌≡◌, ◌↔◌, refl,
  arith, Bool-cases, inl, inr,
}
use indy_node.Identity.Writes.{NymDetails}
use indy_node.Reads.{
  Ledger, Lookup, looked, Answer, both_versions, value_error, Version, both_given, is_given,
  at_time, at_root, at_seq_no, lookup_version, NymReply, nym_answer, get_nym_result,
  timestamp_from_seq_no,
}

-- Both keys are there, and a zero among their values.
abbrev pub BothWithZero : Option ℕ → Option ℕ → Type 0
BothWithZero (some t) (some n) = (is_given (some t) && is_given (some n)) ≡ false
BothWithZero _ _ = ⊥

-- A lookup that is no exception.
abbrev IsLooked : {V : Type 0} → Lookup V → Type 0
IsLooked (looked v p) = Unit
IsLooked Lookup.value_error = ⊥

module _ {V : Type 0} (ledger : Ledger V) (path : String) where
  at_root-IsLooked : (root : Option String) → IsLooked (at_root ledger path true root)
  at_root-IsLooked none = tt
  at_root-IsLooked (some r) = elim (Bool-cases (r == "")) [ inl e ↦ rw e tt | inr e ↦ rw e tt ]

  at_time-IsLooked : (t : Option ℕ) → IsLooked (at_time ledger path true t)
  at_time-IsLooked none = tt
  at_time-IsLooked (some t) = elim (Bool-cases (num_eq t 0)) [
    | inl e ↦ rw e tt
    | inr e ↦ rw e (at_root-IsLooked (ledger.past_root t))
  ]

  at_seq_no-IsLooked : (n : ℕ) → IsLooked (at_seq_no ledger path true n)
  at_seq_no-IsLooked n = elim (Bool-cases (is_given (timestamp_from_seq_no ledger n))) [
    | inl e ↦ rw e (at_time-IsLooked (timestamp_from_seq_no ledger n))
    | inr e ↦ rw e tt
  ]

  one-IsLooked : (n : ℕ) → IsLooked (lookup_version ledger path (some n) none true)
  unfolding lookup_version
  one-IsLooked n = elim (Bool-cases (num_eq n 0)) [
    | inl e ↦ rw e tt
    | inr e ↦ rw e (at_seq_no-IsLooked n)
  ]

answered : (dest : String) (l : Lookup NymDetails) → IsLooked l → nym_answer dest l ≢ value_error
answered dest (looked none p) h e = absurd (ground (arith, e))
answered dest (looked (some d) p) h e = absurd (ground (arith, e))
answered dest Lookup.value_error h e = h

no_both : (dest : String) (l : Lookup NymDetails) → nym_answer dest l ≢ both_versions
no_both dest (looked none p) e = absurd (ground (arith, e))
no_both dest (looked (some d) p) e = absurd (ground (arith, e))
no_both dest Lookup.value_error e = absurd (ground (arith, e))

module _ (state_key : String → String) (ledger : Ledger NymDetails) (dest : String) where
  abbrev answer : Version → Answer NymReply
  answer = get_nym_result state_key ledger dest

  refused : (v : Version) → both_given v ≡ true → answer v ≡ both_versions
  unfolding get_nym_result
  refused v h = rw (h, get_nym_result) refl

  not_refused :
      (v : Version)
      → both_given v ≡ false
      → answer v
        ≡ nym_answer dest (lookup_version ledger (state_key dest) v.seq_no v.timestamp true)
  unfolding get_nym_result
  not_refused v h = rw (h, get_nym_result) refl

  -- A value error comes only with both keys.
  with_both :
      (t n : Option ℕ)
      → nym_answer dest (lookup_version ledger (state_key dest) n t true) ≡ value_error
      → (is_given t && is_given n) ≡ false
      → BothWithZero t n
  unfolding lookup_version
  with_both (some t) (some n) e h = h
  with_both t none e h = absurd (answered dest _ (at_time-IsLooked ledger (state_key dest) t) e)
  with_both none (some n) e h = absurd (answered dest _ (one-IsLooked ledger (state_key dest) n) e)

  fails :
      (t n : Option ℕ)
      → BothWithZero t n
      → nym_answer dest (lookup_version ledger (state_key dest) n t true) ≡ value_error
  unfolding lookup_version
  fails (some t) (some n) h = refl
  fails none n h = elim h [ ]
  fails (some t) none h = elim h [ ]

  zero_among : (t n : Option ℕ) → BothWithZero t n → (is_given t && is_given n) ≡ false
  zero_among (some t) (some n) h = h
  zero_among none n h = elim h [ ]
  zero_among (some t) none h = elim h [ ]

  -- GET_NYM is refused exactly when it gives a time and a number that are not zero. It raises
  -- ValueError exactly when it gives both and one of them is zero.
  pub get_nym_result-errors :
      (v : Version)
      → ((answer v ≡ both_versions) ↔ (both_given v ≡ true))
        × ((answer v ≡ value_error) ↔ BothWithZero v.timestamp v.seq_no)
  get_nym_result-errors v = elim (Bool-cases (both_given v)) [
    | inl h ↦ (
      ((λ e. h), λ e. refused v h),
      (
        (λ e. absurd (ground (arith, sym (refused v h) ∙ e))),
        λ b. absurd (ground (arith, h, zero_among v.timestamp v.seq_no b)),
      ),
    )
    | inr h ↦ (
      (
        (λ e. absurd (no_both dest _ (sym (not_refused v h) ∙ e))),
        λ e. absurd (ground (arith, h, e)),
      ),
      (
        (λ e. with_both v.timestamp v.seq_no (sym (not_refused v h) ∙ e) h),
        λ b. not_refused v h ∙ fails v.timestamp v.seq_no b,
      ),
    )
  ]
