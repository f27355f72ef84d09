-- ===== src/Reads/Log.antt =====
-- Which state a version selects: version_read_request_handler.py over the batches that the ledger
-- has committed.
use indy_node.Base.{
  ℕ, ◌≤◌, ◌<◌, String, Option, none, some, Bool, false, List, [], ◌∷◌, ◌++◌, leb, get,
  if◌then◌else◌, ◌≡◌, ◌≢◌, refl, ap, ◌∙◌, num_eq, arith, other_eq,
}
use indy_node.Reads.{
  Ledger, Lookup, looked, at_root, at_time, if_proof, timestamp_from_seq_no, lookup_version,
}

-- The batches, the newest first: the time of each, and the state after it.
abbrev pub StateLog : Type 0 → Type 0
StateLog V = List (ℕ × List (String × V))

module _ {V : Type 0} where
  abbrev pub last_at : ℕ → StateLog V → Option (List (String × V))
  last_at t [] = none
  last_at t ((u, s) ∷ log) = if leb u t then some s else last_at t log

  abbrev pub newest : StateLog V → Option (List (String × V))
  newest [] = none
  newest ((u, s) ∷ log) = some s

  abbrev pub read : (path : String) → Option (List (String × V)) → Option V
  read path none = none
  read path (some s) = get path s

  abbrev pub read_root : Ledger V → (path : String) → Option String → Option V
  read_root ledger path none = none
  read_root ledger path (some root) = ledger.value_at root path

  -- What the timestamp store documents: the root at a time is that of the last batch until then.
  pub record Keeps (ledger : Ledger V) (log : StateLog V) : Type 0 where
    pub now : (path : String) → ledger.value_now path ≡ read path (newest log)
    pub past :
        (t : ℕ) (path : String)
        → read_root ledger path (ledger.past_root t) ≡ read path (last_at t log)
    pub rooted : (t : ℕ) → ledger.past_root t ≢ some ""

  -- All batches are later than a time.
  abbrev pub AllAfter : ℕ → StateLog V → Type 0
  AllAfter t [] = Unit
  AllAfter t ((u, s) ∷ log) = (t < u) × AllAfter t log

  pub last_at-append :
      (t u : ℕ) (newer older : StateLog V) (s : List (String × V))
      → AllAfter t newer
      → u ≤ t
      → last_at t (newer ++ (u, s) ∷ older) ≡ some s
  last_at-append t u [] older s a h = ground arith
  last_at-append t u ((v, r) ∷ newer) older s a h =
      ground (arith, a.0, last_at-append t u newer older s a.1 h)

  newest-append :
      (u : ℕ) (newer older : StateLog V) (s : List (String × V))
      → newer ≡ []
      → newest (newer ++ (u, s) ∷ older) ≡ some s
  newest-append u newer older s e = rw e refl

module _ {V : Type 0} (ledger : Ledger V) where
  -- The version is a time, the number of a transaction of that time, or none where no batch is
  -- later. Times and numbers are not zero.
  abbrev pub Selects : StateLog V → ℕ → (seq_no timestamp : Option ℕ) → Type 0
  Selects newer t none none = newer ≡ []
  Selects newer t none (some u) = u ≡ t
  Selects newer t (some n) none = (0 < n) × (ledger.result_at n ≡ some (some t))
  Selects newer t (some n) (some u) = ⊥

positive : (t : ℕ) → 0 < t → num_eq t 0 ≡ false
positive t h = ground arith

module _ {V : Type 0} (ledger : Ledger V) (path : String) (w : Bool) where
  -- The lookup gives the value, with some proof.
  abbrev pub Gives : Lookup V → Option V → Type 0
  Gives l v = (proof : Option String) × (l ≡ looked v proof)

  at_root-Gives :
      (root : Option String)
      → root ≢ some ""
      → Gives (at_root ledger path w root) (read_root ledger path root)
  at_root-Gives none h = (none, refl)
  at_root-Gives (some r) h =
      (if_proof w (ledger.proof_at r path), rw (other_eq r "" (λ e. h (ap some e))) refl)

  at_time-Gives :
      (t : ℕ)
      → 0 < t
      → ledger.past_root t ≢ some ""
      → Gives (at_time ledger path w (some t)) (read_root ledger path (ledger.past_root t))
  at_time-Gives t h rooted = rw (positive t h) (at_root-Gives (ledger.past_root t) rooted)

  gives_same : (l : Lookup V) (u v : Option V) → u ≡ v → Gives l u → Gives l v
  gives_same l u v e (proof, h) = (proof, h ∙ ap (λ o. looked o proof) e)

  by_seq_no :
      (n t : ℕ)
      → 0 < n
      → 0 < t
      → ledger.result_at n ≡ some (some t)
      → lookup_version ledger path (some n) none w ≡ at_time ledger path w (some t)
  unfolding lookup_version timestamp_from_seq_no
  by_seq_no n t a b e = rw (positive n a) (rw (e, timestamp_from_seq_no) (rw (positive t b) refl))

  timed :
      (newer older : StateLog V) (u : ℕ) (s : List (String × V)) (t : ℕ)
      → Keeps ledger (newer ++ (u, s) ∷ older)
      → AllAfter t newer
      → u ≤ t
      → 0 < t
      → Gives (at_time ledger path w (some t)) (get path s)
  timed newer older u s t keeps later before pos =
      let same =
        keeps.past t path ∙ ap (read path) (last_at-append t u newer older s later before) in
      gives_same _ _ _ same (at_time-Gives t pos (keeps.rooted t))

  -- Where the last batch until a time left a state, a lookup of a version that selects that time
  -- gives what the state holds.
  pub lookup_version-log :
      (newer older : StateLog V) (u : ℕ) (s : List (String × V)) (t : ℕ)
      (seq_no timestamp : Option ℕ)
      → Keeps ledger (newer ++ (u, s) ∷ older)
      → AllAfter t newer
      → u ≤ t
      → 0 < t
      → Selects ledger newer t seq_no timestamp
      → Gives (lookup_version ledger path seq_no timestamp w) (get path s)
  unfolding lookup_version
  lookup_version-log newer older u s t none none keeps later before pos e = (
    if_proof w (ledger.proof_now path),
    ap (λ o. looked o (if_proof w (ledger.proof_now path)))
        (keeps.now path ∙ ap (read path) (newest-append u newer older s e)),
  )
  lookup_version-log newer older u s t none (some v) keeps later before pos e =
      rw e (timed newer older u s t keeps later before pos)
  lookup_version-log newer older u s t (some n) none keeps later before pos (some_n, e) =
      let (proof, found) = timed newer older u s t keeps later before pos in
      (proof, by_seq_no n t some_n pos e ∙ found)
  lookup_version-log newer older u s t (some n) (some v) keeps later before pos e = elim e [ ]
