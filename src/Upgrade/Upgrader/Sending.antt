-- ===== src/Upgrade/Upgrader/Sending.antt =====
-- The request to the control tool, `_sendUpgradeRequest` of indy_node/server/upgrader.py, and the
-- timeout.
use indy_node.Base.{ℕ, zero, suc, ◌+◌, ◌*◌, ◌≤◌, ◌<◌, ◌≡◌, refl, subst, Bool, true, false, arith}
use indy_node.Upgrade.Log.{UpgradeLogData}
use indy_node.Upgrade.State.{
  Platform, Upgrader, unschedule_action, action_failed, call, schedule_timeout, get_timeout,
  send_message,
}
use indy_node.Upgrade.Upgrader.{send_request, send_loop, after_sending}

k-zero : (k : ℕ) → k + 0 ≡ k
k-zero k = omega arith

k-suc : (k m : ℕ) → k + suc m ≡ suc k + m
k-suc k m = omega arith

zero-k : (m : ℕ) → m ≡ 0 + m
zero-k m = omega arith

module _ {V : Type 0} (p : Platform V) (reaches : ℕ → Bool) (d : UpgradeLogData V) where
  abbrev message : Upgrader V → Upgrader V
  message s = call (send_message (p.full d.version) d.pkg_name) s

  -- A number of messages, one after the other.
  abbrev pub messages : ℕ → Upgrader V → Upgrader V
  messages zero s = s
  messages (suc n) s = messages n (message s)

  loop-fails :
      (k n : ℕ) (s : Upgrader V)
      → ((i : ℕ) → k ≤ i → i < k + n → reaches i ≡ false)
      → send_loop p reaches k n d s ≡ (0, messages n s)
  unfolding send_loop
  loop-fails k zero s h = refl
  loop-fails k (suc n) s h =
      rw (h k (omega arith) (omega arith))
        (loop-fails (suc k) n (message s) (λ i a b. h i (omega (arith, a)) (omega (arith, b))))

  loop-succeeds :
      (k n m : ℕ) (s : Upgrader V)
      → m < n
      → ((i : ℕ) → k ≤ i → i < k + m → reaches i ≡ false)
      → reaches (k + m) ≡ true
      → (left : ℕ) × (send_loop p reaches k n d s ≡ (suc left, messages (suc m) s))
  unfolding send_loop
  loop-succeeds k zero m s b h r = absurd (omega (arith, b))
  loop-succeeds k (suc n) zero s b h r = (n, rw (subst (λ i. reaches i ≡ true) (k-zero k) r) refl)
  loop-succeeds k (suc n) (suc m) s b h r = rw (h k (omega arith) (omega arith)) (
      loop-succeeds (suc k) n m (message s) (omega (arith, b))
        (λ i a c. h i (omega (arith, a)) (omega (arith, c)))
        (subst (λ i. reaches i ≡ true) (k-suc k m) r))

  -- The control tool is asked until an attempt reaches it, at most three times. When one does, the
  -- timeout of the upgrade is scheduled; when none does, the upgrade has failed and nothing is
  -- scheduled.
  pub send_request_lem :
      (timeout : ℕ) (s : Upgrader V)
      → (((i : ℕ) → i < 3 → reaches i ≡ false)
          → send_request p reaches d timeout s
            ≡ unschedule_action (
                action_failed d "problems in communication with node control service"
                  (messages 3 s)))
        × ((m : ℕ)
            → m < 3
            → ((i : ℕ) → i < m → reaches i ≡ false)
            → reaches m ≡ true
            → send_request p reaches d timeout s
              ≡ call (schedule_timeout d (get_timeout timeout)) (messages (suc m) s))
  unfolding send_request after_sending
  send_request_lem timeout s = (
    λ h. rw (loop-fails 0 3 s (λ i a c. h i (omega (arith, c))), send_request) refl,
    λ m b h r.
        let (left, e) =
          loop-succeeds 0 3 m s b (λ i a c. h i (omega (arith, c)))
            (subst (λ i. reaches i ≡ true) (zero-k m) r) in
        rw (e, send_request) refl,
  )

-- The timeout in seconds is below a day, it is sixty times the minutes when these are less than a
-- day, and a day more of minutes makes no difference.
pub get_timeout_lem :
    (minutes : ℕ)
    → (get_timeout minutes < 86400)
      × (minutes < 1440 → get_timeout minutes ≡ minutes * 60)
      × (get_timeout (minutes + 1440) ≡ get_timeout minutes)
unfolding get_timeout
get_timeout_lem minutes = (omega arith, (λ h. omega (arith, h)), omega arith)
