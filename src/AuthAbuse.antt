-- ===== src/AuthAbuse.antt =====
-- gateway/security_controls.py, `AuthAbuseProtector`: attempt windows and lockouts of one address and
-- one account. A dict is a function, and a missing key reads as what the code takes in its place.
pub mod Window
pub mod Examples
use nuvrail.Prelude.{
  ℕ, ◌+◌, ◌-◌, ◌*◌, ◌^◌, ◌∷◌, ◌++◌, Bool, true, false, List, [], min, max, length, leb, ltb,
  if◌then◌else◌,
}
use nuvrail.Prelude.Text.{Text, Unicode, codes, same, lower}

pub record Limits : Type 0 where
  pub attempt_window_seconds : ℕ
  pub max_attempts_per_ip_window : ℕ
  pub max_attempts_per_account_window : ℕ
  pub failure_window_seconds : ℕ
  pub max_failures_before_lockout : ℕ
  pub base_lockout_seconds : ℕ
  pub max_lockout_seconds : ℕ

pub record Protector : Type 0 where
  pub attempts_by_ip : Text → List ℕ
  pub attempts_by_account : Text → List ℕ
  pub failures_by_ip : Text → List ℕ
  pub failures_by_account : Text → List ℕ
  pub lockout_until : Text → ℕ
  pub lockout_count : Text → ℕ

pub record AuthDecision : Type 0 where
  pub is_allowed : Bool
  pub retry_after_seconds : ℕ
  pub reason : Text

pub record FailureResult : Type 0 where
  pub lockout_applied : Bool
  pub retry_after_seconds : ℕ

-- d[key] = v
abbrev pub put {ℓ} : {A : Type ℓ} → Text → A → (Text → A) → Text → A
put key v d k = if same key k then v else d k

abbrev pub ip_key : Text → Text
ip_key ip = codes "ip:" ++ ip

abbrev pub account_key : Unicode → Text → Text
account_key uni account = codes "acct:" ++ lower uni account

-- `_prune`: from the front, while the entry is at or before the threshold
unfoldable pub prune : ℕ → ℕ → List ℕ → List ℕ
prune now window [] = []
prune now window (t ∷ ts) =
    let rest = prune now window ts in if leb (t + window) now then rest else t ∷ ts

-- `_get_retry_seconds`
unfoldable pub get_retry_seconds : Protector → Text → ℕ → ℕ
get_retry_seconds p key now =
    if leb (p.lockout_until key) now then 0 else max 1 (p.lockout_until key - now)

abbrev pub lockout_seconds : Limits → ℕ → ℕ
lockout_seconds l count = min (l.base_lockout_seconds * 2 ^ (count - 1)) l.max_lockout_seconds

-- `_activate_lockout`, with the duration that it returns
unfoldable pub activate_lockout : Limits → Text → ℕ → Protector → Protector × ℕ
activate_lockout l key now p =
    let count = p.lockout_count key + 1 in
    let duration = lockout_seconds l count in
    (
      record p {
        lockout_count = put key count p.lockout_count;
        lockout_until = put key (now + duration) p.lockout_until;
      },
      duration,
    )

abbrev pub denied : ℕ → Text → AuthDecision
denied retry reason = record { is_allowed = false; retry_after_seconds = retry; reason = reason }

abbrev pub granted : AuthDecision
granted = record { is_allowed = true; retry_after_seconds = 0; reason = codes "allowed" }

-- Both buckets are pruned before either is measured.
abbrev pub pruned : Limits → Text → Text → ℕ → Protector → Protector
pruned l ip account now p = record p {
  attempts_by_ip =
      put ip (prune now l.attempt_window_seconds (p.attempts_by_ip ip)) p.attempts_by_ip;
  attempts_by_account =
      put account (prune now l.attempt_window_seconds (p.attempts_by_account account))
        p.attempts_by_account;
}

abbrev pub reserved : Text → Text → ℕ → Protector → Protector
reserved ip account now p = record p {
  attempts_by_ip = put ip (p.attempts_by_ip ip ++ now ∷ []) p.attempts_by_ip;
  attempts_by_account =
      put account (p.attempts_by_account account ++ now ∷ []) p.attempts_by_account;
}

-- Behind the lockout checks, on the pruned buckets.
unfoldable pub rate_checked : Limits → Text → Text → ℕ → Protector → Protector × AuthDecision
rate_checked l ip account now p =
    if leb l.max_attempts_per_ip_window (length (p.attempts_by_ip ip))
    then (p, denied l.attempt_window_seconds (codes "rate_limited"))
    else if leb l.max_attempts_per_account_window (length (p.attempts_by_account account))
    then (p, denied l.attempt_window_seconds (codes "rate_limited"))
    else (reserved ip account now p, granted)

abbrev pub start_keys : Limits → Text → Text → ℕ → Protector → Protector × AuthDecision
start_keys l ip account now p =
    if ltb 0 (get_retry_seconds p ip now)
    then (p, denied (get_retry_seconds p ip now) (codes "temporary_lockout"))
    else if ltb 0 (get_retry_seconds p account now)
    then (p, denied (get_retry_seconds p account now) (codes "temporary_lockout"))
    else rate_checked l ip account now (pruned l ip account now p)

unfoldable pub start_attempt :
    Unicode → Limits → ℕ → Text → Text → Protector → Protector × AuthDecision
unfolding get_retry_seconds rate_checked prune
start_attempt uni l now ip account p = start_keys l (ip_key ip) (account_key uni account) now p

abbrev pub clear_keys : Text → Text → Protector → Protector
clear_keys ip account p = record p {
  failures_by_ip = put ip [] p.failures_by_ip;
  failures_by_account = put account [] p.failures_by_account;
  lockout_until = put account 0 (put ip 0 p.lockout_until);
}

-- The counters of lockouts stay.
unfoldable pub record_success : Unicode → Text → Text → Protector → Protector
record_success uni ip account p = clear_keys (ip_key ip) (account_key uni account) p

abbrev pub lock_if :
    Limits → Bool → Text → ℕ → Protector × FailureResult → Protector × FailureResult
lock_if l false key now (p, r) = (p, r)
lock_if l true key now (p, r) =
    let (p', duration) = activate_lockout l key now p in
    (
      p',
      record { lockout_applied = true; retry_after_seconds = max r.retry_after_seconds duration },
    )

abbrev pub failed : Limits → Text → Text → ℕ → Protector → Protector
failed l ip account now p = record p {
  failures_by_ip =
      put ip (prune now l.failure_window_seconds (p.failures_by_ip ip) ++ now ∷ [])
        p.failures_by_ip;
  failures_by_account =
      put account (prune now l.failure_window_seconds (p.failures_by_account account) ++ now ∷ [])
        p.failures_by_account;
}

abbrev pub fail_keys : Limits → Text → Text → ℕ → Protector → Protector × FailureResult
fail_keys l ip account now p =
    let p' = failed l ip account now p in
    lock_if l (leb l.max_failures_before_lockout (length (p'.failures_by_account account))) account
      now
      (lock_if l (leb l.max_failures_before_lockout (length (p'.failures_by_ip ip))) ip now
        (p', record { lockout_applied = false; retry_after_seconds = 0 }))

unfoldable pub record_failure :
    Unicode → Limits → ℕ → Text → Text → Protector → Protector × FailureResult
unfolding activate_lockout prune
record_failure uni l now ip account p = fail_keys l (ip_key ip) (account_key uni account) now p
