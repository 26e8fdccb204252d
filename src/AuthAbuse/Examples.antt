-- ===== src/AuthAbuse/Examples.antt =====
-- One account of two attempts a minute: the third attempt is refused.
use nuvrail.Prelude.{◌≤◌, ◌≡◌, refl, List, [], ◌∷◌, none, arith}
use nuvrail.Prelude.Text.{Unicode, codes, same, lower, lower_char}
use nuvrail.AuthAbuse.{
  Limits, ip_key, account_key, prune, get_retry_seconds, rate_checked, start_attempt,
  activate_lockout, record_failure,
}
use nuvrail.AuthAbuse.Window.{
  Step, attempt, failure, recent, advance_all, at_start, recent-advance_all,
}

abbrev ascii : Unicode
ascii = record {
  upper_wide = λ c. c ∷ [];
  lower_wide = λ c. c ∷ [];
  digit_wide = λ c. none;
  decode_wide = λ bytes. bytes;
  encode_wide = λ c. c ∷ [];
}

abbrev two_a_minute : Limits
two_a_minute = record {
  attempt_window_seconds = 60;
  max_attempts_per_ip_window = 20;
  max_attempts_per_account_window = 2;
  failure_window_seconds = 300;
  max_failures_before_lockout = 5;
  base_lockout_seconds = 120;
  max_lockout_seconds = 3600;
}

abbrev four_steps : List Step
four_steps =
    attempt 100 (codes "10.0.0.1") (codes "Ann")
    ∷ failure 101 (codes "10.0.0.1") (codes "Ann")
    ∷ attempt 110 (codes "10.0.0.1") (codes "ann")
    ∷ attempt 120 (codes "10.0.0.2") (codes "ann")
    ∷ []

-- Two of the three attempts were let through.
two-granted :
    (advance_all ascii two_a_minute four_steps at_start).by_account
      (account_key ascii (codes "ANN"))
    ≡ 100 ∷ 110 ∷ []
unfolding same lower lower_char prune get_retry_seconds rate_checked start_attempt activate_lockout
    record_failure
two-granted = refl

recent-advance_all_example :
    (recent 60 120
        ((advance_all ascii two_a_minute four_steps at_start).by_ip (ip_key (codes "10.0.0.1")))
      ≤ 20)
    × (recent 60 120 (
          (advance_all ascii two_a_minute four_steps at_start).by_account
            (account_key ascii (codes "ann")))
        ≤ 2)
recent-advance_all_example =
    recent-advance_all ascii two_a_minute four_steps 100 120 (codes "10.0.0.1") (codes "ann")
      (omega arith, (omega arith, (omega arith, (omega arith, tt)))) (omega arith)
