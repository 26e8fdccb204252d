-- ===== src/SendRate/Ceiling.antt =====
-- What the limiter lets through stays under the ceilings that it enforces.
use nuvrail.Prelude.{ℕ, ◌-◌, ◌≡◌, Bool, true, ◌&&◌, ◌||◌, List, Option, none, some, leb, ◌==◌}
use nuvrail.Prelude.Text.{Text}
use nuvrail.Audit.Record.{Row, Sha256}
use nuvrail.Staging.Store.{Operation, State, agent_text}
use nuvrail.Staging.Execute.{Attempt}
use nuvrail.SendRate.{
  SendRateConfig, RecipientCount, AgentOwner, day_seconds, count_recent_sends,
  count_recent_sends_for_user, resolve_owner_user_id,
}

-- A ceiling of 0 is no ceiling.
abbrev pub fits : ℕ → ℕ → Bool
fits cap used = cap == 0 || leb used cap

abbrev pub account_fits :
    RecipientCount → AgentOwner → SendRateConfig → ℕ → List Row → Option ℕ → Bool
account_fits json owner cfg now rows none = true
account_fits json owner cfg now rows (some user) =
    fits cfg.account_max_per_window
      (count_recent_sends_for_user json owner user (now - cfg.window_seconds) rows)
    && fits cfg.account_max_per_day
        (count_recent_sends_for_user json owner user (now - day_seconds) rows)

-- What the agent, and all agents of its user, sent since the start of each window.
abbrev pub is_within :
    RecipientCount → AgentOwner → SendRateConfig → Option Text → ℕ → List Row → Bool
is_within json owner cfg who now rows =
    fits cfg.max_per_window (count_recent_sends json who (now - cfg.window_seconds) rows)
    && account_fits json owner cfg now rows (resolve_owner_user_id owner who)

module _ (sha : Sha256) (now : ℕ) (id : Text) (row : Operation) (actor : Text) (a : Attempt)
    (s : State) where
  abbrev Within : State → Type 0
  Within after =
      is_within a.recipient_count a.owner a.config (agent_text row.request.agent_id) now
        after.log.rows
      ≡ true
