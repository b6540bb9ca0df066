-- ===== src/Hosting/Scaler.antt =====
-- app/services/hosting/scaler.py: idle agents are put to sleep. Whether the backend stops a
-- container is an argument. (`wake_agent` is in Webhooks.)
use agent_repository.Common.{
  ℕ, ◌-◌, Bool, true, false, ◌&&◌, ltb, Option, none, some, [], ◌∷◌, lookup, Dict,
}
use agent_repository.Models.{HostedAgent, DeploymentStatus}
use agent_repository.Session.{◌>>=◌, ◌>>◌, ⊤, Action, pure, gets, when, commit}
use agent_repository.Webhooks.{write_hosted}
use agent_repository.Hosting.Deploy.{new_session}

unfoldable pub is_running : DeploymentStatus → Bool
is_running DeploymentStatus.running = true
is_running _ = false

abbrev pub asleep : HostedAgent → HostedAgent
asleep h = record h { status = DeploymentStatus.sleeping }

-- Whether the row runs and its container stops.
unfoldable pub can_sleep : (ℕ → Bool) → ℕ → Option HostedAgent → Bool
unfolding is_running
can_sleep stops agent_id none = false
can_sleep stops agent_id (some h) = is_running h.status && stops agent_id

unfoldable pub sleep_agent : (ℕ → Bool) → ℕ → Action Bool
unfolding can_sleep
sleep_agent stops agent_id = do
  hosted ← gets (λ s. lookup agent_id s.db.hosted)
  let sleeps : Bool = can_sleep stops agent_id hosted
  when sleeps (do write_hosted agent_id asleep; commit)
  pure sleeps

unfoldable pub record_activity : ℕ → Action ⊤
record_activity agent_id = do
  now ← gets (λ s. s.env.now)
  write_hosted agent_id (λ h. record h { last_activity_at = some now })

-- `last_activity_at or created_at`
unfoldable pub last_activity : HostedAgent → ℕ
last_activity h = elim h.last_activity_at [ some t ↦ t | none ↦ h.created_at ]

unfoldable pub is_idle : ℕ → HostedAgent → Bool
unfolding last_activity
is_idle now h = ltb h.idle_timeout_seconds (now - last_activity h)

unfoldable pub sleep_row : (ℕ → Bool) → ℕ → ℕ → HostedAgent → Action ⊤
unfolding sleep_agent is_idle is_running
sleep_row stops now agent_id h =
    when (is_running h.status && h.scale_to_zero && is_idle now h)
      (do sleep_agent stops agent_id; pure tt)

-- The loop over the rows that were found.
unfoldable pub sleep_idle : (ℕ → Bool) → ℕ → Dict HostedAgent → Action ⊤
unfolding sleep_row
sleep_idle stops now [] = pure tt
sleep_idle stops now ((agent_id, h) ∷ rows) = do
  sleep_row stops now agent_id h
  sleep_idle stops now rows

-- One turn of `run_idle_monitor`.
unfoldable pub idle_pass : (ℕ → Bool) → Action ⊤
unfolding sleep_idle
idle_pass stops = do
  new_session
  now ← gets (λ s. s.env.now)
  rows ← gets (λ s. s.db.hosted)
  sleep_idle stops now rows
