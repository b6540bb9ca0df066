-- ===== src/Webhooks.antt =====
-- Notifications to the parties of a job: app/services/webhooks.py, the connection manager
-- (app/services/connection_manager.py) and the waking of a hosted agent
-- (app/services/hosting/scaler.py). Enqueueing a notification commits the session.
pub mod Quiet
pub mod Delivery
pub mod Attempts
pub mod Redelivery
use agent_repository.Common.{
  ℕ, Bool, true, false, not, Option, none, some, [], ◌∷◌, ◌++◌, lookup, contains, adjust, insert,
  erase, if◌then◌else◌,
}
use agent_repository.Common.Text.{Text}
use agent_repository.Models.{
  EventType, TaskState, job_proposed, job_counter_received, job_accepted, job_funded, job_started,
  job_delivered, job_completed, job_failed, job_cancelled, Job, HostedAgent, DeploymentStatus,
  WebhookStatus,
}
use agent_repository.Session.{
  ◌>>=◌, ◌>>◌, ⊤, Action, pure, gets, ◌>>◌, when, modify_db, modify_redis, commit,
}

-- `_EVENT_STATE_MAP`
unfoldable pub event_state : EventType → TaskState
event_state job_proposed = TaskState.submitted
event_state job_counter_received = TaskState.submitted
event_state job_accepted = TaskState.submitted
event_state job_funded = TaskState.submitted
event_state job_started = TaskState.working
event_state job_delivered = TaskState.working
event_state job_completed = TaskState.completed
event_state job_failed = TaskState.failed
event_state job_cancelled = TaskState.failed

-- `ConnectionManager.is_connected`, `.connect`, `.disconnect` and `.send_event`
unfoldable pub is_connected : ℕ → Action Bool
is_connected agent_id = gets (λ s. contains agent_id s.redis.connections)

unfoldable pub connect : ℕ → Action ⊤
connect agent_id = modify_redis λ r. record r { connections = insert agent_id tt r.connections }

unfoldable pub disconnect : ℕ → Action ⊤
disconnect agent_id = modify_redis λ r. record r { connections = erase agent_id r.connections }

unfoldable pub send_event : ℕ → Action Bool
unfolding is_connected disconnect
send_event agent_id = do
  open_socket ← is_connected agent_id
  if not open_socket then pure false else do
    sent ← gets (λ s. s.env.sends agent_id)
    if sent then pure true else disconnect agent_id >> pure false

-- Attribute writes on the row of a hosted agent.
abbrev pub write_hosted : ℕ → (HostedAgent → HostedAgent) → Action ⊤
write_hosted agent_id f = modify_db λ d. record d { hosted = adjust agent_id f d.hosted }

abbrev is_sleeping : DeploymentStatus → Bool
is_sleeping DeploymentStatus.sleeping = true
is_sleeping _ = false

unfoldable pub is_hosted_and_sleeping : ℕ → Action Bool
is_hosted_and_sleeping agent_id =
    gets (λ s. elim (lookup agent_id s.db.hosted) [ some h ↦ is_sleeping h.status | none ↦ false ])

abbrev wake_failed : Text
wake_failed =
    b'W' ∷ b'a' ∷ b'k' ∷ b'e' ∷ b' ' ∷ b'f' ∷ b'a' ∷ b'i' ∷ b'l' ∷ b'e' ∷ b'd' ∷ b':' ∷ b' ' ∷ []

-- The row after the container was started, and when it could not be.
unfoldable pub woken : Bool → Text → HostedAgent → HostedAgent
woken true e h = record h { status = DeploymentStatus.running }
woken false e h = record h {
  status = DeploymentStatus.sleeping;
  error_message = some (wake_failed ++ e);
}

unfoldable pub settle_container : ℕ → Bool → Action Bool
unfolding woken
settle_container agent_id awake = do
  e ← gets (λ s. s.env.wake_error agent_id)
  write_hosted agent_id (woken awake e)
  commit
  pure awake

-- The container comes up and the agent connects within the timeout, or the row sleeps again.
unfoldable pub start_container : ℕ → Action Bool
unfolding connect settle_container
start_container agent_id = do
  now ← gets (λ s. s.env.now)
  write_hosted agent_id
      (λ h. record h { status = DeploymentStatus.deploying; last_activity_at = some now })
  commit
  awake ← gets (λ s. s.env.wakes agent_id)
  connects ← gets (λ s. s.env.connects agent_id)
  when (if awake then connects else false) (connect agent_id)
  settle_container agent_id awake

unfoldable pub wake_status : ℕ → DeploymentStatus → Action Bool
unfolding start_container
wake_status agent_id DeploymentStatus.running = do
  now ← gets (λ s. s.env.now)
  write_hosted agent_id (λ h. record h { last_activity_at = some now })
  pure true
wake_status agent_id DeploymentStatus.sleeping = start_container agent_id
wake_status agent_id _ = pure false

unfoldable pub wake_row : ℕ → Option HostedAgent → Action Bool
unfolding wake_status
wake_row agent_id none = pure false
wake_row agent_id (some h) = wake_status agent_id h.status

unfoldable pub wake_agent : ℕ → Action Bool
unfolding wake_row
wake_agent agent_id = do hosted ← gets (λ s. lookup agent_id s.db.hosted); wake_row agent_id hosted

-- The row of a notification, sent or still to be sent.
record_delivery : ℕ → EventType → ℕ → Bool → Action ⊤
unfolding event_state
record_delivery agent_id event job_id sent = do
  modify_db λ d. record d {
    deliveries =
        d.deliveries
        ++ record {
          target_agent_id = agent_id;
          event_type = event;
          job_id = job_id;
          state = event_state event;
          status = if sent then WebhookStatus.delivered else WebhookStatus.pending;
          attempts = 0;
        }
          ∷ [];
  }
  commit

unfoldable pub enqueue_webhook : ℕ → EventType → ℕ → Action ⊤
unfolding is_connected is_hosted_and_sleeping wake_agent send_event record_delivery
enqueue_webhook agent_id event job_id = do
  connected ← is_connected agent_id
  sleeping ← is_hosted_and_sleeping agent_id
  when (if connected then false else sleeping) (do wake_agent agent_id; pure tt)
  sent ← send_event agent_id
  record_delivery agent_id event job_id sent

notify_parties : Option Job → EventType → ℕ → Action ⊤
notify_parties none event job_id = pure tt
notify_parties (some job) event job_id = do
  enqueue_webhook job.client_agent_id event job_id
  enqueue_webhook job.seller_agent_id event job_id

unfoldable pub notify_job_event : ℕ → EventType → Action ⊤
unfolding notify_parties
notify_job_event job_id event = do
  job ← gets (λ s. lookup job_id s.db.jobs)
  notify_parties job event job_id
