-- ===== src/Webhooks/Delivery.antt =====
-- app/services/webhook_delivery.py: the delivery of pending notifications over HTTP. A post answers
-- with a status code, or raises (`none`); what it answers is outside.
use agent_repository.Common.{
  ℕ, ◌+◌, ◌&&◌, Bool, true, false, not, Option, none, some, List, [], ◌∷◌, lookup, contains, leb,
  ltb, if◌then◌else◌,
}
use agent_repository.Models.{Delivery, WebhookStatus}
use agent_repository.Session.{ok, Action, Session, close}

abbrev pub max_attempts : ℕ
max_attempts = 5

unfoldable pub is_pending : WebhookStatus → Bool
is_pending WebhookStatus.pending = true
is_pending _ = false

-- A failed attempt: after the last one the row has failed for good.
unfoldable pub failed_attempt : Delivery → Delivery
failed_attempt x = record x {
  attempts = x.attempts + 1;
  status = if leb max_attempts (x.attempts + 1) then WebhookStatus.failed else x.status;
}

unfoldable pub attempt : Option ℕ → Delivery → Delivery
unfolding failed_attempt
attempt none x = failed_attempt x
attempt (some code) x =
    if leb 200 code && ltb code 300
    then record x { attempts = x.attempts + 1; status = WebhookStatus.delivered }
    else failed_attempt x

-- The join on agents that have an endpoint, less those with an open socket.
unfoldable pub is_due : Session → Delivery → Bool
unfolding is_pending
is_due s x = is_pending x.status && elim (lookup x.target_agent_id s.db.agents) [
  | some agent ↦ agent.has_endpoint && not (contains x.target_agent_id s.redis.connections)
  | none ↦ false
]

unfoldable pub deliver_row : (Delivery → Option ℕ) → Session → Delivery → Delivery
unfolding is_due attempt
deliver_row post s x = if is_due s x then attempt (post x) x else x

unfoldable pub deliver_rows : (Delivery → Option ℕ) → Session → List Delivery → List Delivery
unfolding deliver_row
deliver_rows post s [] = []
deliver_rows post s (x ∷ xs) = deliver_row post s x ∷ deliver_rows post s xs

-- How many rows were attempted.
unfoldable pub count_due : Session → List Delivery → ℕ
unfolding is_due
count_due s [] = 0
count_due s (x ∷ xs) = (if is_due s x then 1 else 0) + count_due s xs

unfoldable pub deliver_pending_http_webhooks : (Delivery → Option ℕ) → Action ℕ
deliver_pending_http_webhooks post s =
    let d = record s.db { deliveries = deliver_rows post s s.db.deliveries } in
    (ok (count_due s s.db.deliveries), record s { db = d; committed = d })

-- Cycles of the background loop, each in a session of its own.
unfoldable pub run_webhook_delivery_loop : List (Delivery → Option ℕ) → Session → Session
unfolding deliver_pending_http_webhooks
run_webhook_delivery_loop [] s = s
run_webhook_delivery_loop (post ∷ posts) s =
    run_webhook_delivery_loop posts (close (deliver_pending_http_webhooks post s).1)
