-- ===== src/Webhooks/Redelivery.antt =====
-- app/routers/webhooks.py, redeliver_webhook: an agent puts one of its own rows of
-- `webhook_deliveries` back to pending. A row is named by its position in the table.
use agent_repository.Common.{ℕ, ◌==◌, not, get_elem?, adjust_elem}
use agent_repository.Models.{Delivery, WebhookStatus}
use agent_repository.Session.{
  ◌>>=◌, ◌>>◌, ⊤, Action, not_found, duplicate, not_a_party, gets, or_raise, raise_if, modify_db,
  commit,
}
use agent_repository.Webhooks.Delivery.{is_pending}

unfoldable pub pending_again : Delivery → Delivery
pending_again x = record x { status = WebhookStatus.pending; attempts = 0 }

unfoldable pub reset_delivery : ℕ → Action ⊤
unfolding pending_again
reset_delivery delivery_id =
    modify_db λ d. record d { deliveries = adjust_elem delivery_id pending_again d.deliveries }

-- `caller` is the agent that signed the request.
unfoldable pub redeliver_webhook : ℕ → ℕ → ℕ → Action ⊤
unfolding reset_delivery
redeliver_webhook agent_id delivery_id caller = do
  raise_if (not (caller == agent_id)) not_a_party
  delivery ← or_raise (← gets (λ s. get_elem? s.db.deliveries delivery_id)) not_found
  raise_if (not (delivery.target_agent_id == agent_id)) not_found
  raise_if (is_pending delivery.status) duplicate
  reset_delivery delivery_id
  commit
