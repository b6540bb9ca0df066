-- ===== src/Admin/Lists.antt =====
-- The tables that the operator and an agent page through: app/routers/admin.py and
-- app/routers/webhooks.py. A summary is the row itself. Newest first is the order against that of
-- insertion. The match of a search with a name is left to the database.
use agent_repository.Common.{
  ℕ, ◌==◌, Bool, true, not, ◌&&◌, ◌||◌, Option, none, some, List, leb, if◌then◌else◌,
}
use agent_repository.Common.Text.{Text, eq_text, is_empty}
use agent_repository.Models.{
  Agent, Job, Escrow, Account, DepositTransaction, WithdrawalRequest, Delivery,
}
use agent_repository.Session.{
  ◌>>=◌, ◌>>◌, ⊤, Action, invalid_input, bad_request, not_a_party, pure, raise_if, or_raise, gets,
}
use agent_repository.Pages.{Page, select_page}
use agent_repository.Admin.Names

-- `Query(20, ge=1, le=100)`
abbrev pub check_limit : ℕ → Action ⊤
check_limit limit = raise_if (not (leb 1 limit && leb limit 100)) invalid_input

-- The filter on an enumeration: an empty text is none, one that names no value is refused.
unfoldable pub status_filter :
    {S A : Type 0} → (S → Text) → List S → (A → S) → Option Text → Action (A → Bool)
unfolding Names.of_value
status_filter value all status_of none = pure (λ a. true)
status_filter value all status_of (some text) = if is_empty text then pure (λ a. true) else (do
  status ← or_raise (Names.of_value value all text) bad_request
  pure (λ a. eq_text (value (status_of a)) (value status)))

-- A filter that is not given keeps every row.
abbrev pub optional : {A B : Type 0} → (B → A → Bool) → Option B → A → Bool
optional p none a = true
optional p (some b) a = p b a

abbrev pub both : {A : Type 0} → (A → Bool) → (A → Bool) → A → Bool
both p q a = p a && q a

-- `ilike` is the match of a search with the display name of an agent, or with an email.
unfoldable pub list_agents :
    (Text → ℕ → Bool) → Option Text → Option Text → ℕ → ℕ → Action (Page (ℕ × Agent))
unfolding status_filter select_page
list_agents ilike status search limit offset = do
  check_limit limit
  by_status ←
      status_filter Names.agent_status_value Names.agent_status_all (λ (r : ℕ × Agent). r.1.status)
        status
  gets (λ s.
      select_page (both by_status (optional (λ t r. is_empty t || ilike t r.0) search)) limit offset
        s.db.agents)

unfoldable pub list_jobs : Option Text → Option ℕ → ℕ → ℕ → Action (Page (ℕ × Job))
unfolding status_filter select_page
list_jobs status agent_id limit offset = do
  check_limit limit
  by_status ←
      status_filter Names.job_status_value Names.job_status_all (λ (r : ℕ × Job). r.1.status) status
  gets (λ s.
      select_page
        (both by_status
          (optional (λ k r. r.1.client_agent_id == k || r.1.seller_agent_id == k) agent_id))
        limit offset s.db.jobs)

unfoldable pub list_escrows : Option Text → ℕ → ℕ → Action (Page (ℕ × Escrow))
unfolding status_filter select_page
list_escrows status limit offset = do
  check_limit limit
  by_status ←
      status_filter Names.escrow_status_value Names.escrow_status_all
        (λ (r : ℕ × Escrow). r.1.status) status
  gets (λ s. select_page by_status limit offset s.db.escrows)

unfoldable pub list_accounts :
    (Text → ℕ → Bool) → Option Bool → Option Text → ℕ → ℕ → Action (Page (ℕ × Account))
unfolding select_page
list_accounts ilike verified search limit offset = do
  check_limit limit
  gets (λ s.
      select_page
        (both (optional (λ b r. if b then r.1.email_verified else not r.1.email_verified) verified)
          (optional (λ t r. is_empty t || ilike t r.0) search))
        limit offset s.db.accounts)

unfoldable pub list_deposits :
    Option Text → Option ℕ → ℕ → ℕ → Action (Page (ℕ × DepositTransaction))
unfolding status_filter select_page
list_deposits status agent_id limit offset = do
  check_limit limit
  by_status ←
      status_filter Names.deposit_status_value Names.deposit_status_all
        (λ (r : ℕ × DepositTransaction). r.1.status) status
  gets (λ s.
      select_page (both by_status (optional (λ k r. r.1.agent_id == k) agent_id)) limit offset
        s.db.deposits)

unfoldable pub list_withdrawals :
    Option Text → Option ℕ → ℕ → ℕ → Action (Page (ℕ × WithdrawalRequest))
unfolding status_filter select_page
list_withdrawals status agent_id limit offset = do
  check_limit limit
  by_status ←
      status_filter Names.withdrawal_status_value Names.withdrawal_status_all
        (λ (r : ℕ × WithdrawalRequest). r.1.status) status
  gets (λ s.
      select_page (both by_status (optional (λ k r. r.1.agent_id == k) agent_id)) limit offset
        s.db.withdrawals)

unfoldable pub list_webhooks : Option Text → Option ℕ → ℕ → ℕ → Action (Page Delivery)
unfolding status_filter select_page
list_webhooks status agent_id limit offset = do
  check_limit limit
  by_status ←
      status_filter Names.webhook_status_value Names.webhook_status_all Delivery.status status
  gets (λ s.
      select_page (both by_status (optional (λ k r. r.target_agent_id == k) agent_id)) limit offset
        s.db.deliveries)

unfoldable pub own_status : Option Text → Action (Delivery → Bool)
unfolding Names.of_value
own_status none = pure (λ r. true)
own_status (some text) = do
  status ←
      or_raise (Names.of_value Names.webhook_status_value Names.webhook_status_all text) bad_request
  pure (λ r. eq_text (Names.webhook_status_value r.status) (Names.webhook_status_value status))

-- The own rows of an agent, `caller` being the agent that signed the request; here an empty status is
-- refused like any that names none.
unfoldable pub list_webhook_deliveries : ℕ → ℕ → Option Text → ℕ → ℕ → Action (List Delivery)
unfolding own_status select_page
list_webhook_deliveries agent_id caller status limit offset = do
  check_limit limit
  raise_if (not (caller == agent_id)) not_a_party
  by_status ← own_status status
  gets (λ s.
      (select_page (both (λ r. r.target_agent_id == agent_id) by_status) limit offset
        s.db.deliveries).items)
