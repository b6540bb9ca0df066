-- ===== src/Dashboard.antt =====
-- app/routers/dashboard.py: the owner's session on the dashboard. What is drawn from the rows as
-- JSON or HTML is left out; an answer with an error status is an error.
pub mod Sessions
use agent_repository.Common.{ℕ, ◌+◌, Bool, true, false, none, some, lookup, find_row, ltb, ◌==◌}
use agent_repository.Models.{Account, Agent, AgentStatus}
use agent_repository.Session.{
  ◌>>=◌, ◌>>◌, ⊤, Action, invalid_token, agent_not_found, bad_request, pure, gets, or_raise,
  raise_if, when, commit, write_agent,
}
use agent_repository.Accounts.{write_account, find_account, is_eligible}

abbrev pub dashboard_token_expiry : ℕ
dashboard_token_expiry = 3600

abbrev pub holds_token : ℕ → Account → Bool
holds_token token a = elim a.dashboard_token [ some t ↦ t == token | none ↦ false ]

unfoldable pub is_expired : ℕ → Account → Bool
is_expired now a = elim a.dashboard_token_expires_at [ some t ↦ ltb t now | none ↦ true ]

-- `_get_account_by_dashboard_token`, for a caller that answers 401 to its None.
unfoldable pub get_account_by_token : ℕ → ℕ → Action (ℕ × Account)
unfolding is_expired
get_account_by_token now token = do
  row ← or_raise (← gets (λ s. find_row (holds_token token) s.db.accounts)) invalid_token
  raise_if (is_expired now row.1) invalid_token
  pure row

-- A new token takes the old one's place.
unfoldable pub refresh_token : ℕ → ℕ → ℕ → Action ⊤
refresh_token fresh now email = write_account email λ a. record a {
  dashboard_token = some fresh;
  dashboard_token_expires_at = some (now + dashboard_token_expiry);
}

-- `db.get(Agent, account.agent_id)`
unfoldable pub linked_agent : Account → Action (ℕ × Agent)
linked_agent account = do
  agent_id ← or_raise account.agent_id agent_not_found
  agent ← or_raise (← gets (λ s. lookup agent_id s.db.agents)) agent_not_found
  pure (agent_id, agent)

-- The polling endpoint: the answer has the agent, and not the token that is drawn.
unfoldable pub dashboard_data : ℕ → ℕ → ℕ → Action Agent
unfolding get_account_by_token refresh_token linked_agent
dashboard_data fresh now token = do
  row ← get_account_by_token now token
  agent ← linked_agent row.1
  refresh_token fresh now row.0
  commit
  pure agent.1

unfoldable pub is_deactivated : AgentStatus → Bool
is_deactivated AgentStatus.deactivated = true
is_deactivated _ = false

unfoldable pub dashboard_deactivate : ℕ → ℕ → Action ⊤
unfolding get_account_by_token linked_agent is_deactivated
dashboard_deactivate now token = do
  row ← get_account_by_token now token
  agent ← linked_agent row.1
  raise_if (is_deactivated agent.1.status) bad_request
  write_agent agent.0 (λ a. record a { status = AgentStatus.deactivated })
  write_account row.0
      (λ a. record a { agent_id = none; dashboard_token = none; dashboard_token_expires_at = none })
  commit

-- The page has the new token in it.
unfoldable pub dashboard : ℕ → ℕ → ℕ → Action (Agent × ℕ)
unfolding get_account_by_token refresh_token linked_agent
dashboard fresh now token = do
  row ← get_account_by_token now token
  agent ← linked_agent row.1
  refresh_token fresh now row.0
  commit
  pure (agent.1, fresh)

-- The token goes to the address, if it is known; the answer does not tell.
unfoldable pub dashboard_login : ℕ → ℕ → ℕ → Action ⊤
unfolding refresh_token is_eligible
dashboard_login fresh now email = do
  account ← find_account email
  when (is_eligible account) (do refresh_token fresh now email; commit)
