-- ===== src/Dashboard/Sessions.antt =====
-- A token of the dashboard after it has been used.
use agent_repository.Common.{
  ◌+◌, ap, ◌∙◌, ℕ, ◌≡◌, false, inl, inr, Option-cases, none, some, HasKeys, AtMostOne, find_row,
  find_row-adjust, adjust, arith, ◌==◌,
}
use agent_repository.Models.{Account, Agent, AgentStatus}
use agent_repository.Session.{Session, ok, err, invalid_token}
use agent_repository.Dashboard.{
  holds_token, dashboard_token_expiry, dashboard_data, dashboard_deactivate,
}

abbrev refreshed : ℕ → ℕ → Account → Account
refreshed fresh now a = record a {
  dashboard_token = some fresh;
  dashboard_token_expires_at = some (now + dashboard_token_expiry);
}

dashboard_data-row :
    (fresh now token k : ℕ) (s : Session) (a : Account) (agent : Agent)
    → find_row (holds_token token) s.db.accounts ≡ some (k, a)
    → (dashboard_data fresh now token s).0 ≡ ok agent
    → (dashboard_data fresh now token s).1.db.accounts
      ≡ adjust k (refreshed fresh now) s.db.accounts
unfolding dashboard_data
dashboard_data-row fresh now token k s a agent found success = ground arith

dashboard_data-none :
    (fresh now token : ℕ) (s : Session)
    → find_row (holds_token token) s.db.accounts ≡ none
    → (dashboard_data fresh now token s).0 ≡ err invalid_token
unfolding dashboard_data
dashboard_data-none fresh now token s none_left = ground arith

-- After a poll that succeeded, the token of the poll is refused.
dashboard_data-once :
    (fresh other now later token : ℕ) (s : Session) (agent : Agent)
    → HasKeys s.db.accounts
    → AtMostOne (holds_token token) s.db.accounts
    → (fresh == token) ≡ false
    → (dashboard_data fresh now token s).0 ≡ ok agent
    → (dashboard_data other later token (dashboard_data fresh now token s).1).0 ≡ err invalid_token
dashboard_data-once fresh other now later token s agent keys one differs success =
    elim (Option-cases (find_row (holds_token token) s.db.accounts)) [
      | inl absent ↦
          let refused = dashboard_data-none fresh now token s absent in ground (arith, refused)
      | inr ((k, a), found) ↦
          let gone =
            find_row-adjust (holds_token token) (refreshed fresh now) k a s.db.accounts keys one
              found differs in
          dashboard_data-none other later token (dashboard_data fresh now token s).1 (
            ap (λ d. find_row (holds_token token) d)
              (dashboard_data-row fresh now token k s a agent found success)
            ∙ gone)
    ]

-- A deactivation from the dashboard changes the status of the agent, and no job and no escrow.
dashboard_deactivate-jobs :
    (now token k agent_id : ℕ) (s : Session) (a : Account)
    → find_row (holds_token token) s.db.accounts ≡ some (k, a)
    → a.agent_id ≡ some agent_id
    → (dashboard_deactivate now token s).0 ≡ ok tt
    → let u = (dashboard_deactivate now token s).1.committed in
      (u.jobs ≡ s.db.jobs)
      × (u.escrows ≡ s.db.escrows)
      × (u.agents
          ≡ adjust agent_id (λ b. record b { status = AgentStatus.deactivated }) s.db.agents)
unfolding dashboard_deactivate
dashboard_deactivate-jobs now token k agent_id s a found linked success = ground arith
