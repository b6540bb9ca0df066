-- ===== src/Admin/Stats.antt =====
-- app/routers/admin.py, get_platform_stats: the counts and sums over the tables.
use agent_repository.Common.{
  ℕ, suc, ◌+◌, ℤ, pos, ◌≡◌, refl, Bool, true, false, List, [], ◌∷◌, Dict, length, sum_by,
  if◌then◌else◌, arith,
}
use agent_repository.Models.{
  Db, Agent, AgentStatus, Job, JobStatus, Escrow, DepositTransaction, DepositStatus,
  WithdrawalRequest, WithdrawalStatus, Delivery, WebhookStatus,
}
use agent_repository.Common.Text.{eq_text}
use agent_repository.Session.{Action, gets}
use agent_repository.Escrow.{is_funded}
use agent_repository.Admin.Names.{job_status_value, agent_status_value}
use agent_repository.Pages.{where_rows}

-- `func.count().filter(...)`
unfoldable pub count_where : {A : Type 0} → (A → Bool) → List A → ℕ
unfolding where_rows
count_where p rows = length (where_rows p rows)

abbrev pub is_agent_status : AgentStatus → ℕ × Agent → Bool
is_agent_status st r = eq_text (agent_status_value r.1.status) (agent_status_value st)

-- `GROUP BY status` with a count: one more of a status.
unfoldable pub one_more : JobStatus → List (JobStatus × ℕ) → List (JobStatus × ℕ)
one_more st [] = (st, 1) ∷ []
one_more st ((g, n) ∷ groups) =
    let rest = one_more st groups in
    if eq_text (job_status_value st) (job_status_value g)
    then (g, suc n) ∷ groups
    else (g, n) ∷ rest

unfoldable pub group_jobs : Dict Job → List (JobStatus × ℕ)
unfolding one_more
group_jobs [] = []
group_jobs ((k, j) ∷ jobs) = one_more j.status (group_jobs jobs)

-- `sum(jobs_by_status.values())`
unfoldable pub sum_counts : List (JobStatus × ℕ) → ℕ
sum_counts [] = 0
sum_counts ((g, n) ∷ groups) = n + sum_counts groups

unfoldable pub escrow_held : Escrow → ℤ
unfolding is_funded
escrow_held e = if is_funded e.status then e.amount else pos 0

unfoldable pub credited_deposit : DepositTransaction → ℤ
credited_deposit x = elim x.status [ DepositStatus.credited ↦ x.amount_credits | _ ↦ pos 0 ]

unfoldable pub paid_out : WithdrawalRequest → ℤ
paid_out w = elim w.status [ WithdrawalStatus.completed ↦ w.net_payout | _ ↦ pos 0 ]

unfoldable pub is_open_withdrawal : ℕ × WithdrawalRequest → Bool
is_open_withdrawal r = elim r.1.status [
  | WithdrawalStatus.pending ↦ true
  | WithdrawalStatus.processing ↦ true
  | _ ↦ false
]

unfoldable pub is_failed_delivery : Delivery → Bool
is_failed_delivery x = elim x.status [ WebhookStatus.failed ↦ true | _ ↦ false ]

pub record PlatformStats : Type 0 where
  pub total_agents : ℕ
  pub active_agents : ℕ
  pub suspended_agents : ℕ
  pub deactivated_agents : ℕ
  pub total_accounts : ℕ
  pub verified_accounts : ℕ
  pub total_jobs : ℕ
  pub jobs_by_status : List (JobStatus × ℕ)
  pub total_escrow_held : ℤ
  pub total_deposits : ℤ
  pub total_withdrawals : ℤ
  pub pending_withdrawals : ℕ
  pub total_webhook_deliveries : ℕ
  pub failed_webhook_deliveries : ℕ

unfoldable pub platform_stats : Db → PlatformStats
unfolding count_where group_jobs sum_counts escrow_held credited_deposit paid_out is_open_withdrawal
    is_failed_delivery
platform_stats d = record {
  total_agents = length d.agents;
  active_agents = count_where (is_agent_status AgentStatus.active) d.agents;
  suspended_agents = count_where (is_agent_status AgentStatus.suspended) d.agents;
  deactivated_agents = count_where (is_agent_status AgentStatus.deactivated) d.agents;
  total_accounts = length d.accounts;
  verified_accounts = count_where (λ r. r.1.email_verified) d.accounts;
  total_jobs = sum_counts (group_jobs d.jobs);
  jobs_by_status = group_jobs d.jobs;
  total_escrow_held = sum_by escrow_held d.escrows;
  total_deposits = sum_by credited_deposit d.deposits;
  total_withdrawals = sum_by paid_out d.withdrawals;
  pending_withdrawals = count_where is_open_withdrawal d.withdrawals;
  total_webhook_deliveries = length d.deliveries;
  failed_webhook_deliveries = count_where is_failed_delivery d.deliveries;
}

unfoldable pub get_platform_stats : Action PlatformStats
unfolding platform_stats
get_platform_stats = gets (λ s. platform_stats s.db)

one_more-sum :
    (st : JobStatus) (groups : List (JobStatus × ℕ))
    → sum_counts (one_more st groups) ≡ suc (sum_counts groups)
unfolding one_more sum_counts
one_more-sum st [] = refl
one_more-sum st ((g, n) ∷ groups) = ground (arith, one_more-sum st groups)

group_jobs-sum : (jobs : Dict Job) → sum_counts (group_jobs jobs) ≡ length jobs
unfolding group_jobs sum_counts
group_jobs-sum [] = refl
group_jobs-sum ((k, j) ∷ jobs) =
    ground (arith, one_more-sum j.status (group_jobs jobs), group_jobs-sum jobs)

agents_divided :
    (agents : Dict Agent)
    → count_where (is_agent_status AgentStatus.active) agents
        + count_where (is_agent_status AgentStatus.suspended) agents
        + count_where (is_agent_status AgentStatus.deactivated) agents
      ≡ length agents
unfolding count_where where_rows agent_status_value eq_text
agents_divided [] = refl
agents_divided ((k, a) ∷ agents) = ground (arith, agents_divided agents)

-- The jobs of the groups are all jobs, and the three kinds of agents all agents.
platform_stats-counts :
    (d : Db)
    → ((platform_stats d).total_jobs ≡ length d.jobs)
      × ((platform_stats d).active_agents
            + (platform_stats d).suspended_agents
            + (platform_stats d).deactivated_agents
          ≡ (platform_stats d).total_agents)
unfolding platform_stats
platform_stats-counts d = (group_jobs-sum d.jobs, agents_divided d.agents)
