-- ===== src/Startup.antt =====
-- app/main.py: what a start of the server takes up again. The tasks that it spawns run one after the
-- other here.
pub mod Recovered
pub mod Tasks
use agent_repository.Common.{
  ℕ, Bool, true, false, not, Option, none, some, List, [], ◌∷◌, Dict, insert, if◌then◌else◌,
}
use agent_repository.Models.{Job, JobStatus, DepositTransaction, DepositStatus, WithdrawalRequest}
use agent_repository.Session.{
  ◌>>=◌, ◌>>◌, ⊤, Action, Session, redis_failure, pure, gets, raise_if, quietly, modify_redis,
  close,
}
use agent_repository.Wallet.{Chain, process_withdrawal, wait_and_credit_deposit}
use agent_repository.Admin.Stats.{is_open_withdrawal}

unfoldable pub has_deadline_status : JobStatus → Bool
has_deadline_status JobStatus.funded = true
has_deadline_status JobStatus.in_progress = true
has_deadline_status JobStatus.delivered = true
has_deadline_status _ = false

-- The jobs that wait for their deadline, with it.
unfoldable pub waiting_jobs : Dict Job → Dict ℕ
unfolding has_deadline_status
waiting_jobs [] = []
waiting_jobs ((k, j) ∷ jobs) =
    let rest = waiting_jobs jobs in
    if has_deadline_status j.status
    then elim j.delivery_deadline [ some t ↦ (k, t) ∷ rest | none ↦ rest ]
    else rest

-- ZADD of each; Redis that is down raises.
unfoldable pub enqueue_all : Dict ℕ → Action ⊤
enqueue_all [] = pure tt
enqueue_all ((k, t) ∷ jobs) = do
  up ← gets (λ s. s.env.redis_up)
  raise_if (not up) redis_failure
  modify_redis λ r. record r { deadlines = insert k t r.deadlines }
  enqueue_all jobs

unfoldable pub recover_deadlines : Action ⊤
unfolding waiting_jobs enqueue_all
recover_deadlines = quietly (do jobs ← gets (λ s. waiting_jobs s.db.jobs); enqueue_all jobs)

-- A task has a session of its own, and keeps what it raises to itself.
unfoldable pub run_task : Action ⊤ → Session → Session
run_task m s = close (m (close s)).1

unfoldable pub run_withdrawals : Chain → Dict WithdrawalRequest → Session → Session
unfolding run_task
run_withdrawals chain [] s = s
run_withdrawals chain ((k, w) ∷ rows) s =
    run_withdrawals chain rows
      (if is_open_withdrawal (k, w) then run_task (process_withdrawal chain k) s else s)

unfoldable pub is_confirming : DepositStatus → Bool
is_confirming DepositStatus.confirming = true
is_confirming _ = false

-- `seen` are the block numbers that each task sees.
unfoldable pub run_deposits : (ℕ → List (Option ℕ)) → Dict DepositTransaction → Session → Session
unfolding run_task is_confirming
run_deposits seen [] s = s
run_deposits seen ((k, x) ∷ rows) s = run_deposits seen rows (
    if is_confirming x.status
    then run_task (wait_and_credit_deposit k x.block_number (seen k)) s
    else s)

unfoldable pub recover_wallet_tasks : Chain → (ℕ → List (Option ℕ)) → Session → Session
unfolding run_withdrawals run_deposits
recover_wallet_tasks chain seen s =
    run_withdrawals chain s.db.withdrawals (run_deposits seen s.db.deposits s)
