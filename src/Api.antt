-- ===== src/Api.antt =====
-- The endpoints of app/routers/jobs.py, the enforcement of a deadline (`_fail_overdue_job` of
-- app/services/deadline_queue.py), and serving a sequence of requests, each in a
-- session of its own. The caller is the agent that
-- `verify_request` has authenticated.
pub mod Failed
pub mod Serve
use agent_repository.Common.{
  ℕ, ℤ, Bool, true, false, not, Option, none, some, lookup, contains, insert, erase, is_some,
  if◌then◌else◌,
}
use agent_repository.Models.{
  Job, JobStatus, Criteria, Digest, Deliverable, job_proposed, job_counter_received, job_accepted,
  job_funded, job_started, job_delivered, job_completed, job_failed, job_cancelled,
}
use agent_repository.Settings.{Rate}
use agent_repository.Session.{
  ◌>>=◌, ◌>>◌, ⊤, Session, Action, only_client, wrong_status, has_criteria, verification_running,
  bad_criteria, invalid_input, redis_failure, sandbox_failure, no_result, pure, raise, gets, ◌>>◌,
  or_raise, raise_if, when, quietly, finally, modify_redis, commit, get_job, find_agent,
  write_agent, write_job,
}
use agent_repository.Webhooks.{notify_job_event}
use agent_repository.Fees.{calculate_verification_fee, calculate_storage_fee, charge_fee}
use agent_repository.Escrow.{credit, debit, can_pay, set_job_status, release_escrow}
use agent_repository.Escrow
use agent_repository.Jobs.{
  JobProposal, CounterProposal, validate_proposal, validate_counter, validate_deliverable,
  is_client, assert_party, job_response,
}
use agent_repository.Jobs

unfoldable pub propose_job : ℕ → ℕ → JobProposal → Action ⊤
propose_job job_id caller p = do
  script_ok ← gets (λ s. s.env.script_ok)
  raise_if (not (validate_proposal script_ok p)) invalid_input
  Jobs.propose_job job_id caller p
  notify_job_event job_id job_proposed

-- Only the parties see a job.
unfoldable pub get_job_view : ℕ → ℕ → Action Job
unfolding assert_party
get_job_view job_id caller = do
  job ← get_job job_id
  assert_party job caller
  pure (job_response job)

unfoldable pub counter_job : ℕ → ℕ → CounterProposal → Action ⊤
counter_job job_id caller p = do
  raise_if (not (validate_counter p)) invalid_input
  Jobs.counter_job job_id caller p
  notify_job_event job_id job_counter_received

unfoldable pub accept_job : ℕ → ℕ → Option Digest → Action ⊤
accept_job job_id caller hash = do
  Jobs.accept_job job_id caller hash
  notify_job_event job_id job_accepted

unfoldable pub fund_job : ℕ → ℕ → ℕ → Action ⊤
fund_job escrow_id job_id caller = do
  Escrow.fund_job escrow_id job_id caller
  notify_job_event job_id job_funded

unfoldable pub complete_job : ℕ → ℕ → Action ⊤
unfolding is_client
complete_job job_id caller = do
  job ← get_job job_id
  raise_if (not (is_client job caller)) only_client
  raise_if (is_some job.acceptance_criteria) has_criteria
  release_escrow job_id
  notify_job_event job_id job_completed

unfoldable pub start_job : ℕ → ℕ → Action ⊤
start_job job_id caller = do Jobs.start_job job_id caller; notify_job_event job_id job_started

-- The delivery is committed before the storage fee is charged.
unfoldable pub deliver_job : ℕ → ℕ → Deliverable → Action ⊤
deliver_job job_id caller result = do
  raise_if (not (validate_deliverable result)) invalid_input
  Jobs.deliver_job job_id caller result
  cfg ← gets (λ s. s.env.settings)
  charge_fee caller (calculate_storage_fee cfg result)
  notify_job_event job_id job_delivered

unfoldable pub is_delivered : JobStatus → Bool
is_delivered JobStatus.delivered = true
is_delivered _ = false

abbrev pub no_cpu : Rate
no_cpu = record { num = 0; scale = 1 }

-- No script: the minimum fee, and the job is completed.
unfoldable pub verify_without_script : ℕ → ℕ → Action ⊤
verify_without_script job_id caller = do
  cfg ← gets (λ s. s.env.settings)
  charge_fee caller (calculate_verification_fee cfg no_cpu)
  release_escrow job_id

-- A failed run costs the seller, who may deliver again: the client's fee is returned.
unfoldable pub settle_failed : ℕ → Job → ℕ → ℤ → Action ⊤
settle_failed job_id job caller fee = do
  or_raise (← find_agent caller) no_result
  write_agent caller (credit fee)
  seller ← or_raise (← find_agent job.seller_agent_id) no_result
  when (can_pay fee (some seller)) (write_agent job.seller_agent_id (debit fee))
  write_job job_id (set_job_status JobStatus.in_progress)
  commit

unfoldable pub verification_failed : ℕ → Job → ℕ → ℤ → Action ⊤
verification_failed job_id job caller fee = do
  settle_failed job_id job caller fee
  notify_job_event job_id job_failed

unfoldable pub verify_by_script : ℕ → Job → ℕ → ℕ → Action ⊤
verify_by_script job_id job caller script = do
  env ← gets (λ s. s.env)
  run ← or_raise (env.run_script script job.result) sandbox_failure
  let fee = calculate_verification_fee env.settings run.elapsed
  charge_fee caller fee
  if run.passed
      then (do release_escrow job_id; notify_job_event job_id job_completed)
      else verification_failed job_id job caller fee

unfoldable pub verify_criteria : ℕ → Job → ℕ → Option Criteria → Action ⊤
unfolding verify_without_script verify_by_script
verify_criteria job_id job caller none = verify_without_script job_id caller
verify_criteria job_id job caller (some Criteria.empty) = verify_without_script job_id caller
verify_criteria job_id job caller (some (Criteria.declarative n)) = raise bad_criteria
verify_criteria job_id job caller (some (Criteria.script n)) = verify_by_script job_id job caller n

unfoldable pub verify_locked : ℕ → ℕ → Action ⊤
unfolding is_client is_delivered verify_criteria
verify_locked job_id caller = do
  job ← get_job job_id
  raise_if (not (is_client job caller)) only_client
  raise_if (not (is_delivered job.status)) wrong_status
  verify_criteria job_id job caller job.acceptance_criteria

abbrev pub unlock : ℕ → Session → Session
unlock job_id s = record s {
  redis = record s.redis { verify_locks = erase job_id s.redis.verify_locks };
}

-- One verification of a job at a time: `SET NX` on a key, deleted however the run ends.
unfoldable pub verify_job : ℕ → ℕ → Action ⊤
unfolding verify_locked
verify_job job_id caller = do
  up ← gets (λ s. s.env.redis_up)
  raise_if (not up) redis_failure
  running ← gets (λ s. contains job_id s.redis.verify_locks)
  raise_if running verification_running
  modify_redis λ r. record r { verify_locks = insert job_id tt r.verify_locks }
  finally (verify_locked job_id caller) (unlock job_id)

unfoldable pub fail_job : ℕ → ℕ → Action ⊤
fail_job job_id caller = do
  job ← get_job job_id
  raise_if (is_some job.acceptance_criteria) has_criteria
  Jobs.fail_job job_id caller
  notify_job_event job_id job_failed

unfoldable pub is_abortable : JobStatus → Bool
is_abortable JobStatus.funded = true
is_abortable JobStatus.in_progress = true
is_abortable JobStatus.delivered = true
is_abortable _ = false

unfoldable pub abort_job : ℕ → ℕ → Action ⊤
unfolding assert_party is_abortable
abort_job job_id caller = do
  job ← get_job job_id
  assert_party job caller
  raise_if (not (is_abortable job.status)) wrong_status
  Escrow.abort_job job_id caller false
  notify_job_event job_id job_cancelled

-- `_fail_overdue_job`, on the job that it finds.
unfoldable pub enforce_deadline : ℕ → Option Job → Action ⊤
unfolding is_abortable
enforce_deadline job_id none = pure tt
enforce_deadline job_id (some job) =
    when (is_abortable job.status) (Escrow.abort_job job_id job.seller_agent_id true)

unfoldable pub fail_overdue_job : ℕ → Action ⊤
unfolding enforce_deadline
fail_overdue_job job_id =
    quietly do job ← gets (λ s. lookup job_id s.db.jobs); enforce_deadline job_id job
