-- ===== src/Lifecycle/Endpoints.antt =====
-- Every endpoint, and the enforcement of a deadline, writes by steps.
use agent_repository.Common.{
  inl, inr, true, false, ◌||◌, none, some, is_some, Bool-cases, ℕ, not, Option, lookup,
}
use agent_repository.Models.{
  job_failed, job_cancelled, Job, Db, Digest, Deliverable, EventType, job_proposed,
  job_counter_received, job_accepted, job_funded, job_started, job_delivered, job_completed,
}
use agent_repository.Session.{
  ⊤, Env, Session, Action, Result, ok, err, invalid_input, wrong_status, job_not_found, only_client,
  has_criteria, not_a_party, gets, ◌>>=◌, ◌>>◌, raise_if,
}
use agent_repository.Linked.{IsLinked}
use agent_repository.Webhooks.{notify_job_event}
use agent_repository.Fees.{calculate_storage_fee, charge_fee}
use agent_repository.Escrow
use agent_repository.Jobs.{JobProposal, CounterProposal}
use agent_repository.Jobs
use agent_repository.Api
use agent_repository.Lifecycle.Reached.{
  Reached, Post, bind-Post, raise_if-Post, or_raise-Post, notify-Post, charge-Post,
}
use agent_repository.Lifecycle.Refine.{
  fail-Post, abort-Post, fund-Post, release-Post, propose-Post, counter-Post, accept-Post,
  start-Post, deliver-Post,
}
use agent_repository.Lifecycle.{Steps}

abbrev charge_storage : ℕ → ℕ → Deliverable → Action ⊤
charge_storage job_id caller result = do
  cfg ← gets (λ s. s.env.settings)
  charge_fee caller (calculate_storage_fee cfg result)
  notify_job_event job_id job_delivered

module _ (env : Env) (d : Db) (links : IsLinked d) where
  -- An operation, and then its notification.
  notified :
      (m : Action ⊤) (job_id : ℕ) (event : EventType) (s : Session)
      → Post env d (m s)
      → Post env d ((m >> notify_job_event job_id event) s)
  notified m job_id event s h =
      bind-Post env d (m s) (λ _. notify_job_event job_id event) h
        λ _ t r. notify-Post env d job_id event t r

  pub propose_job-Post :
      (job_id caller : ℕ) (p : JobProposal) (s : Session)
      → Reached env d s
      → Post env d (Api.propose_job job_id caller p s)
  unfolding Api.propose_job
  propose_job-Post job_id caller p s r =
      raise_if-Post env d (not (Jobs.validate_proposal s.env.script_ok p)) invalid_input
        (Jobs.propose_job job_id caller p >> notify_job_event job_id job_proposed) s r
        λ _.
          notified (Jobs.propose_job job_id caller p) job_id job_proposed s
            (propose-Post env d links job_id caller p s r)

  pub counter_job-Post :
      (job_id caller : ℕ) (p : CounterProposal) (s : Session)
      → Reached env d s
      → Post env d (Api.counter_job job_id caller p s)
  unfolding Api.counter_job
  counter_job-Post job_id caller p s r =
      raise_if-Post env d (not (Jobs.validate_counter p)) invalid_input
        (Jobs.counter_job job_id caller p >> notify_job_event job_id job_counter_received) s r
        λ _.
          notified (Jobs.counter_job job_id caller p) job_id job_counter_received s
            (counter-Post env d links job_id caller p s r)

  pub accept_job-Post :
      (job_id caller : ℕ) (hash : Option Digest) (s : Session)
      → Reached env d s
      → Post env d (Api.accept_job job_id caller hash s)
  unfolding Api.accept_job
  accept_job-Post job_id caller hash s r =
      notified (Jobs.accept_job job_id caller hash) job_id job_accepted s
        (accept-Post env d links job_id caller hash s r)

  pub fund_job-Post :
      (escrow_id job_id caller : ℕ) (s : Session)
      → Reached env d s
      → Post env d (Api.fund_job escrow_id job_id caller s)
  unfolding Api.fund_job
  fund_job-Post escrow_id job_id caller s r =
      notified (Escrow.fund_job escrow_id job_id caller) job_id job_funded s
        (fund-Post env d links escrow_id job_id caller s r)

  pub complete_job-Post :
      (job_id caller : ℕ) (s : Session)
      → Reached env d s
      → Post env d (Api.complete_job job_id caller s)
  unfolding Api.complete_job
  complete_job-Post job_id caller s r =
      or_raise-Post env d (lookup job_id s.db.jobs) job_not_found
        (λ job.
          raise_if (not (Jobs.is_client job caller)) only_client
          >> (raise_if (is_some job.acceptance_criteria) has_criteria
              >> (Escrow.release_escrow job_id >> notify_job_event job_id job_completed)))
        s r
        λ job found.
          raise_if-Post env d (not (Jobs.is_client job caller)) only_client
            (raise_if (is_some job.acceptance_criteria) has_criteria
              >> (Escrow.release_escrow job_id >> notify_job_event job_id job_completed))
            s r
            λ _.
              raise_if-Post env d (is_some job.acceptance_criteria) has_criteria
                (Escrow.release_escrow job_id >> notify_job_event job_id job_completed) s r
                λ _.
                  notified (Escrow.release_escrow job_id) job_id job_completed s
                    (release-Post env d links job_id s r)

  pub start_job-Post :
      (job_id caller : ℕ) (s : Session)
      → Reached env d s
      → Post env d (Api.start_job job_id caller s)
  unfolding Api.start_job
  start_job-Post job_id caller s r =
      notified (Jobs.start_job job_id caller) job_id job_started s
        (start-Post env d links job_id caller s r)

  pub deliver_job-Post :
      (job_id caller : ℕ) (result : Deliverable) (s : Session)
      → Reached env d s
      → Post env d (Api.deliver_job job_id caller result s)
  unfolding Api.deliver_job
  deliver_job-Post job_id caller result s r =
      raise_if-Post env d (not (Jobs.validate_deliverable result)) invalid_input
        (Jobs.deliver_job job_id caller result >>= λ _. charge_storage job_id caller result) s r
        λ _.
          bind-Post env d (Jobs.deliver_job job_id caller result s)
            (λ _. charge_storage job_id caller result)
            (deliver-Post env d links job_id caller result s r)
            λ _ t r'.
              notified (charge_fee caller (calculate_storage_fee t.env.settings result)) job_id
                job_delivered t
                (charge-Post env d caller (calculate_storage_fee t.env.settings result) t r')

  pub fail_job-Post :
      (job_id caller : ℕ) (s : Session)
      → Reached env d s
      → Post env d (Api.fail_job job_id caller s)
  unfolding Api.fail_job
  fail_job-Post job_id caller s r =
      or_raise-Post env d (lookup job_id s.db.jobs) job_not_found
        (λ job.
          raise_if (is_some job.acceptance_criteria) has_criteria
          >> (Jobs.fail_job job_id caller >> notify_job_event job_id job_failed))
        s r
        λ job found.
          raise_if-Post env d (is_some job.acceptance_criteria) has_criteria
            (Jobs.fail_job job_id caller >> notify_job_event job_id job_failed) s r
            λ _.
              notified (Jobs.fail_job job_id caller) job_id job_failed s
                (fail-Post env d links job_id caller s r)

  pub abort_job-Post :
      (job_id caller : ℕ) (s : Session)
      → Reached env d s
      → Post env d (Api.abort_job job_id caller s)
  unfolding Api.abort_job
  abort_job-Post job_id caller s r =
      or_raise-Post env d (lookup job_id s.db.jobs) job_not_found
        (λ job.
          Jobs.assert_party job caller
          >> (raise_if (not (Api.is_abortable job.status)) wrong_status
              >> (Escrow.abort_job job_id caller false >> notify_job_event job_id job_cancelled)))
        s r
        λ job found.
          raise_if-Post env d (not (Jobs.is_client job caller || Jobs.is_seller job caller))
            not_a_party
            (raise_if (not (Api.is_abortable job.status)) wrong_status
              >> (Escrow.abort_job job_id caller false >> notify_job_event job_id job_cancelled))
            s r
            λ _.
              raise_if-Post env d (not (Api.is_abortable job.status)) wrong_status
                (Escrow.abort_job job_id caller false >> notify_job_event job_id job_cancelled) s r
                λ _.
                  notified (Escrow.abort_job job_id caller false) job_id job_cancelled s
                    (abort-Post env d links job_id caller false s r)

  -- A handler that swallows an exception keeps what was written before it; on a deadline that is
  -- nothing, since the session ends there.
  deadline_committed : (p : Result ⊤ × Session) → Post env d p → Steps env.settings d p.1.committed
  deadline_committed (ok _, t) h = h.committed
  deadline_committed (err e, t) h = h

  enforced :
      (job_id : ℕ) (o : Option Job) (s : Session)
      → Reached env d s
      → Post env d (Api.enforce_deadline job_id o s)
  unfolding Api.enforce_deadline
  enforced job_id none s r = r
  enforced job_id (some job) s r = elim (Bool-cases (Api.is_abortable job.status)) [
    | inl live ↦ rw live (abort-Post env d links job_id job.seller_agent_id true s r)
    | inr over ↦ rw over r
  ]

  pub fail_overdue_job-Steps :
      (job_id : ℕ) (s : Session)
      → Reached env d s
      → Steps env.settings d (Api.fail_overdue_job job_id s).1.committed
  unfolding Api.fail_overdue_job
  fail_overdue_job-Steps job_id s r =
      deadline_committed (Api.enforce_deadline job_id (lookup job_id s.db.jobs) s)
        (enforced job_id (lookup job_id s.db.jobs) s r)
