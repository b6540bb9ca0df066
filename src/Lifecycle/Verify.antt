-- ===== src/Lifecycle/Verify.antt =====
-- The verification of a delivered job writes by steps.
use agent_repository.Common.{
  refl, Bool, true, false, not, Option, none, contains, insert, Bool-cases, ℕ, ◌≡◌, inl, inr, some,
  arith, lookup, adjust, ℤ, if◌then◌else◌, Option-cases,
}
use agent_repository.Models.{job_completed, job_failed, Criteria, Agent, Db, JobStatus, Job}
use agent_repository.Escrow.{debit, can_pay, credit, set_job_status}
use agent_repository.Linked.{IsLinked}
use agent_repository.Fees.{calculate_verification_fee, charge_fee}
use agent_repository.Session.{
  only_client, job_not_found, raise_if, sandbox_failure, wrong_status, redis_failure,
  verification_running, finally, ◌>>◌, Action, Session, ◌>>=◌, ok, ⊤, err, Result, Env,
}
use agent_repository.Jobs.Specs.{EditsAs}
use agent_repository.Api
use agent_repository.Escrow
use agent_repository.Jobs
use agent_repository.Lifecycle.Reached.{
  notify-Post, commit-Steps-Post, bind-Post, raise_if-Post, or_raise-Post, Reached,
}
use agent_repository.Lifecycle.Reached.{Post, charge-Post, refused-Post}
use agent_repository.Escrow.Specs.{Commits}
use agent_repository.Webhooks.{notify_job_event}
use agent_repository.Lifecycle.{Steps, edit, charge, give, next}
use agent_repository.Lifecycle.Refine.{release-Post}

module _ (job_id : ℕ) (job : Job) (caller : ℕ) (fee : ℤ) where
  abbrev refunded_client : Db → Db
  refunded_client d = record d { agents = adjust caller (credit fee) d.agents }

  abbrev charged_seller : Db → Agent → Db
  charged_seller d b =
      if can_pay fee (some b)
      then record d { agents = adjust job.seller_agent_id (debit fee) d.agents }
      else d

  abbrev SettlesAs : Db → Agent → Db → Type 0
  SettlesAs d b u =
      EditsAs (charged_seller (refunded_client d) b) job_id (set_job_status JobStatus.in_progress) u

  settle_failed-SettlesAs :
      (s : Session) (a b : Agent)
      → lookup caller s.db.agents ≡ some a
      → lookup job.seller_agent_id (refunded_client s.db).agents ≡ some b
      → Commits s (SettlesAs s.db b) (Api.settle_failed job_id job caller fee s)
  unfolding Api.settle_failed
  settle_failed-SettlesAs s a b known paid = ground arith

-- The session with the lock, and the verification under it.
abbrev locked : ℕ → Session → Session
locked job_id s = record s {
  redis = record s.redis { verify_locks = insert job_id tt s.redis.verify_locks };
}

abbrev lock_and_verify : ℕ → ℕ → Action ⊤
lock_and_verify job_id caller s =
    finally (Api.verify_locked job_id caller) (Api.unlock job_id) (locked job_id s)

-- What follows a run in the sandbox.
abbrev conclude : ℕ → Job → ℕ → Bool → ℤ → Action ⊤
conclude job_id job caller passed fee =
    if passed
    then (Escrow.release_escrow job_id >> notify_job_event job_id job_completed)
    else Api.verification_failed job_id job caller fee

charged_jobs :
    (job_id : ℕ) (job : Job) (caller : ℕ) (fee : ℤ) (u : Db) (b : Agent)
    → (charged_seller job_id job caller fee u b).jobs ≡ u.jobs
charged_jobs job_id job caller fee u b = ground arith

same_jobs : (caller : ℕ) (fee : ℤ) (s : Session) → (charge_fee caller fee s).1.db.jobs ≡ s.db.jobs
unfolding charge_fee
same_jobs caller fee s = ground arith

module _ (env : Env) (d : Db) (links : IsLinked d) where
  -- A fee, and then an action that finds the jobs as they were.
  charge_then :
      (caller : ℕ) (fee : ℤ) (s : Session) (k : ⊤ → Action ⊤)
      → Reached env d s
      → ((t : Session) → Reached env d t → t.db.jobs ≡ s.db.jobs → Post env d (k tt t))
      → Post env d ((charge_fee caller fee >>= k) s)
  charge_then caller fee s k r h =
      go (charge_fee caller fee s) (charge-Post env d caller fee s r) (same_jobs caller fee s)
    where
      go :
          (p : Result ⊤ × Session)
          → Post env d p
          → p.1.db.jobs ≡ s.db.jobs
          → Post env d (elim p.0 [ ok a ↦ k a p.1 | err e ↦ (err e, p.1) ])
      go (ok _, t) r' e = h t r' e
      go (err x, t) r' e = r'

  seller_charged :
      (job_id : ℕ) (job : Job) (caller : ℕ) (fee : ℤ) (u : Db) (b : Agent)
      → lookup job.seller_agent_id u.agents ≡ some b
      → Steps env.settings d u
      → Steps env.settings d (charged_seller job_id job caller fee u b)
  seller_charged job_id job caller fee u b paid h = elim (Bool-cases (can_pay fee (some b))) [
    | inl pays ↦
        rw pays (next h (charge job.seller_agent_id fee b paid (ground arith) (refl, refl, refl)))
    | inr broke ↦ rw broke h
  ]

  settle-Post :
      (job_id : ℕ) (job : Job) (caller : ℕ) (fee : ℤ) (s : Session)
      → Reached env d s
      → lookup job_id s.db.jobs ≡ some job
      → job.status ≡ JobStatus.delivered
      → Post env d (Api.settle_failed job_id job caller fee s)
  settle-Post job_id job caller fee s r found ready =
      elim (Option-cases (lookup caller s.db.agents)) [
        | inl unknown ↦
            refused-Post env d s (Api.settle_failed job_id job caller fee s) r
              (unfold Api.settle_failed in ground arith)
        | inr (a, known) ↦
            elim (Option-cases
              (lookup job.seller_agent_id (refunded_client job_id job caller fee s.db).agents)) [
                | inl unknown ↦
                    refused-Post env d s (Api.settle_failed job_id job caller fee s) r
                      (unfold Api.settle_failed in ground arith)
                | inr (b, paid) ↦
                    commit-Steps-Post env d s (SettlesAs job_id job caller fee s.db b)
                      (Api.settle_failed job_id job caller fee s) r
                      (settle_failed-SettlesAs job_id job caller fee s a b known paid)
                      λ u e.
                        next
                          (seller_charged job_id job caller fee
                            (refunded_client job_id job caller fee s.db) b paid
                            (next r.written (give caller fee a known (refl, refl, refl))))
                          (edit job_id (set_job_status JobStatus.in_progress) job
                            (rw
                              (charged_jobs job_id job caller fee
                                (refunded_client job_id job caller fee s.db) b)
                              found)
                            (ground arith) e)
              ]
      ]

  verification_failed-Post :
      (job_id : ℕ) (job : Job) (caller : ℕ) (fee : ℤ) (s : Session)
      → Reached env d s
      → lookup job_id s.db.jobs ≡ some job
      → job.status ≡ JobStatus.delivered
      → Post env d (Api.verification_failed job_id job caller fee s)
  unfolding Api.verification_failed
  verification_failed-Post job_id job caller fee s r found ready =
      bind-Post env d (Api.settle_failed job_id job caller fee s)
        (λ _. notify_job_event job_id job_failed)
        (settle-Post job_id job caller fee s r found ready)
        λ _ t r'. notify-Post env d job_id job_failed t r'

  -- The verdict of a run.
  verdict :
      (passed : Bool) (job_id : ℕ) (job : Job) (caller : ℕ) (fee : ℤ) (s : Session)
      → Reached env d s
      → lookup job_id s.db.jobs ≡ some job
      → job.status ≡ JobStatus.delivered
      → Post env d (conclude job_id job caller passed fee s)
  verdict true job_id job caller fee s r found ready =
      bind-Post env d (Escrow.release_escrow job_id s) (λ _. notify_job_event job_id job_completed)
        (release-Post env d links job_id s r) λ _ t r'. notify-Post env d job_id job_completed t r'
  verdict false job_id job caller fee s r found ready =
      verification_failed-Post job_id job caller fee s r found ready

  by_script-Post :
      (job_id : ℕ) (job : Job) (caller script : ℕ) (s : Session)
      → Reached env d s
      → lookup job_id s.db.jobs ≡ some job
      → job.status ≡ JobStatus.delivered
      → Post env d (Api.verify_by_script job_id job caller script s)
  unfolding Api.verify_by_script
  by_script-Post job_id job caller script s r found ready =
      or_raise-Post env d (s.env.run_script script job.result) sandbox_failure
        (λ run.
          charge_fee caller (calculate_verification_fee s.env.settings run.elapsed)
          >> conclude job_id job caller run.passed
              (calculate_verification_fee s.env.settings run.elapsed))
        s r
        λ run _.
          charge_then caller (calculate_verification_fee s.env.settings run.elapsed) s
            (λ _.
              conclude job_id job caller run.passed
                (calculate_verification_fee s.env.settings run.elapsed))
            r
            λ t r' same.
              verdict run.passed job_id job caller
                (calculate_verification_fee s.env.settings run.elapsed) t r' (rw same found) ready

  without_script-Post :
      (job_id caller : ℕ) (s : Session)
      → Reached env d s
      → Post env d (Api.verify_without_script job_id caller s)
  unfolding Api.verify_without_script
  without_script-Post job_id caller s r =
      bind-Post env d (charge_fee caller (calculate_verification_fee s.env.settings Api.no_cpu) s)
        (λ _. Escrow.release_escrow job_id)
        (charge-Post env d caller (calculate_verification_fee s.env.settings Api.no_cpu) s r)
        λ _ t r'. release-Post env d links job_id t r'

  criteria-Post :
      (job_id : ℕ) (job : Job) (caller : ℕ) (o : Option Criteria) (s : Session)
      → Reached env d s
      → lookup job_id s.db.jobs ≡ some job
      → job.status ≡ JobStatus.delivered
      → Post env d (Api.verify_criteria job_id job caller o s)
  unfolding Api.verify_criteria
  criteria-Post job_id job caller none s r found ready = without_script-Post job_id caller s r
  criteria-Post job_id job caller (some Criteria.empty) s r found ready =
      without_script-Post job_id caller s r
  criteria-Post job_id job caller (some (Criteria.declarative n)) s r found ready = r.committed
  criteria-Post job_id job caller (some (Criteria.script n)) s r found ready =
      by_script-Post job_id job caller n s r found ready

  locked-Post :
      (job_id caller : ℕ) (s : Session)
      → Reached env d s
      → Post env d (Api.verify_locked job_id caller s)
  unfolding Api.verify_locked
  locked-Post job_id caller s r =
      or_raise-Post env d (lookup job_id s.db.jobs) job_not_found
        (λ job.
          raise_if (not (Jobs.is_client job caller)) only_client
          >> (raise_if (not (Api.is_delivered job.status)) wrong_status
              >> Api.verify_criteria job_id job caller job.acceptance_criteria))
        s r
        λ job found.
          raise_if-Post env d (not (Jobs.is_client job caller)) only_client
            (raise_if (not (Api.is_delivered job.status)) wrong_status
              >> Api.verify_criteria job_id job caller job.acceptance_criteria)
            s r
            λ _.
              raise_if-Post env d (not (Api.is_delivered job.status)) wrong_status
                (Api.verify_criteria job_id job caller job.acceptance_criteria) s r
                λ is_ready.
                  criteria-Post job_id job caller job.acceptance_criteria s r found
                    (unfold Api.is_delivered in ground arith)

  unlocked :
      (job_id : ℕ) (p : Result ⊤ × Session) → Post env d p → Post env d (p.0, Api.unlock job_id p.1)
  unlocked job_id (ok _, t) r = record {
    env_same = r.env_same;
    committed = r.committed;
    written = r.written;
  }
  unlocked job_id (err e, t) h = h

  pub verify_job-Post :
      (job_id caller : ℕ) (s : Session)
      → Reached env d s
      → Post env d (Api.verify_job job_id caller s)
  unfolding Api.verify_job
  verify_job-Post job_id caller s r =
      raise_if-Post env d (not s.env.redis_up) redis_failure
        (raise_if (contains job_id s.redis.verify_locks) verification_running
          >> lock_and_verify job_id caller)
        s r
        λ _.
          raise_if-Post env d (contains job_id s.redis.verify_locks) verification_running
            (lock_and_verify job_id caller) s r
            λ _. unlocked job_id (Api.verify_locked job_id caller (locked job_id s)) (
              locked-Post job_id caller (locked job_id s)
                (record { env_same = r.env_same; committed = r.committed; written = r.written }))
