-- ===== src/Lifecycle/Refine.antt =====
-- Every operation on a job writes by steps, on its error paths too.
use agent_repository.Common.{
  ℕ, ◌≡◌, refl, inl, inr, Bool, Option, some, lookup, arith, subst, Option-cases,
}
use agent_repository.Models.{Db, Job, Escrow, JobStatus, Digest, Deliverable}
use agent_repository.Session.{⊤, Env, Session, Result, ok, err}
use agent_repository.Linked.{IsLinked, LinkedAt}
use agent_repository.Escrow.{fund_job, release_escrow, abort_job, refund_escrow, set_job_status}
use agent_repository.Escrow.Specs.{
  Commits, FundsAs, ReleasesAs, AbortsAs, RefundsAs, fund_job-FundsAs, release_escrow-ReleasesAs,
  abort_job-AbortsAs,
}
use agent_repository.Escrow.Links.{linked_job}
use agent_repository.Jobs.{
  JobProposal, CounterProposal, is_valid_transition, propose_job, counter_job, accept_job,
  start_job, deliver_job, fail_job, accepted, set_delivered, new_job, countered, can_counter,
}
use agent_repository.Jobs.Specs.{
  EditsAs, CountersAs, propose_job-CreatesAs, counter_job-CountersAs, accept_job-MovesAs,
  start_job-MovesAs, deliver_job-MovesAs,
}
use agent_repository.Lifecycle.{create, counter, edit, fund, release, abort, refund, next}
use agent_repository.Lifecycle.Links.{Steps-IsLinked}
use agent_repository.Lifecycle.Reached.{Reached, Post, commit-Post, refused-Post}

-- On a linked job a failure is a refund.
fail_job-RefundsAs :
    (job_id agent_id : ℕ) (s : Session) (job : Job) (e : Escrow)
    → LinkedAt job_id s.db
    → lookup job_id s.db.jobs ≡ some job
    → lookup job_id s.db.escrows ≡ some e
    → Commits s (RefundsAs s.db job_id e) (fail_job job_id agent_id s)
unfolding fail_job refund_escrow is_valid_transition
fail_job-RefundsAs job_id agent_id s job e link found held = ground arith

module _ (env : Env) (d : Db) (links : IsLinked d) where
  IsLinked-now : (s : Session) → Reached env d s → IsLinked s.db
  IsLinked-now s r = Steps-IsLinked env.settings d r.written links

  pub fund-Post :
      (escrow_id job_id client_id : ℕ) (s : Session)
      → Reached env d s
      → Post env d (fund_job escrow_id job_id client_id s)
  fund-Post escrow_id job_id client_id s r = elim (Option-cases (lookup job_id s.db.jobs)) [
    | inl missing ↦
        refused-Post env d s (fund_job escrow_id job_id client_id s) r
          (unfold fund_job in ground arith)
    | inr (job, found) ↦ elim (Option-cases job.agreed_price) [
      | inl unpriced ↦
          refused-Post env d s (fund_job escrow_id job_id client_id s) r
            (unfold fund_job in ground arith)
      | inr (amount, priced) ↦
          commit-Post env d s (FundsAs s.db escrow_id job_id job amount)
            (fund_job escrow_id job_id client_id s) r
            (fund_job-FundsAs escrow_id job_id client_id s job amount found priced)
            λ u spec. fund escrow_id job_id job amount found priced spec
    ]
  ]

  pub release-Post :
      (job_id : ℕ) (s : Session) → Reached env d s → Post env d (release_escrow job_id s)
  release-Post job_id s r = elim (Option-cases (lookup job_id s.db.escrows)) [
    | inl missing ↦
        refused-Post env d s (release_escrow job_id s) r (unfold release_escrow in ground arith)
    | inr (e, held) ↦
        let (job, found) = linked_job job_id s (IsLinked-now s r) held in
        commit-Post env d s (ReleasesAs s.db s.env.settings job_id job e) (release_escrow job_id s)
          r (release_escrow-ReleasesAs job_id s job e found held)
          λ u spec.
            release job_id job e found held
              (subst (λ x. ReleasesAs s.db x.settings job_id job e u) r.env_same spec)
  ]

  pub abort-Post :
      (job_id aborter : ℕ) (is_deadline : Bool) (s : Session)
      → Reached env d s
      → Post env d (abort_job job_id aborter is_deadline s)
  abort-Post job_id aborter is_deadline s r = elim (Option-cases (lookup job_id s.db.escrows)) [
    | inl missing ↦
        refused-Post env d s (abort_job job_id aborter is_deadline s) r
          (unfold abort_job in ground arith)
    | inr (e, held) ↦
        let (job, found) = linked_job job_id s (IsLinked-now s r) held in
        commit-Post env d s (AbortsAs s.db job_id aborter is_deadline job e)
          (abort_job job_id aborter is_deadline s) r
          (abort_job-AbortsAs job_id aborter is_deadline s job e found held)
          λ u spec. abort job_id aborter is_deadline job e found held spec
  ]

  pub propose-Post :
      (job_id client_id : ℕ) (p : JobProposal) (s : Session)
      → Reached env d s
      → Post env d (propose_job job_id client_id p s)
  unfolding new_job
  propose-Post job_id client_id p s r =
      commit-Post env d s _ (propose_job job_id client_id p s) r
        (propose_job-CreatesAs job_id client_id p s)
        λ u c.
          create job_id (new_job s.env.sha256_json client_id p) (refl, c.1, c.2, c.3, c.4, c.5, c.6)

  counter_ends :
      (job_id agent_id : ℕ) (p : CounterProposal) (s : Session) (job : Job)
      → lookup job_id s.db.jobs ≡ some job
      → Reached env d s
      → (q : Result ⊤ × Session) → CountersAs s job_id agent_id p job q
      → Post env d q
  counter_ends job_id agent_id p s job found r (ok _, t) c =
      commit-Post env d s (EditsAs s.db job_id (countered agent_id p)) (ok tt, t) r (c.0, c.1, c.5)
        λ u e. counter job_id agent_id p job found c.3 c.4 e
  counter_ends job_id agent_id p s job found r (err x, t) (inl same) = rw same r.committed
  counter_ends job_id agent_id p s job found r (err x, t) (inr (saved, _, _, open_terms, _, e)) =
      rw saved (
        next r.written (
          edit job_id (set_job_status JobStatus.cancelled) job found
            (unfold can_counter in ground arith) e))

  pub counter-Post :
      (job_id agent_id : ℕ) (p : CounterProposal) (s : Session)
      → Reached env d s
      → Post env d (counter_job job_id agent_id p s)
  counter-Post job_id agent_id p s r = elim (Option-cases (lookup job_id s.db.jobs)) [
    | inl missing ↦
        refused-Post env d s (counter_job job_id agent_id p s) r
          (unfold counter_job in ground arith)
    | inr (job, found) ↦
        counter_ends job_id agent_id p s job found r (counter_job job_id agent_id p s)
          (counter_job-CountersAs job_id agent_id p s job found)
  ]

  pub accept-Post :
      (job_id agent_id : ℕ) (hash : Option Digest) (s : Session)
      → Reached env d s
      → Post env d (accept_job job_id agent_id hash s)
  accept-Post job_id agent_id hash s r = elim (Option-cases (lookup job_id s.db.jobs)) [
    | inl missing ↦
        refused-Post env d s (accept_job job_id agent_id hash s) r
          (unfold accept_job in ground arith)
    | inr (job, found) ↦
        commit-Post env d s _ (accept_job job_id agent_id hash s) r
          (accept_job-MovesAs job_id agent_id hash s job found)
          λ u m.
            edit job_id (accepted agent_id) job found
              (unfold is_valid_transition accepted in ground arith) m.1
  ]

  pub start-Post :
      (job_id agent_id : ℕ) (s : Session)
      → Reached env d s
      → Post env d (start_job job_id agent_id s)
  start-Post job_id agent_id s r = elim (Option-cases (lookup job_id s.db.jobs)) [
    | inl missing ↦
        refused-Post env d s (start_job job_id agent_id s) r (unfold start_job in ground arith)
    | inr (job, found) ↦
        commit-Post env d s _ (start_job job_id agent_id s) r
          (start_job-MovesAs job_id agent_id s job found)
          λ u m.
            edit job_id (set_job_status JobStatus.in_progress) job found
              (unfold is_valid_transition in ground (arith, IsLinked-now s r job_id)) m.1.1
  ]

  pub deliver-Post :
      (job_id agent_id : ℕ) (result : Deliverable) (s : Session)
      → Reached env d s
      → Post env d (deliver_job job_id agent_id result s)
  deliver-Post job_id agent_id result s r = elim (Option-cases (lookup job_id s.db.jobs)) [
    | inl missing ↦
        refused-Post env d s (deliver_job job_id agent_id result s) r
          (unfold deliver_job in ground arith)
    | inr (job, found) ↦
        commit-Post env d s _ (deliver_job job_id agent_id result s) r
          (deliver_job-MovesAs job_id agent_id result s job found)
          λ u m.
            edit job_id (set_delivered result) job found
              (unfold is_valid_transition in ground arith) m.1
  ]

  pub fail-Post :
      (job_id agent_id : ℕ) (s : Session)
      → Reached env d s
      → Post env d (fail_job job_id agent_id s)
  fail-Post job_id agent_id s r = elim (Option-cases (lookup job_id s.db.jobs)) [
    | inl missing ↦
        refused-Post env d s (fail_job job_id agent_id s) r (unfold fail_job in ground arith)
    | inr (job, found) ↦ elim (Option-cases (lookup job_id s.db.escrows)) [
      | inl unheld ↦
          refused-Post env d s (fail_job job_id agent_id s) r
            (unfold fail_job is_valid_transition in ground (arith, IsLinked-now s r job_id))
      | inr (e, held) ↦
          commit-Post env d s (RefundsAs s.db job_id e) (fail_job job_id agent_id s) r
            (fail_job-RefundsAs job_id agent_id s job e (IsLinked-now s r job_id) found held)
            λ u spec. refund job_id job e found held spec
    ]
  ]
