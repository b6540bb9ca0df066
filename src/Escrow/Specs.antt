-- ===== src/Escrow/Specs.antt =====
-- What funding, release, abort and refund do on every branch, as equations between the tables
-- before and after: an error commits nothing, a success has committed all that it wrote.
use agent_repository.Common.{
  ℕ, ℤ, pos, ◌<ℤ◌, ◌+ℤ◌, ◌-ℤ◌, ◌≡◌, Bool, true, false, not, ◌&&◌, some, Dict, lookup, adjust,
  insert, is_some, ltb_ℤ, ◌==◌, if◌then◌else◌, arith,
}
use agent_repository.Settings.{Settings}
use agent_repository.Models.{Db, Agent, Job, Escrow, JobStatus, EscrowStatus}
use agent_repository.Session.{⊤, Session, Result, ok, err}
use agent_repository.Escrow.{
  new_escrow, set_job_status, set_escrow_status, debit, credit, can_pay, fund_job, release_escrow,
  abort_job, refund_escrow, is_deliverable,
}
use agent_repository.Fees.{calculate_base_fee}

-- The agents after a seller's bond, if any, has been taken.
abbrev pub bonded : Job → Dict Agent → Dict Agent
bonded job agents =
    if ltb_ℤ (pos 0) job.seller_abort_penalty
    then adjust job.seller_agent_id (debit job.seller_abort_penalty) agents
    else agents

-- An operation that raises has committed nothing.
abbrev pub Commits : Session → (Db → Type 0) → Result ⊤ × Session → Type 0
Commits s P (ok _, t) = (t.env ≡ s.env) × (t.committed ≡ t.db) × P t.db
Commits s P (err e, t) = t.committed ≡ s.committed

-- What the seller gets of a released escrow.
abbrev pub seller_payout : Settings → Escrow → ℤ
seller_payout cfg e = e.amount -ℤ (calculate_base_fee cfg e.amount).1 +ℤ e.seller_bond_amount

module _ (d : Db) where
  abbrev pub FundsAs : ℕ → ℕ → Job → ℤ → Db → Type 0
  FundsAs escrow_id job_id job amount u =
      (job.status ≡ JobStatus.agreed)
      × (pos 0 <ℤ amount)
      × (is_some (lookup job_id d.escrows) ≡ false)
      × (is_some (lookup job.client_agent_id d.agents) ≡ true)
      × (ltb_ℤ (pos 0) job.seller_abort_penalty ≡ true
          → is_some (lookup job.seller_agent_id d.agents) ≡ true)
      × (u.jobs ≡ adjust job_id (set_job_status JobStatus.funded) d.jobs)
      × (u.escrows ≡ insert job_id (new_escrow escrow_id job amount) d.escrows)
      × (u.agents ≡ adjust job.client_agent_id (debit amount) (bonded job d.agents))

  -- The agents after the client has paid its share of the fee, if it can.
  abbrev pub fee_paid : Settings → Escrow → Dict Agent
  fee_paid cfg e =
      let fee = (calculate_base_fee cfg e.amount).0 in
      if can_pay fee (lookup e.client_agent_id d.agents)
      then adjust e.client_agent_id (debit fee) d.agents
      else d.agents

  abbrev pub ReleasesAs : Settings → ℕ → Job → Escrow → Db → Type 0
  ReleasesAs cfg job_id job e u =
      (e.status ≡ EscrowStatus.funded)
      × (is_deliverable job.status ≡ true)
      × (u.jobs ≡ adjust job_id (set_job_status JobStatus.completed) d.jobs)
      × (u.escrows ≡ adjust job_id (set_escrow_status EscrowStatus.released) d.escrows)
      × (u.agents ≡ adjust e.seller_agent_id (credit (seller_payout cfg e)) (fee_paid cfg e))
      × (is_some (lookup e.seller_agent_id (fee_paid cfg e)) ≡ true)

  -- The agents after an abort: the client's own, or the seller's or a deadline.
  abbrev pub aborted : Job → Escrow → Bool → Dict Agent
  aborted job e true =
      adjust e.seller_agent_id (credit (job.client_abort_penalty +ℤ e.seller_bond_amount))
        (adjust e.client_agent_id (credit (e.amount -ℤ job.client_abort_penalty)) d.agents)
  aborted job e false =
      adjust e.client_agent_id (credit (e.amount +ℤ e.seller_bond_amount)) d.agents

  abbrev pub AbortsAs : ℕ → ℕ → Bool → Job → Escrow → Db → Type 0
  AbortsAs job_id aborter is_deadline job e u =
      (e.status ≡ EscrowStatus.funded)
      × (u.jobs
          ≡ adjust job_id
              (set_job_status (if is_deadline then JobStatus.failed else JobStatus.cancelled))
              d.jobs)
      × (u.escrows ≡ adjust job_id (set_escrow_status EscrowStatus.refunded) d.escrows)
      × (u.agents ≡ aborted job e (aborter == e.client_agent_id && not is_deadline))
      × (is_some (lookup e.client_agent_id d.agents) ≡ true)
      × (is_some (lookup e.seller_agent_id d.agents) ≡ true)

  -- The agents after a refund.
  abbrev pub repaid : Escrow → Dict Agent
  repaid e =
      let agents = adjust e.client_agent_id (credit e.amount) d.agents in
      if ltb_ℤ (pos 0) e.seller_bond_amount
      then adjust e.seller_agent_id (credit e.seller_bond_amount) agents
      else agents

  abbrev pub RefundsAs : ℕ → Escrow → Db → Type 0
  RefundsAs job_id e u =
      (e.status ≡ EscrowStatus.funded)
      × (u.jobs ≡ adjust job_id (set_job_status JobStatus.failed) d.jobs)
      × (u.escrows ≡ adjust job_id (set_escrow_status EscrowStatus.refunded) d.escrows)
      × (u.agents ≡ repaid e)
      × (is_some (lookup e.client_agent_id d.agents) ≡ true)

-- For a job with an agreed price: funding that raises has committed nothing. Funding that
-- succeeds has committed all it wrote: the job was agreed, the price positive and no escrow
-- there; the client is debited the price, the seller the bond if there is one, and the new
-- escrow holds both.
pub fund_job-FundsAs :
    (escrow_id job_id client_id : ℕ) (s : Session) (job : Job) (amount : ℤ)
    → lookup job_id s.db.jobs ≡ some job
    → job.agreed_price ≡ some amount
    → Commits s (FundsAs s.db escrow_id job_id job amount) (fund_job escrow_id job_id client_id s)
unfolding fund_job
fund_job-FundsAs escrow_id job_id client_id s job amount found priced = ground arith

-- For a job and its escrow: a release that raises has committed nothing. One that succeeds has
-- committed all it wrote: the escrow was funded and the job delivered or verifying, they are now
-- released and completed, the client has paid its share of the fee if its balance covers that,
-- and the seller has the amount less its own share, with the bond.
pub release_escrow-ReleasesAs :
    (job_id : ℕ) (s : Session) (job : Job) (e : Escrow)
    → lookup job_id s.db.jobs ≡ some job
    → lookup job_id s.db.escrows ≡ some e
    → Commits s (ReleasesAs s.db s.env.settings job_id job e) (release_escrow job_id s)
unfolding release_escrow
release_escrow-ReleasesAs job_id s job e found held = ground arith

-- For a job and its escrow: an abort that raises has committed nothing. One that succeeds has
-- committed all it wrote: the escrow was funded and is refunded, the job is cancelled, or failed
-- at a deadline; if the client aborts it gets the amount less its penalty and the seller the
-- penalty and the bond, else the client gets the amount and the bond.
pub abort_job-AbortsAs :
    (job_id aborter : ℕ) (is_deadline : Bool) (s : Session) (job : Job) (e : Escrow)
    → lookup job_id s.db.jobs ≡ some job
    → lookup job_id s.db.escrows ≡ some e
    → Commits s
        (AbortsAs s.db job_id aborter is_deadline job e)
        (abort_job job_id aborter is_deadline s)
unfolding abort_job
abort_job-AbortsAs job_id aborter is_deadline s job e found held = ground arith

-- For a job and its escrow: a refund that raises has committed nothing. One that succeeds has
-- committed all it wrote: the escrow was funded and is refunded, the job is failed, the client
-- has the amount and the seller its bond, if there is one.
pub refund_escrow-RefundsAs :
    (job_id : ℕ) (s : Session) (job : Job) (e : Escrow)
    → lookup job_id s.db.jobs ≡ some job
    → lookup job_id s.db.escrows ≡ some e
    → Commits s (RefundsAs s.db job_id e) (refund_escrow job_id s)
unfolding refund_escrow
refund_escrow-RefundsAs job_id s job e found held = ground arith
