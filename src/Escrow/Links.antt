-- ===== src/Escrow/Links.antt =====
-- Funding, release, abort and refund keep every job in step with its escrow.
use agent_repository.Common.{
  ℕ, ℤ, ◌≡◌, inl, inr, Bool, some, lookup, lookup-adjust, lookup-insert, arith, Option-cases,
  if◌then◌else◌,
}
use agent_repository.Settings.{Settings}
use agent_repository.Models.{Db, Job, Escrow, JobStatus, EscrowStatus}
use agent_repository.Session.{⊤, Session, Result, ok, err}
use agent_repository.Linked.{IsLinked}
use agent_repository.Escrow.{
  new_escrow, set_job_status, set_escrow_status, fund_job, release_escrow, abort_job, refund_escrow,
  is_deliverable,
}
use agent_repository.Escrow.Specs.{
  Commits, FundsAs, ReleasesAs, AbortsAs, RefundsAs, fund_job-FundsAs, release_escrow-ReleasesAs,
  abort_job-AbortsAs, refund_escrow-RefundsAs,
}

pub Commits-map :
    (s : Session) (P Q : Db → Type 0) (p : Result ⊤ × Session)
    → ((u : Db) → P u → Q u)
    → Commits s P p
    → Commits s Q p
Commits-map s P Q (ok _, t) f h = (h.0, h.1, f t.db h.2)
Commits-map s P Q (err e, t) f h = h

-- The database that an operation has committed links every job to its escrow.
abbrev pub Links : Session → Result ⊤ × Session → Type 0
Links s = Commits s IsLinked

module _ (job_id : ℕ) (d : Db) (links : IsLinked d) where
  pub fund-links :
      (escrow_id : ℕ) (job : Job) (amount : ℤ) (u : Db)
      → lookup job_id d.jobs ≡ some job
      → job.agreed_price ≡ some amount
      → FundsAs d escrow_id job_id job amount u
      → IsLinked u
  unfolding new_escrow
  fund-links escrow_id job amount u found priced f k = ground (
    arith,
    links k,
    lookup-adjust k job_id (set_job_status JobStatus.funded) d.jobs,
    lookup-insert k job_id (new_escrow escrow_id job amount) d.escrows,
  )

  pub release-links :
      (cfg : Settings) (job : Job) (e : Escrow) (u : Db)
      → lookup job_id d.jobs ≡ some job
      → lookup job_id d.escrows ≡ some e
      → ReleasesAs d cfg job_id job e u
      → IsLinked u
  unfolding is_deliverable
  release-links cfg job e u found held f k = ground (
    arith,
    links k,
    lookup-adjust k job_id (set_job_status JobStatus.completed) d.jobs,
    lookup-adjust k job_id (set_escrow_status EscrowStatus.released) d.escrows,
  )

  pub abort-links :
      (aborter : ℕ) (is_deadline : Bool) (job : Job) (e : Escrow) (u : Db)
      → lookup job_id d.jobs ≡ some job
      → lookup job_id d.escrows ≡ some e
      → AbortsAs d job_id aborter is_deadline job e u
      → IsLinked u
  abort-links aborter is_deadline job e u found held f k = ground (
    arith,
    links k,
    lookup-adjust k job_id
        (set_job_status (if is_deadline then JobStatus.failed else JobStatus.cancelled)) d.jobs,
    lookup-adjust k job_id (set_escrow_status EscrowStatus.refunded) d.escrows,
  )

  pub refund-links :
      (job : Job) (e : Escrow) (u : Db)
      → lookup job_id d.jobs ≡ some job
      → lookup job_id d.escrows ≡ some e
      → RefundsAs d job_id e u
      → IsLinked u
  refund-links job e u found held f k = ground (
    arith,
    links k,
    lookup-adjust k job_id (set_job_status JobStatus.failed) d.jobs,
    lookup-adjust k job_id (set_escrow_status EscrowStatus.refunded) d.escrows,
  )

-- Funding keeps the links.
pub fund_job-Links :
    (escrow_id job_id client_id : ℕ) (s : Session)
    → IsLinked s.db
    → Links s (fund_job escrow_id job_id client_id s)
fund_job-Links escrow_id job_id client_id s links = elim (Option-cases (lookup job_id s.db.jobs)) [
  | inl missing ↦ unfold fund_job in ground arith
  | inr (job, found) ↦ elim (Option-cases job.agreed_price) [
    | inl unpriced ↦ unfold fund_job in ground arith
    | inr (amount, priced) ↦
        Commits-map s _ _ _ (λ u. fund-links job_id s.db links escrow_id job amount u found priced)
          (fund_job-FundsAs escrow_id job_id client_id s job amount found priced)
  ]
]

-- An escrow belongs to a job.
pub linked_job :
    (job_id : ℕ) (s : Session) {e : Escrow}
    → IsLinked s.db
    → lookup job_id s.db.escrows ≡ some e
    → (job : Job) × (lookup job_id s.db.jobs ≡ some job)
linked_job job_id s links held = elim (Option-cases (lookup job_id s.db.jobs)) [
  | inl missing ↦ absurd (ground (arith, links job_id))
  | inr (job, found) ↦ (job, found)
]

-- Release keeps the links.
pub release_escrow-Links :
    (job_id : ℕ) (s : Session) → IsLinked s.db → Links s (release_escrow job_id s)
release_escrow-Links job_id s links = elim (Option-cases (lookup job_id s.db.escrows)) [
  | inl missing ↦ unfold release_escrow in ground arith
  | inr (e, held) ↦
      let (job, found) = linked_job job_id s links held in
      Commits-map s _ _ _ (λ u. release-links job_id s.db links s.env.settings job e u found held)
        (release_escrow-ReleasesAs job_id s job e found held)
]

-- An abort keeps the links.
pub abort_job-Links :
    (job_id aborter : ℕ) (is_deadline : Bool) (s : Session)
    → IsLinked s.db
    → Links s (abort_job job_id aborter is_deadline s)
abort_job-Links job_id aborter is_deadline s links =
    elim (Option-cases (lookup job_id s.db.escrows)) [
      | inl missing ↦ unfold abort_job in ground arith
      | inr (e, held) ↦
          let (job, found) = linked_job job_id s links held in
          Commits-map s _ _ _
            (λ u. abort-links job_id s.db links aborter is_deadline job e u found held)
            (abort_job-AbortsAs job_id aborter is_deadline s job e found held)
    ]

-- A refund keeps the links.
pub refund_escrow-Links :
    (job_id : ℕ) (s : Session) → IsLinked s.db → Links s (refund_escrow job_id s)
refund_escrow-Links job_id s links = elim (Option-cases (lookup job_id s.db.escrows)) [
  | inl missing ↦ unfold refund_escrow in ground arith
  | inr (e, held) ↦
      let (job, found) = linked_job job_id s links held in
      Commits-map s _ _ _ (λ u. refund-links job_id s.db links job e u found held)
        (refund_escrow-RefundsAs job_id s job e found held)
]
