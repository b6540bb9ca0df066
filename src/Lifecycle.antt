-- ===== src/Lifecycle.antt =====
-- The writes of the marketplace as steps: the ways in which a request changes the jobs, the escrows
-- and the balances. They are a means to carry what holds of the tables through whole histories, and
-- no contract of the marketplace: who asks is left out, and so are the other tables.
pub mod Links
pub mod Reached
pub mod Refine
pub mod Endpoints
pub mod Verify
pub mod Histories
pub mod Ended
use agent_repository.Common.{ℕ, ◌<◌, ℤ, ◌≤ℤ◌, ◌≡◌, Bool, true, false, some, lookup, adjust}
use agent_repository.Models.{Db, Agent, Job, Escrow, JobStatus}
use agent_repository.Settings.{Settings}
use agent_repository.Webhooks.Quiet.{SameBooks}
use agent_repository.Escrow.{credit, debit}
use agent_repository.Escrow.Specs.{FundsAs, ReleasesAs, AbortsAs, RefundsAs}
use agent_repository.Jobs.{CounterProposal, can_counter, countered}
use agent_repository.Jobs.Specs.{EditsAs, CreatesAs}

-- The changes of status that leave the money where it is.
abbrev pub is_edit : JobStatus → JobStatus → Bool
is_edit JobStatus.proposed JobStatus.agreed = true
is_edit JobStatus.negotiating JobStatus.agreed = true
is_edit JobStatus.proposed JobStatus.cancelled = true
is_edit JobStatus.negotiating JobStatus.cancelled = true
is_edit JobStatus.funded JobStatus.in_progress = true
is_edit JobStatus.in_progress JobStatus.delivered = true
is_edit JobStatus.delivered JobStatus.in_progress = true
is_edit _ _ = false

-- A write that changes the status and no term of the job.
abbrev pub KeepsTerms : Job → Job → Type 0
KeepsTerms j i =
    (is_edit j.status i.status ≡ true)
    × (i.client_agent_id ≡ j.client_agent_id)
    × (i.seller_agent_id ≡ j.seller_agent_id)
    × (i.agreed_price ≡ j.agreed_price)
    × (i.client_abort_penalty ≡ j.client_abort_penalty)
    × (i.seller_abort_penalty ≡ j.seller_abort_penalty)

abbrev pub is_proposed : Job → Bool
is_proposed j = elim j.status [ JobStatus.proposed ↦ true | _ ↦ false ]

-- Money that an agent pays to the platform, or gets back from it.
abbrev pub PaysAs : Db → ℕ → (Agent → Agent) → Db → Type 0
PaysAs d agent_id f u =
    (u.agents ≡ adjust agent_id f d.agents) × (u.jobs ≡ d.jobs) × (u.escrows ≡ d.escrows)

pub data Step (cfg : Settings) (d u : Db) : Type 0 where
  create : (job_id : ℕ) (job : Job) → CreatesAs d is_proposed job_id job u → Step cfg d u
  counter :
      (job_id agent_id : ℕ) (p : CounterProposal) (job : Job)
      → lookup job_id d.jobs ≡ some job
      → can_counter job.status ≡ true
      → job.current_round < job.max_rounds
      → EditsAs d job_id (countered agent_id p) u
      → Step cfg d u
  edit :
      (job_id : ℕ) (f : Job → Job) (job : Job)
      → lookup job_id d.jobs ≡ some job
      → KeepsTerms job (f job)
      → EditsAs d job_id f u
      → Step cfg d u
  fund :
      (escrow_id job_id : ℕ) (job : Job) (amount : ℤ)
      → lookup job_id d.jobs ≡ some job
      → job.agreed_price ≡ some amount
      → FundsAs d escrow_id job_id job amount u
      → Step cfg d u
  release :
      (job_id : ℕ) (job : Job) (e : Escrow)
      → lookup job_id d.jobs ≡ some job
      → lookup job_id d.escrows ≡ some e
      → ReleasesAs d cfg job_id job e u
      → Step cfg d u
  abort :
      (job_id aborter : ℕ) (is_deadline : Bool) (job : Job) (e : Escrow)
      → lookup job_id d.jobs ≡ some job
      → lookup job_id d.escrows ≡ some e
      → AbortsAs d job_id aborter is_deadline job e u
      → Step cfg d u
  refund :
      (job_id : ℕ) (job : Job) (e : Escrow)
      → lookup job_id d.jobs ≡ some job
      → lookup job_id d.escrows ≡ some e
      → RefundsAs d job_id e u
      → Step cfg d u
  charge :
      (agent_id : ℕ) (fee : ℤ) (a : Agent)
      → lookup agent_id d.agents ≡ some a
      → fee ≤ℤ a.balance
      → PaysAs d agent_id (debit fee) u
      → Step cfg d u
  give :
      (agent_id : ℕ) (fee : ℤ) (a : Agent)
      → lookup agent_id d.agents ≡ some a
      → PaysAs d agent_id (credit fee) u
      → Step cfg d u

-- Any number of steps.
pub data Steps (cfg : Settings) (d : Db) : Db → Type 0 where
  here : Steps cfg d d
  same : {u v : Db} → Steps cfg d u → SameBooks u v → Steps cfg d v
  next : {u v : Db} → Steps cfg d u → Step cfg u v → Steps cfg d v
