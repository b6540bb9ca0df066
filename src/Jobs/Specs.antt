-- ===== src/Jobs/Specs.antt =====
-- What the operations of app/services/job.py do to the tables.
use agent_repository.Common.{
  ℕ, ◌≤◌, ◌<◌, ◌≡◌, Bool, true, false, ◌||◌, Option, some, lookup, contains, adjust, insert, arith,
  ◌⊎◌,
}
use agent_repository.Models.{Db, Job, JobStatus, Digest, Deliverable}
use agent_repository.Session.{⊤, Session, Result, ok, err, rounds_exceeded}
use agent_repository.Escrow.{set_job_status}
use agent_repository.Escrow.Specs.{Commits}
use agent_repository.Jobs.{
  JobProposal, CounterProposal, is_valid_transition, is_client, is_seller, can_counter, countered,
  accepted, set_delivered, new_job, propose_job, counter_job, accept_job, start_job, deliver_job,
}

-- One job row is written, and nothing else of the three tables.
abbrev pub EditsAs : Db → ℕ → (Job → Job) → Db → Type 0
EditsAs d job_id f u =
    (u.jobs ≡ adjust job_id f d.jobs) × (u.escrows ≡ d.escrows) × (u.agents ≡ d.agents)

abbrev pub IsParty : Job → ℕ → Type 0
IsParty job agent_id = (is_client job agent_id || is_seller job agent_id) ≡ true

abbrev pub CreatesAs : Db → (Job → Bool) → ℕ → Job → Db → Type 0
CreatesAs d p job_id job u =
    (p job ≡ true)
    × (contains job_id d.jobs ≡ false)
    × (contains job.client_agent_id d.agents ≡ true)
    × (contains job.seller_agent_id d.agents ≡ true)
    × (u.jobs ≡ insert job_id job d.jobs)
    × (u.escrows ≡ d.escrows)
    × (u.agents ≡ d.agents)

abbrev pub anything : Job → Bool
anything j = true

-- A proposal that raises has committed nothing. One that succeeds has committed one new job
-- under a fresh key, between two agents that exist, and no other change of jobs, escrows and
-- agents.
pub propose_job-CreatesAs :
    (job_id client_id : ℕ) (p : JobProposal) (s : Session)
    → Commits s
        (CreatesAs s.db anything job_id (new_job s.env.sha256_json client_id p))
        (propose_job job_id client_id p s)
unfolding propose_job
propose_job-CreatesAs job_id client_id p s = ground arith

-- A counter-proposal is refused with nothing written, or writes the new terms, or finds the rounds
-- used up and cancels the job.
abbrev pub CountersAs : Session → ℕ → ℕ → CounterProposal → Job → Result ⊤ × Session → Type 0
CountersAs s job_id agent_id p job (ok _, t) =
    (t.env ≡ s.env)
    × (t.committed ≡ t.db)
    × IsParty job agent_id
    × (can_counter job.status ≡ true)
    × (job.current_round < job.max_rounds)
    × EditsAs s.db job_id (countered agent_id p) t.db
CountersAs s job_id agent_id p job (err e, t) =
    (t.committed ≡ s.committed)
    ⊎ ((t.committed ≡ t.db)
        × (e ≡ rounds_exceeded)
        × IsParty job agent_id
        × (can_counter job.status ≡ true)
        × (job.max_rounds ≤ job.current_round)
        × EditsAs s.db job_id (set_job_status JobStatus.cancelled) t.db)

-- For a job: a counter-proposal that succeeds was by a party, within the rounds, to a job under
-- negotiation, and has committed the new terms. One that raises has committed nothing, or has
-- found the rounds used up and committed the cancellation of the job alone.
pub counter_job-CountersAs :
    (job_id agent_id : ℕ) (p : CounterProposal) (s : Session) (job : Job)
    → lookup job_id s.db.jobs ≡ some job
    → CountersAs s job_id agent_id p job (counter_job job_id agent_id p s)
unfolding counter_job
counter_job-CountersAs job_id agent_id p s job found = ground arith

abbrev pub MovesAs : Db → ℕ → Job → JobStatus → (Job → Job) → Db → Type 0
MovesAs d job_id job target f u =
    (is_valid_transition job.status target ≡ true) × EditsAs d job_id f u

-- For a job: an acceptance that raises has committed nothing. One that succeeds has committed a
-- job that may become agreed as agreed, and no other change of jobs, escrows and agents.
pub accept_job-MovesAs :
    (job_id agent_id : ℕ) (hash : Option Digest) (s : Session) (job : Job)
    → lookup job_id s.db.jobs ≡ some job
    → Commits s
        (MovesAs s.db job_id job JobStatus.agreed (accepted agent_id))
        (accept_job job_id agent_id hash s)
unfolding accept_job
accept_job-MovesAs job_id agent_id hash s job found = ground arith

-- For a job: a start that raises has committed nothing. One that succeeds was by a party, and
-- has committed a job that may be in progress as in progress, and no other change of jobs,
-- escrows and agents.
pub start_job-MovesAs :
    (job_id agent_id : ℕ) (s : Session) (job : Job)
    → lookup job_id s.db.jobs ≡ some job
    → Commits s
        (λ u.
          IsParty job agent_id
          × MovesAs s.db job_id job JobStatus.in_progress (set_job_status JobStatus.in_progress) u)
        (start_job job_id agent_id s)
unfolding start_job
start_job-MovesAs job_id agent_id s job found = ground arith

-- For a job: a delivery that raises has committed nothing. One that succeeds has committed a job
-- that may be delivered as delivered, with the result, and no other change of jobs, escrows and
-- agents.
pub deliver_job-MovesAs :
    (job_id agent_id : ℕ) (result : Deliverable) (s : Session) (job : Job)
    → lookup job_id s.db.jobs ≡ some job
    → Commits s
        (MovesAs s.db job_id job JobStatus.delivered (set_delivered result))
        (deliver_job job_id agent_id result s)
unfolding deliver_job
deliver_job-MovesAs job_id agent_id result s job found = ground arith
