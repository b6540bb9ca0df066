-- ===== src/Jobs/Rights.antt =====
-- Who may move a job, and what a party sees of it.
use agent_repository.Common.{
  ℕ, ◌≡◌, ◌≢◌, ◌⊎◌, true, false, Option, none, some, lookup, is_some, arith,
}
use agent_repository.Models.{Job, JobStatus, Criteria, Digest, Deliverable}
use agent_repository.Session.{⊤, Session, Result, ok, err, not_a_party, only_seller}
use agent_repository.Escrow.Specs.{Commits}
use agent_repository.Jobs.{is_seller, start_job, deliver_job, accept_job, job_response}
use agent_repository.Jobs.Specs.{IsParty}
use agent_repository.Api.{get_job_view}

-- For a job with criteria: an acceptance by its seller that succeeds gave a hash, not blank, and
-- the one that the job has; one that raises has committed nothing.
pub accept_job-hash :
    (job_id : ℕ) (provided : Option Digest) (s : Session) (job : Job) (c : Criteria)
    → lookup job_id s.db.jobs ≡ some job
    → job.acceptance_criteria ≡ some c
    → Commits s
        (λ u.
          (is_some provided ≡ true)
          × (provided ≡ job.acceptance_criteria_hash)
          × (provided ≢ some Digest.blank))
        (accept_job job_id job.seller_agent_id provided s)
unfolding accept_job
accept_job-hash job_id provided s job c found criteria = ground arith

-- Nothing but the refusal of another agent than the seller.
abbrev pub OnlySeller : Session → Job → ℕ → Result ⊤ × Session → Type 0
OnlySeller s job agent_id p =
    is_seller job agent_id ≡ false
    → (p.0 ≡ err only_seller) × (p.1.committed ≡ s.committed) × (p.1.db ≡ s.db)

-- For a job: a start by an agent that is not its seller is refused as such, with nothing
-- committed or written.
start_job-OnlySeller :
    (job_id agent_id : ℕ) (s : Session) (job : Job)
    → lookup job_id s.db.jobs ≡ some job
    → OnlySeller s job agent_id (start_job job_id agent_id s)
unfolding start_job
start_job-OnlySeller job_id agent_id s job found other = ground arith

-- For a job: a delivery by an agent that is not its seller is refused as such, with nothing
-- committed or written.
deliver_job-OnlySeller :
    (job_id agent_id : ℕ) (result : Deliverable) (s : Session) (job : Job)
    → lookup job_id s.db.jobs ≡ some job
    → OnlySeller s job agent_id (deliver_job job_id agent_id result s)
unfolding deliver_job
deliver_job-OnlySeller job_id agent_id result s job found other = ground arith

-- What a view shows: to a party, the row without its deliverable, unless the job is completed.
abbrev pub ShowsAs : Session → Job → ℕ → Result Job × Session → Type 0
ShowsAs s job agent_id (ok j, t) =
    (t ≡ s)
    × IsParty job agent_id
    × (j.status ≡ job.status)
    × ((j.result ≡ none) ⊎ ((job.status ≡ JobStatus.completed) × (j.result ≡ job.result)))
ShowsAs s job agent_id (err e, t) = (t ≡ s) × (e ≡ not_a_party)

pub get_job_view-ShowsAs :
    (job_id agent_id : ℕ) (s : Session) (job : Job)
    → lookup job_id s.db.jobs ≡ some job
    → ShowsAs s job agent_id (get_job_view job_id agent_id s)
unfolding get_job_view job_response
get_job_view-ShowsAs job_id agent_id s job found = ground arith
