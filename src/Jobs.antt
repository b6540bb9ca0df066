-- ===== src/Jobs.antt =====
-- The job lifecycle: app/models/job.py (the table of transitions), the validators of
-- app/schemas/job.py, and app/services/job.py.
pub mod Specs
pub mod Rights
use agent_repository.Common.{
  ℕ, ◌+◌, ◌*◌, ℤ, pos, Bool, true, false, not, ◌&&◌, ◌||◌, Option, none, some, [], ◌∷◌, ◌++◌,
  contains, insert, leb, ltb_ℤ, leb_ℤ, ◌==◌, if◌then◌else◌,
}
use agent_repository.Models.{
  Agent, Job, Escrow, JobStatus, proposed, negotiating, agreed, funded, in_progress, delivered,
  verifying, completed, failed, cancelled, AgentStatus, Criteria, Digest, Deliverable, LogEntry,
}
use agent_repository.Session.{
  ◌>>=◌, ◌>>◌, ⊤, Action, agent_not_active, self_job, below_minimum_balance, not_a_party,
  only_seller, bad_transition, wrong_status, rounds_exceeded, hash_missing, hash_mismatch,
  not_available, integrity_error, pure, raise, gets, or_raise, raise_if, when, modify_db, commit,
  get_job, find_agent, find_escrow, write_job,
}
use agent_repository.Escrow.{is_funded, set_job_status, refund_escrow}

-- `target in VALID_TRANSITIONS[current]`
unfoldable pub is_valid_transition : JobStatus → JobStatus → Bool
is_valid_transition proposed negotiating = true
is_valid_transition proposed agreed = true
is_valid_transition proposed cancelled = true
is_valid_transition negotiating agreed = true
is_valid_transition negotiating cancelled = true
is_valid_transition agreed funded = true
is_valid_transition agreed cancelled = true
is_valid_transition funded in_progress = true
is_valid_transition funded cancelled = true
is_valid_transition in_progress delivered = true
is_valid_transition in_progress cancelled = true
is_valid_transition in_progress failed = true
is_valid_transition delivered verifying = true
is_valid_transition delivered in_progress = true
is_valid_transition delivered cancelled = true
is_valid_transition delivered failed = true
is_valid_transition verifying completed = true
is_valid_transition verifying in_progress = true
is_valid_transition _ _ = false

-- 1,000,000 credits.
abbrev pub max_price : ℤ
max_price = pos 100000000

-- max_digits=12, decimal_places=2
abbrev pub fits : ℤ → Bool
fits x = ltb_ℤ x (pos 1000000000000)

pub record JobProposal : Type 0 where
  pub seller_agent_id : ℕ
  pub acceptance_criteria : Option Criteria
  pub max_budget : ℤ
  pub client_abort_penalty : ℤ
  pub seller_abort_penalty : ℤ
  pub delivery_deadline : Option ℕ
  pub max_rounds : ℕ

pub record CounterProposal : Type 0 where
  pub proposed_price : ℤ
  pub client_abort_penalty : Option ℤ
  pub seller_abort_penalty : Option ℤ

-- `validate_acceptance_criteria`
unfoldable pub criteria_ok : (ℕ → Bool) → Option Criteria → Bool
criteria_ok script_ok none = true
criteria_ok script_ok (some Criteria.empty) = true
criteria_ok script_ok (some (Criteria.script n)) = script_ok n
criteria_ok script_ok (some (Criteria.declarative n)) = false

unfoldable pub penalty_ok : ℤ → Bool
penalty_ok x = leb_ℤ (pos 0) x && fits x

unfoldable pub penalty_ok? : Option ℤ → Bool
unfolding penalty_ok
penalty_ok? none = true
penalty_ok? (some x) = penalty_ok x

unfoldable pub price_ok : ℤ → Bool
price_ok x = ltb_ℤ (pos 0) x && leb_ℤ x max_price

unfoldable pub validate_proposal : (ℕ → Bool) → JobProposal → Bool
unfolding price_ok penalty_ok criteria_ok
validate_proposal script_ok p =
    price_ok p.max_budget
    && (penalty_ok p.client_abort_penalty && leb_ℤ p.client_abort_penalty p.max_budget)
    && (penalty_ok p.seller_abort_penalty && leb_ℤ p.seller_abort_penalty p.max_budget)
    && (leb 1 p.max_rounds && leb p.max_rounds 20)
    && criteria_ok script_ok p.acceptance_criteria

unfoldable pub validate_counter : CounterProposal → Bool
unfolding price_ok penalty_ok?
validate_counter p =
    price_ok p.proposed_price
    && penalty_ok? p.client_abort_penalty
    && penalty_ok? p.seller_abort_penalty

-- The body of a delivery is at most 512 KB.
unfoldable pub validate_deliverable : Deliverable → Bool
validate_deliverable d = leb d.compact_size (512 * 1024)

unfoldable pub is_client : Job → ℕ → Bool
is_client job agent_id = job.client_agent_id == agent_id

unfoldable pub is_seller : Job → ℕ → Bool
is_seller job agent_id = job.seller_agent_id == agent_id

-- `_assert_transition`
unfoldable pub assert_transition : JobStatus → JobStatus → Action ⊤
unfolding is_valid_transition
assert_transition current target =
    raise_if (not (is_valid_transition current target)) bad_transition

-- `_assert_party` with `allowed` "both" and "seller"
unfoldable pub assert_party : Job → ℕ → Action ⊤
unfolding is_client is_seller
assert_party job agent_id =
    raise_if (not (is_client job agent_id || is_seller job agent_id)) not_a_party

unfoldable pub assert_seller : Job → ℕ → Action ⊤
unfolding is_seller
assert_seller job agent_id = raise_if (not (is_seller job agent_id)) only_seller

unfoldable pub hash_criteria : (Criteria → ℕ) → Option Criteria → Option Digest
hash_criteria sha none = none
hash_criteria sha (some c) = some (Digest.hex (sha c))

unfoldable pub is_active : AgentStatus → Bool
is_active AgentStatus.active = true
is_active _ = false

unfoldable pub active_agent : ℕ → Action Agent
unfolding is_active
active_agent agent_id = do
  agent ← or_raise (← find_agent agent_id) agent_not_active
  raise_if (not (is_active agent.status)) agent_not_active
  pure agent

unfoldable pub new_job : (Criteria → ℕ) → ℕ → JobProposal → Job
unfolding hash_criteria
new_job sha client_id p = record {
  client_agent_id = client_id;
  seller_agent_id = p.seller_agent_id;
  status = proposed;
  acceptance_criteria = p.acceptance_criteria;
  acceptance_criteria_hash = hash_criteria sha p.acceptance_criteria;
  agreed_price = some p.max_budget;
  delivery_deadline = p.delivery_deadline;
  negotiation_log = LogEntry.round 0 client_id p.max_budget ∷ [];
  max_rounds = p.max_rounds;
  current_round = 0;
  client_abort_penalty = p.client_abort_penalty;
  seller_abort_penalty = p.seller_abort_penalty;
  result = none;
}

-- `job_id` is the UUID drawn for the new row; a key that is taken is an integrity error.
unfoldable pub propose_job : ℕ → ℕ → JobProposal → Action ⊤
unfolding active_agent new_job
propose_job job_id client_id p = do
  client ← active_agent client_id
  active_agent p.seller_agent_id
  raise_if (client_id == p.seller_agent_id) self_job
  env ← gets (λ s. s.env)
  raise_if (ltb_ℤ client.balance env.settings.min_balance_to_propose_job) below_minimum_balance
  taken ← gets (λ s. contains job_id s.db.jobs)
  raise_if taken integrity_error
  modify_db λ d. record d { jobs = insert job_id (new_job env.sha256_json client_id p) d.jobs }
  commit

unfoldable pub can_counter : JobStatus → Bool
can_counter proposed = true
can_counter negotiating = true
can_counter _ = false

abbrev pub get_or : {A : Type 0} → Option A → A → A
get_or none d = d
get_or (some a) d = a

-- The row after a counter-proposal.
unfoldable pub countered : ℕ → CounterProposal → Job → Job
countered agent_id p job = record job {
  status = negotiating;
  current_round = job.current_round + 1;
  agreed_price = some p.proposed_price;
  client_abort_penalty = get_or p.client_abort_penalty job.client_abort_penalty;
  seller_abort_penalty = get_or p.seller_abort_penalty job.seller_abort_penalty;
  negotiation_log =
      job.negotiation_log ++ LogEntry.round (job.current_round + 1) agent_id p.proposed_price ∷ [];
}

-- Out of rounds, the job is cancelled, and that is committed before the request is refused.
unfoldable pub counter_job : ℕ → ℕ → CounterProposal → Action ⊤
unfolding assert_party can_counter countered
counter_job job_id agent_id p = do
  job ← get_job job_id
  assert_party job agent_id
  raise_if (not (can_counter job.status)) wrong_status
  if leb job.max_rounds job.current_round
      then (do write_job job_id (set_job_status cancelled); commit; raise rounds_exceeded)
      else (do write_job job_id (countered agent_id p); commit)

-- What a seller must show of the criteria, if the job has any.
unfoldable pub check_hash : Option Criteria → Option Digest → Option Digest → Action ⊤
check_hash none expected provided = pure tt
check_hash (some c) expected none = raise hash_missing
check_hash (some c) expected (some Digest.blank) = raise hash_missing
check_hash (some c) none (some (Digest.hex h)) = raise hash_mismatch
check_hash (some c) (some Digest.blank) (some (Digest.hex h)) = raise hash_mismatch
check_hash (some c) (some (Digest.hex g)) (some (Digest.hex h)) =
    raise_if (not (h == g)) hash_mismatch

unfoldable pub accepted : ℕ → Job → Job
accepted agent_id job = record job {
  status = agreed;
  negotiation_log =
      job.negotiation_log
      ++ LogEntry.accepted agent_id job.agreed_price job.acceptance_criteria_hash ∷ [];
}

unfoldable pub accept_job : ℕ → ℕ → Option Digest → Action ⊤
unfolding assert_party assert_transition check_hash accepted
accept_job job_id agent_id provided = do
  job ← get_job job_id
  assert_party job agent_id
  assert_transition job.status agreed
  when (agent_id == job.seller_agent_id)
      (check_hash job.acceptance_criteria job.acceptance_criteria_hash provided)
  write_job job_id (accepted agent_id)
  commit

unfoldable pub start_job : ℕ → ℕ → Action ⊤
unfolding assert_seller assert_transition
start_job job_id agent_id = do
  job ← get_job job_id
  assert_seller job agent_id
  assert_transition job.status in_progress
  write_job job_id (set_job_status in_progress)
  commit

abbrev pub set_delivered : Deliverable → Job → Job
set_delivered result job = record job { status = delivered; result = some result }

unfoldable pub deliver_job : ℕ → ℕ → Deliverable → Action ⊤
unfolding assert_seller assert_transition
deliver_job job_id agent_id result = do
  job ← get_job job_id
  assert_seller job agent_id
  assert_transition job.status delivered
  write_job job_id (set_delivered result)
  commit

abbrev pub holds_funds : Option Escrow → Bool
holds_funds none = false
holds_funds (some e) = is_funded e.status

unfoldable pub fail_job : ℕ → ℕ → Action ⊤
unfolding assert_party assert_transition is_funded
fail_job job_id agent_id = do
  job ← get_job job_id
  assert_party job agent_id
  assert_transition job.status failed
  escrow ← find_escrow job_id
  if holds_funds escrow
      then refund_escrow job_id
      else (do write_job job_id (set_job_status failed); commit)

-- Disabled in V1.
unfoldable pub dispute_job : ℕ → ℕ → Action ⊤
dispute_job job_id agent_id = raise not_available

-- `JobResponse`: the deliverable is shown only once the job is completed.
unfoldable pub job_response : Job → Job
job_response job = elim job.status [ completed ↦ job | _ ↦ record job { result = none } ]
