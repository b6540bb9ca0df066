-- ===== src/Tests.antt =====
-- A marketplace of two agents on which the theorems are tried, and runs of a whole job.
pub mod Services
pub mod Escrows
pub mod Wallets
pub mod Operators
pub mod Reputations
pub mod Hosts
use agent_repository.Common.{
  is_some, ◌≢◌, insert, adjust, erase, map_some, ◌+ℤ◌, ◌-ℤ◌, ℤ, pos, ◌≡◌, refl, true, false, none,
  some, List, [], ◌∷◌, Dict, lookup, arith,
}
use agent_repository.Models.{
  Criteria, Digest, Db, Agent, HostingMode, Job, Escrow, JobStatus, EscrowStatus, AgentStatus,
  Deliverable, empty_db,
}
use agent_repository.Settings.{Settings, default_settings}
use agent_repository.Session.{Env, Redis, Session}
use agent_repository.Linked.{IsLinked}
use agent_repository.Jobs.{validate_deliverable, validate_proposal, JobProposal, new_job}
use agent_repository.Jobs.Rights.{ShowsAs, accept_job-hash, get_job_view-ShowsAs}
use agent_repository.Jobs
use agent_repository.Escrow
use agent_repository.Api
use agent_repository.Api.Serve.{
  handle, Request, World, serve, serve_all, propose, accept, fund, complete, start, deliver,
}
use agent_repository.Webhooks.{
  is_connected, enqueue_webhook, disconnect, event_state, wake_agent, is_hosted_and_sleeping,
  send_event, notify_job_event,
}
use agent_repository.Fees.{
  half_even_ℤ, half_even, round_up_ℤ, calculate_storage_fee, charge_fee, round_up,
  calculate_base_fee,
}
use agent_repository.Lifecycle.Histories.{serve_all-IsLinked}
use agent_repository.Lifecycle.Ended.{serve_all-ended, Stays}
use agent_repository.Escrow.Specs.{Commits}

abbrev settings : Settings
settings = record default_settings {
  fee_base_percent = record { num = 1; scale = 100 };
  withdrawal_flat_fee = pos 5;
}

abbrev env : Env
env = record {
  now = 0;
  settings = settings;
  sha256_json = λ c. 77;
  script_ok = λ n. true;
  run_script = λ n r. some (record { passed = true; elapsed = record { num = 2; scale = 1 } });
  redis_up = true;
  wakes = λ a. true;
  wake_error = λ a. [];
  connects = λ a. true;
  sends = λ a. true;
}

abbrev idle : Redis
idle = record {
  deadlines = [];
  verify_locks = [];
  connections = [];
  online_agents = [];
  builds = [];
  nonces = [];
  withdrawals_paused = false;
}

abbrev agent : ℤ → Agent
agent balance = record {
  public_key = 0;
  has_endpoint = true;
  status = AgentStatus.active;
  balance = balance;
  reputation_seller = 0;
  reputation_client = 0;
  hosting_mode = HostingMode.external;
  capabilities = 0;
  a2a_agent_card = none;
  moltbook_id = none;
  is_online = false;
  last_connected_at = none;
}

abbrev agents : Dict Agent
agents = (1, agent (pos 1000)) ∷ (2, agent (pos 500)) ∷ []

abbrev proposal : JobProposal
proposal = record {
  seller_agent_id = 2;
  acceptance_criteria = none;
  max_budget = pos 600;
  client_abort_penalty = pos 100;
  seller_abort_penalty = pos 50;
  delivery_deadline = some 3600;
  max_rounds = 3;
}

abbrev job : JobStatus → Job
job st = record (new_job env.sha256_json 1 proposal) { status = st }

abbrev escrow : EscrowStatus → Escrow
escrow st = record {
  escrow_id = 70;
  client_agent_id = 1;
  seller_agent_id = 2;
  amount = pos 600;
  seller_bond_amount = pos 50;
  status = st;
}

-- Only the agents.
abbrev opened : Db
opened = record empty_db { agents = agents }

-- The agents, and job 7.
abbrev with_job : JobStatus → Db
with_job st = record opened { jobs = (7, job st) ∷ [] }

-- The agents, job 7 and its escrow.
abbrev with_escrow : JobStatus → EscrowStatus → Db
with_escrow st e = record (with_job st) { escrows = (7, escrow e) ∷ [] }

abbrev session : Db → Session
session d = record { env = env; committed = d; db = d; redis = idle }

abbrev result : Deliverable
result = record { content = 3; json_size = 2000; compact_size = 1900 }

abbrev whole_job : List (Env × Request)
whole_job =
    (env, propose 7 1 proposal)
    ∷ (env, accept 7 2 none)
    ∷ (env, fund 70 7 1)
    ∷ (env, start 7 2)
    ∷ (env, deliver 7 2 result)
    ∷ (env, complete 7 1)
    ∷ []

abbrev start_world : World
start_world = record { tables = opened; redis = idle }

opened-IsLinked : IsLinked opened
unfolding lookup
opened-IsLinked k = tt

ended-IsLinked : IsLinked (with_escrow JobStatus.completed EscrowStatus.released)
unfolding lookup new_job
ended-IsLinked k = ground arith

-- The whole job is served: the seller ends with the price, less its share of the fee.
whole_job-balances :
    map_some Agent.balance (lookup 2 (serve_all start_world whole_job).tables.agents)
    ≡ some (pos 1097)
unfolding serve serve_all handle lookup insert adjust erase new_job ◌+ℤ◌ ◌-ℤ◌ notify_job_event
    enqueue_webhook event_state Api.propose_job Api.accept_job Api.fund_job Api.start_job
    Api.deliver_job Api.complete_job Jobs.propose_job Jobs.accept_job Jobs.start_job
    Jobs.deliver_job Escrow.fund_job Escrow.release_escrow charge_fee calculate_storage_fee
    calculate_base_fee round_up round_up_ℤ half_even half_even_ℤ validate_proposal
    validate_deliverable is_connected is_hosted_and_sleeping wake_agent send_event disconnect
whole_job-balances = refl

serve_all-IsLinked_example : IsLinked (serve_all start_world whole_job).tables
serve_all-IsLinked_example = serve_all-IsLinked whole_job start_world opened-IsLinked

abbrev ended_world : World
ended_world = record {
  tables = with_escrow JobStatus.completed EscrowStatus.released;
  redis = idle;
}

serve_all-ended_example :
    Stays 7 (job JobStatus.completed) ended_world.tables (serve_all ended_world whole_job).tables
unfolding lookup
serve_all-ended_example =
    serve_all-ended whole_job ended_world 7 (job JobStatus.completed) ended-IsLinked refl refl

-- A job whose criteria are script 5, with the digest of the environment's hash.
abbrev scripted : Job
scripted = record (job JobStatus.proposed) {
  acceptance_criteria = some (Criteria.script 5);
  acceptance_criteria_hash = some (Digest.hex 77);
}

abbrev with_script : Db
with_script = record opened { jobs = (7, scripted) ∷ [] }

accept_job-hash_example :
    Commits
      (session with_script)
      (λ u.
        (is_some (some (Digest.hex 77)) ≡ true)
        × (some (Digest.hex 77) ≡ scripted.acceptance_criteria_hash)
        × (some (Digest.hex 77) ≢ some Digest.blank))
      (Jobs.accept_job 7 2 (some (Digest.hex 77)) (session with_script))
unfolding lookup new_job
accept_job-hash_example =
    accept_job-hash 7 (some (Digest.hex 77)) (session with_script) scripted (Criteria.script 5) refl
      refl

get_job_view-ShowsAs_example :
    let s = session (with_job JobStatus.delivered) in
    ShowsAs s (job JobStatus.delivered) 1 (Api.get_job_view 7 1 s)
unfolding lookup
get_job_view-ShowsAs_example =
    get_job_view-ShowsAs 7 1 (session (with_job JobStatus.delivered)) (job JobStatus.delivered) refl
