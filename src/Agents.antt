-- ===== src/Agents.antt =====
-- app/services/agent.py: registration, updates, deactivation and the development deposit. An agent
-- card, its capabilities and a MoltBook identity come from outside; the confirmation mail and the
-- notification at the end of a registration, which may fail, are left out.
pub mod Deactivated
pub mod Schema
pub mod Public
use agent_repository.Common.{
  ℕ, ℤ, pos, Bool, true, false, not, ◌&&◌, ◌||◌, Option, none, some, List, [], ◌∷◌, is_some, Dict,
  lookup, contains, insert, find_row, ◌==◌, if◌then◌else◌,
}
use agent_repository.Models.{Agent, AgentStatus, HostingMode, Job, JobStatus}
use agent_repository.Session.{
  ◌>>=◌, ◌>>◌, ⊤, Action, agent_not_found, duplicate, invalid_input, integrity_error, pure, raise,
  gets, or_raise, raise_if, when, quietly, modify_db, commit, find_agent, write_agent, write_job,
}
use agent_repository.Escrow.{credit, set_job_status, refund_escrow}
use agent_repository.Jobs.{is_client, is_seller}
use agent_repository.Api.{is_abortable}
use agent_repository.Accounts.{validate_registration_token, link_agent_to_account}

pub record AgentCreate : Type 0 where
  pub public_key : ℕ
  pub has_endpoint : Bool
  pub hosting_mode : HostingMode
  pub capabilities : ℕ
  pub registration_token : Option ℕ
  pub moltbook_identity_token : Option ℕ

-- The fields that are set.
pub record AgentUpdate : Type 0 where
  pub changes_endpoint : Bool
  pub new_capabilities : Option ℕ

-- The card that an endpoint serves, with its capabilities; the card that the platform makes of
-- capabilities; the identity of a MoltBook token.
pub record Registry : Type 0 where
  pub fetch_card : Option (ℕ × ℕ)
  pub platform_card : ℕ → ℕ
  pub verify_identity : ℕ → Option ℕ

abbrev pub is_external : HostingMode → Bool
is_external HostingMode.external = true
is_external _ = false

-- The card, and the capabilities that the row gets.
unfoldable pub agent_card : Registry → Bool → AgentCreate → Action (Option ℕ × ℕ)
agent_card registry skip_card_fetch data_in =
    if not (is_external data_in.hosting_mode)
    then pure (some (registry.platform_card data_in.capabilities), data_in.capabilities)
    else if skip_card_fetch
    then pure (none, data_in.capabilities)
    else (do card ← or_raise registry.fetch_card invalid_input; pure (some card.0, card.1))

abbrev pub has_identity : ℕ → Agent → Bool
has_identity identity a = elim a.moltbook_id [ some m ↦ m == identity | none ↦ false ]

unfoldable pub moltbook_identity : Registry → Bool → Option ℕ → Action (Option ℕ)
moltbook_identity registry required none = do raise_if required invalid_input; pure none
moltbook_identity registry required (some token) = do
  identity ← or_raise (registry.verify_identity token) invalid_input
  linked ← gets (λ s. find_row (has_identity identity) s.db.agents)
  raise_if (is_some linked) duplicate
  pure (some identity)

-- The address of the account, if one is needed.
unfoldable pub registering_account : ℕ → Bool → Option ℕ → Action (Option ℕ)
registering_account now false token = pure none
registering_account now true none = raise invalid_input
registering_account now true (some token) = do
  email ← validate_registration_token now token
  pure (some email)

unfoldable pub new_agent : AgentCreate → Option ℕ × ℕ → Option ℕ → Agent
new_agent data_in card identity = record {
  public_key = data_in.public_key;
  has_endpoint = data_in.has_endpoint;
  status = AgentStatus.active;
  balance = pos 0;
  reputation_seller = 0;
  reputation_client = 0;
  hosting_mode = data_in.hosting_mode;
  capabilities = card.1;
  a2a_agent_card = card.0;
  moltbook_id = identity;
  is_online = false;
  last_connected_at = none;
}

unfoldable pub link_account : Option ℕ → ℕ → Action ⊤
unfolding link_agent_to_account
link_account none agent_id = pure tt
link_account (some email) agent_id = link_agent_to_account email agent_id

-- `agent_id` is drawn.
unfoldable pub register_agent : Registry → Bool → ℕ → ℕ → AgentCreate → Action ⊤
unfolding agent_card moltbook_identity registering_account new_agent link_account
register_agent registry skip_card_fetch now agent_id data_in = do
  cfg ← gets (λ s. s.env.settings)
  account ← registering_account now cfg.email_verification_required data_in.registration_token
  taken ← gets (λ s. find_row (λ a. a.public_key == data_in.public_key) s.db.agents)
  raise_if (is_some taken) duplicate
  card ← agent_card registry skip_card_fetch data_in
  identity ← moltbook_identity registry cfg.moltbook_required data_in.moltbook_identity_token
  known ← gets (λ s. contains agent_id s.db.agents)
  raise_if known integrity_error
  modify_db (λ d. record d { agents = insert agent_id (new_agent data_in card identity) d.agents })
  link_account account agent_id
  commit

abbrev pub get_agent : ℕ → Action Agent
get_agent agent_id = do or_raise (← find_agent agent_id) agent_not_found

unfoldable pub update_endpoint : Registry → Bool → ℕ → Bool → Action ⊤
update_endpoint registry skip_card_fetch agent_id changes =
    when (changes && not skip_card_fetch) (do
      card ← or_raise registry.fetch_card invalid_input
      write_agent agent_id (λ a. record a { a2a_agent_card = some card.0; capabilities = card.1 }))

unfoldable pub with_capabilities : Registry → Option ℕ → Agent → Agent
with_capabilities registry none a = a
with_capabilities registry (some c) a = record a {
  capabilities = c;
  a2a_agent_card =
      if is_external a.hosting_mode then a.a2a_agent_card else some (registry.platform_card c);
}

unfoldable pub update_agent : Registry → Bool → ℕ → AgentUpdate → Action ⊤
unfolding update_endpoint with_capabilities
update_agent registry skip_card_fetch agent_id data_in = do
  get_agent agent_id
  update_endpoint registry skip_card_fetch agent_id data_in.changes_endpoint
  write_agent agent_id (with_capabilities registry data_in.new_capabilities)
  when data_in.changes_endpoint (write_agent agent_id (λ a. record a { has_endpoint = true }))
  commit

unfoldable pub is_cancelable : JobStatus → Bool
is_cancelable JobStatus.proposed = true
is_cancelable JobStatus.negotiating = true
is_cancelable JobStatus.agreed = true
is_cancelable _ = false

-- The jobs of an agent that are cancelable or refundable.
unfoldable pub active_jobs : ℕ → Dict Job → List ℕ
unfolding is_cancelable is_abortable is_client is_seller
active_jobs agent_id [] = []
active_jobs agent_id ((k, j) ∷ d) =
    let rest = active_jobs agent_id d in
    if (is_client j agent_id || is_seller j agent_id)
      && (is_cancelable j.status || is_abortable j.status)
    then k ∷ rest
    else rest

-- A refund that raises is logged; the job has been marked failed.
unfoldable pub close_job : ℕ → Option Job → Action ⊤
unfolding is_cancelable is_abortable
close_job job_id none = pure tt
close_job job_id (some job) =
    if is_cancelable job.status
    then write_job job_id (set_job_status JobStatus.cancelled)
    else when (is_abortable job.status)
        (do write_job job_id (set_job_status JobStatus.failed); quietly (refund_escrow job_id))

unfoldable pub close_jobs : List ℕ → Action ⊤
unfolding close_job
close_jobs [] = pure tt
close_jobs (k ∷ ks) = do job ← gets (λ s. lookup k s.db.jobs); close_job k job; close_jobs ks

unfoldable pub deactivate_agent : ℕ → Action ⊤
unfolding close_jobs active_jobs
deactivate_agent agent_id = do
  get_agent agent_id
  active ← gets (λ s. active_jobs agent_id s.db.jobs)
  close_jobs active
  write_agent agent_id (λ a. record a { status = AgentStatus.deactivated })
  commit

-- Adds credits; only outside production, where it is enabled.
unfoldable pub deposit : ℕ → ℤ → Action ⊤
deposit agent_id amount = do
  or_raise (← find_agent agent_id) agent_not_found
  write_agent agent_id (credit amount)
  commit
