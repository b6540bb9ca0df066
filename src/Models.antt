-- ===== src/Models.antt =====
-- The rows that the modelled services read and write (app/models), and the database as a value.
-- UUIDs are numbers, an amount of money is a number of cents, a point in time a number of seconds.
-- A JSON document that the services only store, hash or hand on is a number that stands for it.
use agent_repository.Common.{ℕ, ℤ, Bool, Option, none, List, [], Dict}
use agent_repository.Common.Text.{Text}
use agent_repository.Yaml.{Yaml}

pub data JobStatus : Type 0 where
  proposed negotiating agreed funded in_progress delivered verifying completed failed disputed
        resolved cancelled :
      JobStatus

pub data EscrowStatus : Type 0 where
  pending funded released refunded disputed : EscrowStatus

pub data EscrowAction : Type 0 where
  created funded released refunded disputed resolved seller_bond_funded abort_client abort_seller
        bond_forfeited bond_returned :
      EscrowAction

pub data AgentStatus : Type 0 where
  active suspended deactivated : AgentStatus

-- The values of `hosting_mode`.
pub data HostingMode : Type 0 where
  external websocket client_only hosted : HostingMode

pub data WebhookStatus : Type 0 where
  pending delivered failed : WebhookStatus

pub data DeploymentStatus : Type 0 where
  building deploying running sleeping stopped errored : DeploymentStatus

pub JobStatus-discrete : Discrete JobStatus
JobStatus-discrete = hlevel

-- A SHA-256 digest in hexadecimal, or the empty string.
pub data Digest : Type 0 where
  blank : Digest
  hex : ℕ → Digest

-- A criteria dict: empty, with a non-empty `script` key, or anything else.
pub data Criteria : Type 0 where
  empty : Criteria
  script : ℕ → Criteria
  declarative : ℕ → Criteria

-- A deliverable, with the lengths of its two JSON encodings.
pub record Deliverable : Type 0 where
  pub content : ℕ
  pub json_size : ℕ  -- len(json.dumps(result, default=str).encode())
  pub compact_size : ℕ  -- len(json.dumps(result, separators=(",", ":")).encode())

pub record Agent : Type 0 where
  pub public_key : ℕ
  pub has_endpoint : Bool  -- `endpoint_url` is not NULL
  pub status : AgentStatus
  pub balance : ℤ
  pub reputation_seller : ℕ  -- in hundredths
  pub reputation_client : ℕ
  pub hosting_mode : HostingMode
  pub capabilities : ℕ
  pub a2a_agent_card : Option ℕ
  pub moltbook_id : Option ℕ
  pub is_online : Bool
  pub last_connected_at : Option ℕ

-- An entry of `negotiation_log`: the proposal or a counter-proposal, or an acceptance.
pub data LogEntry : Type 0 where
  round : ℕ → ℕ → ℤ → LogEntry  -- round, proposer, proposed_price
  accepted : ℕ → Option ℤ → Option Digest → LogEntry  -- by, agreed_price, criteria hash

pub record Job : Type 0 where
  pub client_agent_id : ℕ
  pub seller_agent_id : ℕ
  pub status : JobStatus
  pub acceptance_criteria : Option Criteria
  pub acceptance_criteria_hash : Option Digest
  pub agreed_price : Option ℤ
  pub delivery_deadline : Option ℕ
  pub negotiation_log : List LogEntry
  pub max_rounds : ℕ
  pub current_round : ℕ
  pub client_abort_penalty : ℤ
  pub seller_abort_penalty : ℤ
  pub result : Option Deliverable

pub record Escrow : Type 0 where
  pub escrow_id : ℕ
  pub client_agent_id : ℕ
  pub seller_agent_id : ℕ
  pub amount : ℤ
  pub seller_bond_amount : ℤ
  pub status : EscrowStatus

pub record AuditEntry : Type 0 where
  pub escrow_id : ℕ
  pub action : EscrowAction
  pub actor_agent_id : Option ℕ
  pub amount : ℤ

pub data EventType : Type 0 where
  job_proposed job_counter_received job_accepted job_funded job_started job_delivered job_completed
        job_failed job_cancelled :
      EventType

-- The state of an A2A task.
pub data TaskState : Type 0 where
  submitted working completed failed : TaskState

-- A row of `webhook_deliveries`; the payload carries the job and the state.
pub record Delivery : Type 0 where
  pub target_agent_id : ℕ
  pub event_type : EventType
  pub job_id : ℕ
  pub state : TaskState
  pub status : WebhookStatus
  pub attempts : ℕ

pub data ReviewRole : Type 0 where
  client_reviewing_seller seller_reviewing_client : ReviewRole

pub record HostedAgent : Type 0 where
  pub manifest : Yaml
  pub source_hash : ℕ
  pub container_id : Option ℕ
  pub status : DeploymentStatus
  pub runtime : Text
  pub region : Text
  pub build_log : Option Text
  pub error_message : Option Text
  pub cpu_limit : Text
  pub memory_limit_mb : ℤ
  pub scale_to_zero : Bool
  pub idle_timeout_seconds : ℕ
  pub last_activity_at : Option ℕ
  pub created_at : ℕ

pub record Review : Type 0 where
  pub job_id : ℕ
  pub reviewer_agent_id : ℕ
  pub reviewee_agent_id : ℕ
  pub role : ReviewRole
  pub rating : ℕ
  pub created_at : ℕ

pub data DepositStatus : Type 0 where
  pending confirming credited failed : DepositStatus

pub data WithdrawalStatus : Type 0 where
  pending processing completed failed : WithdrawalStatus

-- `address` is the lower-case address.
pub record DepositAddress : Type 0 where
  pub address : ℕ
  pub derivation_index : ℕ

pub record DepositTransaction : Type 0 where
  pub agent_id : ℕ
  pub tx_hash : ℕ
  pub amount_credits : ℤ
  pub block_number : ℕ
  pub status : DepositStatus

pub record WithdrawalRequest : Type 0 where
  pub agent_id : ℕ
  pub amount : ℤ
  pub fee : ℤ
  pub net_payout : ℤ
  pub destination_address : ℕ
  pub status : WithdrawalStatus
  pub tx_hash : Option ℕ

pub data VerificationPurpose : Type 0 where
  signup recovery : VerificationPurpose

pub record Account : Type 0 where
  pub email_verified : Bool
  pub agent_id : Option ℕ
  pub dashboard_token : Option ℕ
  pub dashboard_token_expires_at : Option ℕ

pub record EmailVerification : Type 0 where
  pub email : ℕ
  pub purpose : VerificationPurpose
  pub token : ℕ
  pub registration_token : Option ℕ
  pub registration_token_expires_at : ℕ
  pub expires_at : ℕ
  pub used : Bool

pub data ListingStatus : Type 0 where
  active paused archived : ListingStatus

pub record Listing : Type 0 where
  pub seller_agent_id : ℕ
  pub skill_id : ℕ
  pub description : Option ℕ
  pub base_price : ℤ
  pub status : ListingStatus

pub record AgentSecret : Type 0 where
  pub agent_id : ℕ
  pub key : Text
  pub encrypted_value : Text

-- The tables. `escrow_accounts` is keyed by `job_id` and `deposit_addresses` by `agent_id`, on
-- which they have unique constraints, `accounts` by `email`. `last_scanned_block` is the one row of
-- `deposit_watcher_state`, if it is there.
pub record Db : Type 0 where
  pub agents : Dict Agent
  pub jobs : Dict Job
  pub escrows : Dict Escrow
  pub audit : List AuditEntry
  pub deliveries : List Delivery
  pub hosted : Dict HostedAgent  -- by their agent
  pub reviews : List Review
  pub addresses : Dict DepositAddress
  pub deposits : Dict DepositTransaction
  pub withdrawals : Dict WithdrawalRequest
  pub accounts : Dict Account
  pub verifications : Dict EmailVerification
  pub last_scanned_block : Option ℕ
  pub listings : Dict Listing
  pub secrets : List AgentSecret

abbrev pub empty_db : Db
empty_db = record {
  agents = [];
  jobs = [];
  escrows = [];
  audit = [];
  deliveries = [];
  hosted = [];
  reviews = [];
  addresses = [];
  deposits = [];
  withdrawals = [];
  accounts = [];
  verifications = [];
  last_scanned_block = none;
  listings = [];
  secrets = [];
}
