-- ===== src/Auth.antt =====
-- app/auth/middleware.py (`verify_request`) and `is_timestamp_valid` of app/utils/crypto.py. What
-- the standard library parses, and the check of a signature, are outside.
pub mod Replay
use agent_repository.Common.{
  ℕ, ◌+◌, ◌-◌, Bool, true, false, not, ◌&&◌, Option, none, some, List, [], ◌∷◌, leb, if◌then◌else◌,
}
use agent_repository.Common.Text.{Text, eq_text, strip_prefix, split_once, is_empty}
use agent_repository.Models.{Agent}
use agent_repository.Session.{
  ◌>>=◌, ◌>>◌, ⊤, Action, unauthenticated, redis_failure, pure, gets, or_raise, raise_if, when,
  modify_redis, find_agent,
}
use agent_repository.Jobs.{is_active}
use agent_repository.RateLimit.{Method, agent_sig}

-- A time in seconds, and whether it carries a time zone.
pub record Timestamp : Type 0 where
  pub has_zone : Bool
  pub seconds : ℕ

-- `uuid.UUID`, `datetime.fromisoformat`, and `verify_signature` of a public key, a signature and
-- the parts of the message.
pub record Outside : Type 0 where
  pub parse_uuid : Text → Option ℕ
  pub parse_time : Text → Option Timestamp
  pub verify_signature : ℕ → Text → Text → Method → Text → Text → Bool

-- The parts of a request that are read; a header that is not there is empty.
pub record Incoming : Type 0 where
  pub method : Method
  pub path : Text
  pub authorization : Text
  pub timestamp : Text
  pub nonce : Text
  pub is_multipart : Bool
  pub body : Text

unfoldable pub is_timestamp_valid : Outside → ℕ → Text → ℕ → Bool
is_timestamp_valid lib now timestamp max_age = elim (lib.parse_time timestamp) [
  | none ↦ false
  | some t ↦ t.has_zone && leb ((now - t.seconds) + (t.seconds - now)) max_age
]

-- POST, PUT, PATCH and DELETE must have a nonce.
unfoldable pub needs_nonce : Method → Bool
needs_nonce Method.post = true
needs_nonce Method.put = true
needs_nonce Method.patch = true
needs_nonce Method.delete = true
needs_nonce _ = false

-- GET of a key that lives.
unfoldable pub is_used : ℕ → Text → List (Text × ℕ) → Bool
is_used now nonce [] = false
is_used now nonce ((key, until) ∷ nonces) =
    let later = is_used now nonce nonces in
    if eq_text nonce key && leb now until then true else later

-- SET NX EX
unfoldable pub use_nonce : ℕ → Text → Action ⊤
unfolding is_used
use_nonce now nonce = do
  up ← gets (λ s. s.env.redis_up)
  raise_if (not up) redis_failure
  used ← gets (λ s. is_used now nonce s.redis.nonces)
  raise_if used unauthenticated
  cfg ← gets (λ s. s.env.settings)
  modify_redis (λ r. record r { nonces = (nonce, now + cfg.nonce_ttl_seconds) ∷ r.nonces })

unfoldable pub check_nonce : ℕ → Incoming → Action ⊤
unfolding use_nonce needs_nonce
check_nonce now req = do
  raise_if (is_empty req.nonce && needs_nonce req.method) unauthenticated
  when (not (is_empty req.nonce)) (use_nonce now req.nonce)

-- The agent's id and the signature of `AgentSig <agent_id>:<signature>`.
unfoldable pub credentials : Outside → Text → Option (ℕ × Text)
credentials lib authorization = elim (strip_prefix agent_sig authorization) [
  | none ↦ none
  | some rest ↦ elim (split_once b':' rest) [
    | none ↦ none
    | some (name, signature) ↦ elim (lib.parse_uuid name) [
      | none ↦ none
      | some agent_id ↦ some (agent_id, signature)
    ]
  ]
]

-- A multipart request is signed with an empty body.
unfoldable pub signed_body : Incoming → Text
signed_body req = if req.is_multipart then [] else req.body

unfoldable pub is_signed : Outside → Incoming → Text → Agent → Bool
unfolding signed_body
is_signed lib req signature agent =
    lib.verify_signature agent.public_key signature req.timestamp req.method req.path
      (signed_body req)

-- The id of the agent that made the request.
unfoldable pub verify_request : Outside → ℕ → Incoming → Action ℕ
unfolding check_nonce credentials is_timestamp_valid is_signed
verify_request lib now req = do
  raise_if (is_empty req.authorization) unauthenticated
  raise_if (is_empty req.timestamp) unauthenticated
  caller ← or_raise (credentials lib req.authorization) unauthenticated
  cfg ← gets (λ s. s.env.settings)
  raise_if (not (is_timestamp_valid lib now req.timestamp cfg.signature_max_age_seconds))
      unauthenticated
  check_nonce now req
  agent ← or_raise (← find_agent caller.0) unauthenticated
  raise_if (not (is_active agent.status)) unauthenticated
  raise_if (not (is_signed lib req caller.1 agent)) unauthenticated
  pure caller.0
