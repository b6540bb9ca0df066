-- ===== src/Session/Monad.antt =====
-- Actions over a session: state, exceptions, and the commit.
use agent_repository.Common.{ℕ, Bool, Option, none, some, Dict, List, if◌then◌else◌}
use agent_repository.Common.Text.{Text}
use agent_repository.Models.{Db, Criteria, Deliverable}
use agent_repository.Settings.{Settings, Rate}

abbrev pub ⊤ : Type 0
⊤ = Unit

-- What a request raises, by its cause; `status_code` gives the HTTP status.
pub data Error : Type 0 where
  job_not_found agent_not_found escrow_not_found deposit_not_found agent_not_active : Error
  bad_transition wrong_status not_a_party only_client only_seller self_job below_minimum_balance :
      Error
  rounds_exceeded hash_missing hash_mismatch no_agreed_price escrow_exists : Error
  insufficient_balance insufficient_bond escrow_not_funded not_available has_criteria : Error
  verification_running bad_criteria invalid_input duplicate not_configured unauthenticated : Error
  no_result integrity_error sandbox_failure redis_failure type_error paused : Error
  transaction_not_found transaction_invalid name_error expired invalid_token not_found : Error
  token_not_found account_not_found bad_request yaml_error send_failed : Error

abbrev pub status_code : Error → ℕ
status_code job_not_found = 404
status_code agent_not_found = 404
status_code escrow_not_found = 404
status_code deposit_not_found = 404
status_code agent_not_active = 404
status_code not_a_party = 403
status_code only_client = 403
status_code only_seller = 403
status_code below_minimum_balance = 403
status_code unauthenticated = 403
status_code self_job = 422
status_code hash_missing = 422
status_code no_agreed_price = 422
status_code insufficient_balance = 422
status_code insufficient_bond = 422
status_code bad_criteria = 422
status_code invalid_input = 422
status_code not_available = 501
status_code not_configured = 503
status_code paused = 503
status_code no_result = 500
status_code integrity_error = 500
status_code type_error = 500
status_code sandbox_failure = 500
status_code redis_failure = 500
status_code bad_transition = 409
status_code wrong_status = 409
status_code rounds_exceeded = 409
status_code hash_mismatch = 409
status_code escrow_exists = 409
status_code escrow_not_funded = 409
status_code has_criteria = 409
status_code verification_running = 409
status_code duplicate = 409
status_code transaction_not_found = 404
status_code transaction_invalid = 400
status_code name_error = 500
status_code expired = 410
status_code invalid_token = 401
status_code not_found = 404
status_code token_not_found = 404
status_code account_not_found = 404
status_code bad_request = 400
status_code yaml_error = 500
status_code send_failed = 500

pub data Result (A : Type 0) : Type 0 where
  ok : A → Result A
  err : Error → Result A

-- The outcome of a script in the sandbox; `elapsed` is in seconds.
pub record ScriptRun : Type 0 where
  pub passed : Bool
  pub elapsed : Rate

-- What the code does not implement: the hash, whether a criteria dict passes the sandbox's
-- `validate_script_criteria`, a run in the sandbox (`none` is an exception), whether Redis
-- answers, whether a container starts, what it fails with, whether its
-- agent then connects, whether a socket takes an event, and the clock.
pub record Env : Type 0 where
  pub now : ℕ
  pub settings : Settings
  pub sha256_json : Criteria → ℕ
  pub script_ok : ℕ → Bool
  pub run_script : ℕ → Option Deliverable → Option ScriptRun
  pub redis_up : Bool
  pub wakes : ℕ → Bool
  pub wake_error : ℕ → Text
  pub connects : ℕ → Bool
  pub sends : ℕ → Bool

-- The keys that the modelled code has in Redis, and the open WebSockets and the builds of
-- this process.
pub record Redis : Type 0 where
  pub deadlines : Dict ℕ
  pub verify_locks : Dict ⊤
  pub connections : Dict ⊤
  pub online_agents : Dict ⊤
  pub builds : List ℕ  -- agents whose background build is started and not over
  pub nonces : List (Text × ℕ)  -- with the time until which a key lives
  pub withdrawals_paused : Bool

pub record Session : Type 0 where
  pub env : Env
  pub committed : Db
  pub db : Db
  pub redis : Redis

abbrev pub Action : Type 0 → Type 0
Action A = Session → Result A × Session

module _ {A : Type 0} where
  abbrev pub pure : A → Action A
  pure a s = (ok a, s)

  abbrev pub raise : Error → Action A
  raise e s = (err e, s)

  abbrev pub gets : (Session → A) → Action A
  gets f s = (ok (f s), s)

  abbrev pub or_raise : Option A → Error → Action A
  or_raise none e = raise e
  or_raise (some a) e = pure a

infixl 5 ◌>>=◌ ◌>>◌
abbrev pub ◌>>=◌ : {A B : Type 0} → Action A → (A → Action B) → Action B
◌>>=◌ m f s = let (r, t) = m s in elim r [ ok a ↦ f a t | err e ↦ raise e t ]

abbrev pub ◌>>◌ : {A B : Type 0} → Action A → Action B → Action B
m >> k = m >>= λ _. k

abbrev pub raise_if : Bool → Error → Action ⊤
raise_if c e s = (if c then err e else ok tt, s)

abbrev pub when : Bool → Action ⊤ → Action ⊤
when c m s = if c then m s else (ok tt, s)

-- `try: m  except Exception: pass`
abbrev pub quietly : {A : Type 0} → Action A → Action ⊤
quietly m s = (ok tt, (m s).1)

-- `try: m  except Exception: k`
abbrev pub rescue : {A : Type 0} → Action A → Action A → Action A
rescue m k s = let (r, t) = m s in elim r [ ok a ↦ (ok a, t) | err e ↦ k t ]

-- `try: m  finally: k`, with a `k` that does not raise
abbrev pub finally : {A : Type 0} → Action A → (Session → Session) → Action A
finally m k s = let (r, t) = m s in (r, k t)

abbrev pub modify_db : (Db → Db) → Action ⊤
modify_db f s = (ok tt, record s { db = f s.db })

abbrev pub modify_redis : (Redis → Redis) → Action ⊤
modify_redis f s = (ok tt, record s { redis = f s.redis })

-- `await db.commit()`
abbrev pub commit : Action ⊤
commit s = (ok tt, record s { committed = s.db })

-- `async with async_session() as session`: a session starts from the committed tables, and what it
-- has not committed at its end is gone.
abbrev pub close : Session → Session
close s = record s { db = s.committed }
