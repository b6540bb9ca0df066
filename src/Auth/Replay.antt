-- ===== src/Auth/Replay.antt =====
-- What a nonce protects from, and what it does not.
use agent_repository.Common.{
  ap, ◌∙◌, Bool-cases, leb→le, ℕ, ◌+◌, ◌*◌, ◌≤◌, ◌<◌, ◌≡◌, refl, Bool, true, false, ◌&&◌, inl, inr,
  some, List, [], ◌∷◌, leb, lookup, arith,
}
use agent_repository.Common.Text.{eq_text_refl, Text, is_empty}
use agent_repository.Models.{Agent}
use agent_repository.Session.{Session, Result, ok, err}
use agent_repository.Jobs.{is_active}
use agent_repository.Auth.{
  Outside, Incoming, is_timestamp_valid, needs_nonce, is_used, use_nonce, check_nonce, credentials,
  is_signed, verify_request,
}

-- A request that is let through is signed by an active agent, lately, and has a nonce if its method
-- needs one.
verify_request-signed :
    (lib : Outside) (now : ℕ) (req : Incoming) (s : Session) (caller : ℕ) (signature : Text)
    (agent : Agent)
    → credentials lib req.authorization ≡ some (caller, signature)
    → lookup caller s.db.agents ≡ some agent
    → (verify_request lib now req s).0 ≡ ok caller
    → (is_active agent.status ≡ true)
      × (is_signed lib req signature agent ≡ true)
      × (is_timestamp_valid lib now req.timestamp s.env.settings.signature_max_age_seconds ≡ true)
      × ((is_empty req.nonce && needs_nonce req.method) ≡ false)
unfolding verify_request check_nonce use_nonce
verify_request-signed lib now req s caller signature agent named row success = ground arith

abbrev pub is_ok : {A : Type 0} → Result A → Bool
is_ok (ok a) = true
is_ok (err e) = false

-- The nonces after a request that was let through, and after any request.
nonce_kept :
    (lib : Outside) (now : ℕ) (req : Incoming) (s : Session) (later : ℕ)
    → is_ok (verify_request lib now req s).0 ≡ true
    → is_empty req.nonce ≡ false
    → later ≤ now + s.env.settings.nonce_ttl_seconds
    → is_used later req.nonce (verify_request lib now req s).1.redis.nonces ≡ true
unfolding verify_request check_nonce use_nonce is_used
nonce_kept lib now req s later success has soon = ground (arith, eq_text_refl req.nonce)

used_kept :
    (lib : Outside) (now : ℕ) (req : Incoming) (s : Session) (later : ℕ) (nonce : Text)
    → is_used later nonce s.redis.nonces ≡ true
    → (is_used later nonce (verify_request lib now req s).1.redis.nonces ≡ true)
      × ((verify_request lib now req s).1.env ≡ s.env)
unfolding verify_request check_nonce use_nonce is_used
used_kept lib now req s later nonce used = ground arith

used_refused :
    (lib : Outside) (now : ℕ) (req : Incoming) (s : Session)
    → is_used now req.nonce s.redis.nonces ≡ true
    → is_empty req.nonce ≡ false
    → is_ok (verify_request lib now req s).0 ≡ false
unfolding verify_request check_nonce use_nonce
used_refused lib now req s used has = ground arith

-- Requests at these times, whatever becomes of them.
unfoldable pub verify_all : Outside → List (ℕ × Incoming) → Session → Session
verify_all lib [] s = s
verify_all lib ((now, req) ∷ reqs) s = verify_all lib reqs (verify_request lib now req s).1

verify_all-used :
    (lib : Outside) (reqs : List (ℕ × Incoming)) (s : Session) (later : ℕ) (nonce : Text)
    → is_used later nonce s.redis.nonces ≡ true
    → (is_used later nonce (verify_all lib reqs s).redis.nonces ≡ true)
      × ((verify_all lib reqs s).env ≡ s.env)
unfolding verify_all
verify_all-used lib [] s later nonce used = (used, refl)
verify_all-used lib ((now, req) ∷ reqs) s later nonce used =
    let one = used_kept lib now req s later nonce used in
    let all = verify_all-used lib reqs (verify_request lib now req s).1 later nonce one.0 in
    (all.0, all.1 ∙ one.1)

request_env :
    (lib : Outside) (now : ℕ) (req : Incoming) (s : Session)
    → (verify_request lib now req s).1.env ≡ s.env
unfolding verify_request check_nonce use_nonce
request_env lib now req s = ground arith

-- Past its age, a timestamp is refused.
old_refused :
    (lib : Outside) (now : ℕ) (req : Incoming) (s : Session)
    → is_timestamp_valid lib now req.timestamp s.env.settings.signature_max_age_seconds ≡ false
    → is_ok (verify_request lib now req s).0 ≡ false
unfolding verify_request
old_refused lib now req s old = ground arith

fresh_timestamp :
    (lib : Outside) (now : ℕ) (req : Incoming) (s : Session)
    → is_ok (verify_request lib now req s).0 ≡ true
    → is_timestamp_valid lib now req.timestamp s.env.settings.signature_max_age_seconds ≡ true
unfolding verify_request
fresh_timestamp lib now req s success = ground arith

too_old :
    (lib : Outside) (now later age : ℕ) (timestamp : Text)
    → is_timestamp_valid lib now timestamp age ≡ true
    → now + 2 * age < later
    → is_timestamp_valid lib later timestamp age ≡ false
unfolding is_timestamp_valid
too_old lib now later age timestamp valid long = ground arith

-- If a nonce is kept at least twice as long as a signature is taken, a request with a nonce that
-- was let through is not let through again, at whatever time and whatever requests come between.
pub verify_request-replay :
    (lib : Outside) (now later : ℕ) (req : Incoming) (reqs : List (ℕ × Incoming)) (s : Session)
    → 2 * s.env.settings.signature_max_age_seconds ≤ s.env.settings.nonce_ttl_seconds
    → is_empty req.nonce ≡ false
    → is_ok (verify_request lib now req s).0 ≡ true
    → is_ok (verify_request lib later req (verify_all lib reqs (verify_request lib now req s).1)).0
      ≡ false
verify_request-replay lib now later req reqs s ttl has success =
    let t = (verify_request lib now req s).1 in
    let age = s.env.settings.signature_max_age_seconds in
    elim (Bool-cases (leb later (now + s.env.settings.nonce_ttl_seconds))) [
      | inl soon ↦
          let used = nonce_kept lib now req s later success has (leb→le _ _ soon) in
          used_refused lib later req (verify_all lib reqs t)
            (verify_all-used lib reqs t later req.nonce used).0 has
      | inr late ↦
          let at_once = nonce_kept lib now req s now success has (omega arith) in
          let same =
            (verify_all-used lib reqs t now req.nonce at_once).1 ∙ request_env lib now req s in
          let old =
            too_old lib now later age req.timestamp (fresh_timestamp lib now req s success)
              (ground arith) in
          old_refused lib later req (verify_all lib reqs t) (
            ap
              (λ e. is_timestamp_valid lib later req.timestamp e.settings.signature_max_age_seconds)
              same
            ∙ old)
    ]

-- The nonce is no part of what is signed: a request that was let through is let through at once with
-- another nonce that is not in use.
verify_request-renonced :
    (lib : Outside) (now caller : ℕ) (req : Incoming) (nonce : Text) (s : Session)
    → s.env.redis_up ≡ true
    → (verify_request lib now req s).0 ≡ ok caller
    → is_used now nonce (verify_request lib now req s).1.redis.nonces ≡ false
    → is_empty nonce ≡ false
    → (verify_request lib now (record req { nonce = nonce }) (verify_request lib now req s).1).0
      ≡ ok caller
unfolding verify_request check_nonce use_nonce is_signed
verify_request-renonced lib now caller req nonce s up success free has = ground arith
