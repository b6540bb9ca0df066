-- ===== src/Gateway.antt =====
-- app/routers/ws.py: the WebSocket gateway. A socket takes so many messages before a send fails. The
-- fields of the authentication message that are read are texts.
pub mod Flushed
pub mod Opened
use agent_repository.Common.{ltb, length}
use agent_repository.Common.{
  ℕ, ◌+◌, ◌-◌, ◌==◌, Bool, true, false, not, ◌&&◌, Option, none, some, List, [], ◌∷◌, insert, erase,
  if◌then◌else◌, is_some,
}
use agent_repository.Common.Text.{Text, is_empty}
use agent_repository.Models.{Delivery, WebhookStatus}
use agent_repository.Session.{
  Session, Result, ok, err, ◌>>=◌, ◌>>◌, ⊤, Action, unauthenticated, redis_failure, send_failed,
  type_error, pure, raise, gets, or_raise, raise_if, when, modify_db, modify_redis, commit,
  find_agent, write_agent,
}
use agent_repository.Pages.{where_rows}
use agent_repository.Jobs.{is_active}
use agent_repository.Auth.{Outside, is_timestamp_valid, is_used}
use agent_repository.Webhooks.{connect, disconnect}
use agent_repository.Webhooks.Delivery.{is_pending}

-- The first message: none within ten seconds, a closed socket or no JSON; JSON that is no object;
-- or an object, with its fields.
pub record AuthMessage : Type 0 where
  pub is_auth : Bool  -- `type` is "auth"
  pub agent_id : Option Text
  pub timestamp : Option Text
  pub signature : Option Text
  pub nonce : Text  -- empty if there is none

pub data Frame : Type 0 where
  nothing not_an_object : Frame
  object : AuthMessage → Frame

-- `verify_signature` of a public key, a signature and a timestamp, for "WS", "/ws/agent" and no body.
abbrev pub Verify : Type 0
Verify = ℕ → Text → Text → Bool

-- The agent, the timestamp and the signature that the message names.
unfoldable pub claims : Outside → AuthMessage → Option (ℕ × Text × Text)
claims lib msg = elim msg.agent_id [
  | none ↦ none
  | some name ↦ elim (lib.parse_uuid name) [
    | none ↦ none
    | some agent_id ↦ elim msg.timestamp [
      | none ↦ none
      | some timestamp ↦ elim msg.signature [
        | none ↦ none
        | some signature ↦ some (agent_id, timestamp, signature)
      ]
    ]
  ]
]

-- SET NX EX, if there is a nonce; whether it was new.
unfoldable pub take_nonce : ℕ → Text → Action ⊤
unfolding is_used
take_nonce now nonce = when (not (is_empty nonce)) (do
  up ← gets (λ s. s.env.redis_up)
  raise_if (not up) redis_failure
  used ← gets (λ s. is_used now nonce s.redis.nonces)
  raise_if used unauthenticated
  cfg ← gets (λ s. s.env.settings)
  modify_redis (λ r. record r { nonces = (nonce, now + cfg.nonce_ttl_seconds) ∷ r.nonces }))

unfoldable pub authenticate_message : Outside → Verify → ℕ → AuthMessage → Action ℕ
unfolding claims take_nonce is_timestamp_valid
authenticate_message lib verify now msg = do
  raise_if (not msg.is_auth) unauthenticated
  claim ← or_raise (claims lib msg) unauthenticated
  cfg ← gets (λ s. s.env.settings)
  raise_if (not (is_timestamp_valid lib now claim.1 cfg.signature_max_age_seconds)) unauthenticated
  take_nonce now msg.nonce
  agent ← or_raise (← find_agent claim.0) unauthenticated
  raise_if (not (is_active agent.status)) unauthenticated
  raise_if (not (verify agent.public_key claim.2 claim.1)) unauthenticated
  pure claim.0

-- `unauthenticated` is the answer `None`, after which the socket is closed.
unfoldable pub authenticate : Outside → Verify → ℕ → Frame → Action ℕ
unfolding authenticate_message
authenticate lib verify now nothing = raise unauthenticated
authenticate lib verify now not_an_object = raise type_error
authenticate lib verify now (object msg) = authenticate_message lib verify now msg

unfoldable pub set_online : ℕ → Action ⊤
set_online agent_id = do
  now ← gets (λ s. s.env.now)
  agent ← find_agent agent_id
  when (is_some agent) (do
    write_agent agent_id (λ a. record a { is_online = true; last_connected_at = some now })
    commit)
  modify_redis (λ r. record r { online_agents = insert agent_id tt r.online_agents })

unfoldable pub set_offline : ℕ → Action ⊤
set_offline agent_id = do
  agent ← find_agent agent_id
  when (is_some agent) (do write_agent agent_id (λ a. record a { is_online = false }); commit)
  modify_redis (λ r. record r { online_agents = erase agent_id r.online_agents })

-- A row that waits for this agent.
unfoldable pub waits_for : ℕ → Delivery → Bool
unfolding is_pending
waits_for agent_id d = d.target_agent_id == agent_id && is_pending d.status

-- The loop over the rows, in the order of their creation, on a socket that takes `n` messages.
unfoldable pub flush_rows : ℕ → ℕ → List Delivery → List Delivery
unfolding waits_for
flush_rows agent_id n [] = []
flush_rows agent_id n (d ∷ ds) =
    let sent = flush_rows agent_id (n - 1) ds in
    let later = flush_rows agent_id n ds in
    if waits_for agent_id d
    then (if n == 0 then d ∷ ds else record d { status = WebhookStatus.delivered } ∷ sent)
    else d ∷ later

unfoldable pub flush_pending_webhooks : ℕ → ℕ → Action ⊤
unfolding flush_rows where_rows
flush_pending_webhooks agent_id n = do
  waiting ← gets (λ s. where_rows (waits_for agent_id) s.db.deliveries)
  modify_db (λ d. record d { deliveries = flush_rows agent_id n d.deliveries })
  when (ltb 0 (length waiting)) commit

-- The end of the loop, however it ends.
unfoldable pub close_socket : ℕ → Action ⊤
unfolding disconnect set_offline
close_socket agent_id = do disconnect agent_id; set_offline agent_id

-- What the wait for a message comes to: nothing in time, a closed socket, a text that is no JSON,
-- JSON that is no object, or an object by its type.
pub data Heard : Type 0 where
  timed_out closed not_json no_object pong ping other : Heard

-- The answer to a second message in a turn: a pong to a ping, and the next turn, which sends the
-- next ping. `again` is the rest of the loop with one message sent, and `more` with two.
unfoldable pub hear_later : ℕ → Heard → Result ⊤ → Result ⊤ → Result ⊤
hear_later n timed_out again more = again
hear_later n closed again more = ok tt
hear_later n not_json again more = again
hear_later n no_object again more = err type_error
hear_later n pong again more = again
hear_later n ping again more = if n == 1 then err send_failed else more
hear_later n other again more = again

-- The first message in a turn, where `later` is the rest after a pong.
unfoldable pub hear : ℕ → Heard → Result ⊤ → Result ⊤ → Result ⊤ → Result ⊤
hear n timed_out later again more = ok tt
hear n closed later again more = ok tt
hear n not_json later again more = again
hear n no_object later again more = err type_error
hear n pong later again more = later
hear n ping later again more = if n == 1 then err send_failed else more
hear n other later again more = again

-- The loop of pings, on a socket that takes `n` more messages; after the list it is closed.
unfoldable pub ping_loop : ℕ → List Heard → Result ⊤
unfolding hear hear_later
ping_loop n [] = if n == 0 then err send_failed else ok tt
ping_loop n (e ∷ []) =
    let rest : Result ⊤ = if n == 1 then err send_failed else ok tt in
    let more : Result ⊤ = if n == 2 then err send_failed else ok tt in
    if n == 0 then err send_failed else hear n e (ok tt) rest more
ping_loop n (e ∷ f ∷ es) =
    let again = ping_loop (n - 1) (f ∷ es) in
    let more = ping_loop (n - 2) (f ∷ es) in
    let again_later = ping_loop (n - 1) es in
    let more_later = ping_loop (n - 2) es in
    let later = hear_later n f again_later more_later in
    if n == 0 then err send_failed else hear n e later again more

-- What was raised or returned, unless the end raises in turn.
abbrev pub ended : {A : Type 0} → Result A → Result ⊤ × Session → Result A × Session
ended r (ok _, u) = (r, u)
ended r (err e, u) = (err e, u)

-- `try: m  finally: k`
abbrev pub finally_do : {A : Type 0} → Action A → Action ⊤ → Action A
finally_do m k s = let (r, t) = m s in ended r (k t)

-- The handler, on a socket that takes `n` messages. The agent is online and connected before the
-- first send, and the `finally` is around the loop alone.
unfoldable pub ws_agent : Outside → Verify → ℕ → Frame → ℕ → List Heard → Action ⊤
unfolding authenticate set_online connect flush_pending_webhooks ping_loop close_socket
ws_agent lib verify now frame n heard = do
  agent_id ← authenticate lib verify now frame
  set_online agent_id
  connect agent_id
  raise_if (n == 0) send_failed
  waiting ← gets (λ s. length (where_rows (waits_for agent_id) s.db.deliveries))
  flush_pending_webhooks agent_id (n - 1)
  finally_do (λ s. (ping_loop (n - 1 - waiting) heard, s)) (close_socket agent_id)
