-- ===== src/Gateway/Opened.antt =====
-- What a socket leaves behind, for an agent that is let in.
use agent_repository.Common.{
  ℕ, ◌==◌, ◌-◌, List, Bool, false, Bool-cases, inl, inr, ◌≡◌, refl, sym, subst, ap, ◌∙◌, true, some,
  lookup, contains, map_some, adjust, insert, erase, lookup-adjust_own, lookup-insert, lookup-erase,
  length, arith,
}
use agent_repository.Models.{Agent}
use agent_repository.Session.{
  Session, Result, ok, err, send_failed, Action, ⊤, ◌>>◌, raise_if, gets, ◌>>=◌,
}
use agent_repository.Session.Preserved.{after}
use agent_repository.Pages.{where_rows}
use agent_repository.Auth.{Outside}
use agent_repository.Webhooks.{connect, disconnect}
use agent_repository.Gateway.{
  Verify, Frame, authenticate, set_online, flush_pending_webhooks, Heard, ws_agent, close_socket,
  ping_loop, finally_do, ended, set_offline, waits_for,
}

abbrev offline : Agent → Agent
offline a = record a { is_online = false }

abbrev online_at : ℕ → Agent → Agent
online_at now a = record a { is_online = true; last_connected_at = some now }

-- The session once the agent is online.
abbrev on : ℕ → Session → Session
on k s = record s {
  db = record s.db { agents = adjust k (online_at s.env.now) s.db.agents };
  committed = record s.db { agents = adjust k (online_at s.env.now) s.db.agents };
  redis = record s.redis { online_agents = insert k tt s.redis.online_agents };
}

set_online-on :
    (k : ℕ) (s : Session) (a : Agent)
    → lookup k s.db.agents ≡ some a
    → set_online k s ≡ (ok tt, on k s)
unfolding set_online
set_online-on k s a row = rw row refl

-- Whether the agent is connected, and whether it is committed that it is online.
abbrev pub IsPresent : ℕ → Bool → Session → Type 0
IsPresent k b u =
    (contains k u.redis.connections ≡ b)
    × (contains k u.redis.online_agents ≡ b)
    × (map_some (λ x. x.is_online) (lookup k u.committed.agents) ≡ some b)

-- The session once the socket is closed.
abbrev off : ℕ → Session → Session
off k s = record s {
  db = record s.db { agents = adjust k offline s.db.agents };
  committed = record s.db { agents = adjust k offline s.db.agents };
  redis = record s.redis {
    connections = erase k s.redis.connections;
    online_agents = erase k s.redis.online_agents;
  };
}

close_socket-off :
    (k : ℕ) (s : Session) (a : Agent)
    → lookup k s.db.agents ≡ some a
    → close_socket k s ≡ (ok tt, off k s)
unfolding close_socket disconnect set_offline
close_socket-off k s a row = rw row refl

off-IsPresent :
    (k : ℕ) (s : Session) (a : Agent) → lookup k s.db.agents ≡ some a → IsPresent k false (off k s)
off-IsPresent k s a row = (
  ground (arith, lookup-erase k k s.redis.connections),
  ground (arith, lookup-erase k k s.redis.online_agents),
  ap (map_some (λ x. x.is_online)) (lookup-adjust_own k a offline s.db.agents row),
)

flush_pending_webhooks-quiet :
    (k n : ℕ) (s : Session)
    → ((flush_pending_webhooks k n s).0 ≡ ok tt)
      × ((flush_pending_webhooks k n s).1.db.agents ≡ s.db.agents)
unfolding flush_pending_webhooks
flush_pending_webhooks-quiet k n s = ground arith

-- The loop, and what follows it.
finally_do-IsPresent :
    (k : ℕ) (r : Result ⊤) (s : Session) (a : Agent)
    → lookup k s.db.agents ≡ some a
    → IsPresent k false (finally_do (λ u. (r, u)) (close_socket k) s).1
finally_do-IsPresent k r s a row =
    let over : finally_do (λ u. (r, u)) (close_socket k) s ≡ (r, off k s) =
      ap (ended r) (close_socket-off k s a row) in
    subst (λ p. IsPresent k false p.1) (sym over) (off-IsPresent k s a row)

-- The loop after a flush.
flushed-IsPresent :
    (k : ℕ) (r : Result ⊤) (p : Result ⊤ × Session) (a : Agent)
    → p.0 ≡ ok tt
    → lookup k p.1.db.agents ≡ some a
    → IsPresent k false (after p (λ _. finally_do (λ u. (r, u)) (close_socket k))).1
flushed-IsPresent k r (ok x, t) a fine row = finally_do-IsPresent k r t a row
flushed-IsPresent k r (err e, t) a fine row = absurd (ground arith)

-- The handler once the agent is let in.
abbrev let_in_as : ℕ → ℕ → List Heard → Action ⊤
let_in_as k n heard = do
  connect k
  raise_if (n == 0) send_failed
  waiting ← gets (λ s. length (where_rows (waits_for k) s.db.deliveries))
  flush_pending_webhooks k (n - 1)
  finally_do (λ s. (ping_loop (n - 1 - waiting) heard, s)) (close_socket k)

let_in_as-IsPresent :
    (k n : ℕ) (heard : List Heard) (s : Session) (a : Agent)
    → lookup k s.db.agents ≡ some a
    → contains k s.redis.online_agents ≡ true
    → map_some (λ x. x.is_online) (lookup k s.committed.agents) ≡ some true
    → IsPresent k (n == 0) (let_in_as k n heard s).1
unfolding connect
let_in_as-IsPresent k n heard s a row listed online = elim (Bool-cases (n == 0)) [
  | inl none_sent ↦ ground (arith, lookup-insert k k tt s.redis.connections)
  | inr sent ↦
      let u = (connect k s).1 in
      let waiting = length (where_rows (waits_for k) u.db.deliveries) in
      let r = ping_loop (n - 1 - waiting) heard in
      let last : ⊤ → Action ⊤ = λ _. finally_do (λ v. (r, v)) (close_socket k) in
      let opened : let_in_as k n heard s ≡ after (flush_pending_webhooks k (n - 1) u) last =
        rw sent refl in
      let quiet = flush_pending_webhooks-quiet k (n - 1) u in
      let closed =
        flushed-IsPresent k r (flush_pending_webhooks k (n - 1) u) a quiet.0
          (ap (lookup k) quiet.1 ∙ row) in
      rw (opened, sent) closed
]

pub ws_agent-IsPresent :
    (lib : Outside) (verify : Verify) (now : ℕ) (frame : Frame) (n : ℕ) (heard : List Heard)
    (s t : Session) (k : ℕ) (a : Agent)
    → authenticate lib verify now frame s ≡ (ok k, t)
    → lookup k t.db.agents ≡ some a
    → IsPresent k (n == 0) (ws_agent lib verify now frame n heard s).1
unfolding ws_agent connect
ws_agent-IsPresent lib verify now frame n heard s t k a let_in row =
    let run : ℕ → Action ⊤ = λ j. set_online j >> let_in_as j n heard in
    let later : ⊤ → Action ⊤ = λ _. let_in_as k n heard in
    let opened : ws_agent lib verify now frame n heard s ≡ let_in_as k n heard (on k t) =
      ap (λ p. after p run) let_in ∙ ap (λ p. after p later) (set_online-on k t a row) in
    let kept = lookup-adjust_own k a (online_at t.env.now) t.db.agents row in
    subst (λ p. IsPresent k (n == 0) p.1) (sym opened)
      (let_in_as-IsPresent k n heard (on k t) (online_at t.env.now a) kept
        (ground (arith, lookup-insert k k tt t.redis.online_agents))
        (ap (map_some (λ x. x.is_online)) kept))
