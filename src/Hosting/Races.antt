-- ===== src/Hosting/Races.antt =====
-- A deployment that is ended while its build runs.
use agent_repository.Common.{
  ℕ, ◌==◌, ==_refl, ◌≡◌, ◌∙◌, sym, subst, not, ap, refl, Option, none, some, lookup, adjust,
  contains, is_some, Bool, true, false, lookup-adjust_own, map_some, arith, if◌then◌else◌,
}
use agent_repository.Common.Text.{Text}
use agent_repository.Models.{Db, Agent, HostedAgent, HostingMode, DeploymentStatus}
use agent_repository.Session.{
  Session, ok, ⊤, Action, ◌>>=◌, ◌>>◌, raise_if, not_found, commit, pure, when, write_agent,
}
use agent_repository.Session.Preserved.{after}
use agent_repository.Webhooks.{write_hosted}
use agent_repository.Hosting.Deploy.{
  built, finished, flush_status, flush_container, eq_status, stopped, undeploy_agent, start_build,
  finish_build,
}
use agent_repository.Hosting.Words.{building}
use agent_repository.Hosting.Endpoints.{check_owner, delete_deployment}

abbrev pub log_started : HostedAgent → HostedAgent
log_started r = record r { build_log = some building }

-- The tables once the build has begun, and once the deployment has been ended.
abbrev begun : ℕ → Db → Db
begun k d = record d { hosted = adjust k log_started d.hosted }

abbrev ended : ℕ → Db → Db
ended k d = record d {
  hosted = adjust k stopped d.hosted;
  agents = adjust k (λ x. record x { hosting_mode = HostingMode.client_only }) d.agents;
}

abbrev committed_as : Session → Db → Session
committed_as s d = record s { db = d; committed = d }

start_build-begun :
    (k : ℕ) (s : Session) (h : HostedAgent)
    → lookup k s.committed.hosted ≡ some h
    → start_build k s ≡ (ok (log_started h), committed_as s (begun k s.committed))
unfolding start_build
start_build-begun k s h row = rw row refl

own_check : (k : ℕ) (s : Session) → check_owner (some k) k s ≡ (ok k, s)
unfolding check_owner
own_check k s = ground (arith, ==_refl k)

ends_if :
    (found : Bool) (k : ℕ) (s : Session)
    → found ≡ true
    → (when found (do
      write_hosted k stopped
      write_agent k (λ x. record x { hosting_mode = HostingMode.client_only }))
          >> pure found)
        s
      ≡ (ok true, record s { db = ended k s.db })
ends_if true k s e = refl
ends_if false k s e = ground (arith, e)

undeploy_agent-ended :
    (k : ℕ) (s : Session) (h : HostedAgent)
    → lookup k s.db.hosted ≡ some h
    → undeploy_agent k s ≡ (ok true, record s { db = ended k s.db })
unfolding undeploy_agent
undeploy_agent-ended k s h row = ends_if (contains k s.db.hosted) k s (ap is_some row)

delete_deployment-ended :
    (k : ℕ) (s : Session) (h : HostedAgent)
    → lookup k s.db.hosted ≡ some h
    → delete_deployment (some k) k s ≡ (ok tt, committed_as s (ended k s.db))
unfolding delete_deployment
delete_deployment-ended k s h row =
    let rest : ℕ → Action ⊤ =
      λ t. undeploy_agent t >>= λ found. raise_if (not found) not_found >> commit in
    let own : after (check_owner (some k) k s) rest ≡ rest k s =
      ap (λ p. after p rest) (own_check k s) in
    let done : Bool → Action ⊤ = λ found. raise_if (not found) not_found >> commit in
    own ∙ ap (λ p. after p done) (undeploy_agent-ended k s h row)

-- The state in which the build ends: the session of `delete_deployment` began and committed between
-- the first and the last commit of the build.
abbrev pub undeployed_meanwhile : ℕ → Session → Session
undeployed_meanwhile k s = (delete_deployment (some k) k (start_build k s).1).1

undeployed_meanwhile-tables :
    (k : ℕ) (s : Session) (h : HostedAgent)
    → lookup k s.committed.hosted ≡ some h
    → undeployed_meanwhile k s ≡ committed_as s (ended k (begun k s.committed))
undeployed_meanwhile-tables k s h row =
    let start = start_build-begun k s h row in
    let t = committed_as s (begun k s.committed) in
    let row1 = lookup-adjust_own k h log_started s.committed.hosted row in
    ap (λ p. (delete_deployment (some k) k p.1).1) start
    ∙ ap (λ p. p.1) (delete_deployment-ended k t (log_started h) row1)

raced :
    (h : HostedAgent) (c : ℕ) (log : Text)
    → h.status ≡ DeploymentStatus.building
    → let r = finished h (built c log) (stopped h) in
      (r.status ≡ DeploymentStatus.running)
      × (r.container_id
          ≡ (elim h.container_id [ some b ↦ if b == c then none else some c | none ↦ some c ]))
unfolding finished flush_status flush_container eq_status
raced h c log is_building = ground (arith, is_building)

-- The deployment of `k` runs again, with container `c` unless that was the container `before`, and
-- the agent is client_only.
abbrev pub Revived : ℕ → Option ℕ → ℕ → Db → Type 0
Revived k before c d =
    (map_some (λ r. r.status) (lookup k d.hosted) ≡ some DeploymentStatus.running)
    × (map_some (λ r. r.container_id) (lookup k d.hosted)
        ≡ some (elim before [ some b ↦ if b == c then none else some c | none ↦ some c ]))
    × (map_some (λ r. r.hosting_mode) (lookup k d.agents) ≡ some HostingMode.client_only)

-- A deployment that is building and that its owner ends while the build runs: once the build
-- comes to a container, the deployment is running again, of an agent in hosting mode
-- client_only, and the row has no container if that is the one which it had at the start.
pub finish_build-race :
    (k : ℕ) (s : Session) (h : HostedAgent) (a : Agent) (c : ℕ) (log : Text)
    → lookup k s.committed.hosted ≡ some h
    → lookup k s.committed.agents ≡ some a
    → h.status ≡ DeploymentStatus.building
    → ((start_build k s).0 ≡ ok (log_started h))
      × Revived k h.container_id c
          (finish_build k (log_started h) (built c log) (undeployed_meanwhile k s)).1.committed
unfolding finish_build
finish_build-race k s h a c log row agent is_building =
    let loaded = log_started h in
    let h1 = lookup-adjust_own k h log_started s.committed.hosted row in
    let d = ended k (begun k s.committed) in
    let h2 = lookup-adjust_own k loaded stopped (begun k s.committed).hosted h1 in
    let h3 = lookup-adjust_own k (stopped loaded) (finished loaded (built c log)) d.hosted h2 in
    let a1 =
      lookup-adjust_own k a (λ x. record x { hosting_mode = HostingMode.client_only })
        s.committed.agents agent in
    let (runs, holds) = raced loaded c log is_building in
    let at_end : Revived k h.container_id c
        (finish_build k loaded (built c log) (committed_as s d)).1.committed =
      (
        ap (map_some (λ r. r.status)) h3 ∙ ap some runs,
        ap (map_some (λ r. r.container_id)) h3 ∙ ap some holds,
        ap (map_some (λ r. r.hosting_mode)) a1,
      ) in
    (
      ap (λ p. p.0) (start_build-begun k s h row),
      subst (λ u. Revived k h.container_id c (finish_build k loaded (built c log) u).1.committed)
          (sym (undeployed_meanwhile-tables k s h row)) at_end,
    )
