-- ===== src/Hosting/Contained/Builds.antt =====
-- A build that nothing comes between leaves a container where there has to be one.
use agent_repository.Common.{ℕ, ◌≡◌, true, some, lookup, is_some, lookup-adjust, arith}
use agent_repository.Models.{HostedAgent, DeploymentStatus}
use agent_repository.Session.{Session, Result, ok, err, no_result, or_raise, ◌>>◌, pure, commit}
use agent_repository.Session.Preserved.{after, bind-Preserves, or_raise-Preserves}
use agent_repository.Webhooks.{write_hosted}
use agent_repository.Hosting.Words.{building}
use agent_repository.Hosting.Deploy.{
  Outcome, built, broken, finished, flush_status, flush_container, eq_status, new_session,
  start_build, finish_build, build_and_deploy,
}
use agent_repository.Hosting.Contained.{
  HasContainer, Sound, Safe, adjust-Contained, write_hosted-Safe, commit-Safe,
}

flushed-running :
    (loaded : HostedAgent) (c : ℕ) (h : HostedAgent)
    → h.status ≡ loaded.status
    → h.container_id ≡ loaded.container_id
    → ((flush_container loaded.container_id c
          (flush_status loaded.status DeploymentStatus.running h)).status
        ≡ DeploymentStatus.running)
      × (is_some
            (flush_container loaded.container_id c
              (flush_status loaded.status DeploymentStatus.running h)).container_id
          ≡ true)
unfolding flush_container flush_status eq_status
flushed-running loaded c h same held = ground (arith, same, held)

flushed-errored :
    (loaded h : HostedAgent)
    → h.status ≡ loaded.status
    → (flush_status loaded.status DeploymentStatus.errored h).status ≡ DeploymentStatus.errored
unfolding flush_status eq_status
flushed-errored loaded h same = ground (arith, same)

-- At the end of a build that nothing came between.
finished-HasContainer :
    (loaded : HostedAgent) (outcome : Outcome) (h : HostedAgent)
    → h.status ≡ loaded.status
    → h.container_id ≡ loaded.container_id
    → HasContainer (finished loaded outcome h)
unfolding finished
finished-HasContainer loaded (built c text) h same held =
    let (runs, has) = flushed-running loaded c h same held in rw runs has
finished-HasContainer loaded (broken e text) h same held = rw (flushed-errored loaded h same) tt

-- The row that a build starts from.
abbrev Started : ℕ → Result HostedAgent × Session → Type 0
Started k (ok loaded, s) = lookup k s.committed.hosted ≡ some loaded
Started k (err e, s) = Unit

start_build-Started : (k : ℕ) (s : Session) → Started k (start_build k s)
unfolding start_build
start_build-Started k s =
    let f : HostedAgent → HostedAgent = λ h. record h { build_log = some building } in
    ground (arith, lookup-adjust k k f s.committed.hosted)

start_build-Safe : (k : ℕ) → Safe (start_build k)
unfolding start_build
start_build-Safe k s (d, c) =
    let f : HostedAgent → HostedAgent = λ h. record h { build_log = some building } in
    bind-Preserves Sound (or_raise (lookup k s.committed.hosted) no_result)
      (λ hosted. write_hosted k f >> (commit >> pure (record hosted { build_log = some building })))
      (or_raise-Preserves Sound (lookup k s.committed.hosted) no_result)
      (λ hosted t i. commit-Safe (write_hosted k f t).1 (write_hosted-Safe k f (λ h has. has) t i))
      (new_session s).1 (c, c)

finish_from :
    (k : ℕ) (outcome : Outcome) (p : Result HostedAgent × Session)
    → Started k p
    → Sound p.1
    → Sound (after p (λ loaded. finish_build k loaded outcome)).1
unfolding finish_build
finish_from k outcome (err e, s) start i = i
finish_from k outcome (ok loaded, s) start (d, c) =
    let same : (h : HostedAgent)
        → lookup k s.committed.hosted ≡ some h
        → HasContainer h
        → HasContainer (finished loaded outcome h) =
      λ h e _.
        finished-HasContainer loaded outcome h (ground (arith, e, start))
          (ground (arith, e, start)) in
    let all = adjust-Contained s.committed.hosted k (finished loaded outcome) same c in (all, all)

pub build_and_deploy-Safe : (k : ℕ) (outcome : Outcome) → Safe (build_and_deploy k outcome)
unfolding build_and_deploy
build_and_deploy-Safe k outcome s i =
    finish_from k outcome (start_build k s) (start_build-Started k s) (start_build-Safe k s i)
