-- ===== src/Hosting/Isolated/Turns.antt =====
-- Turns of requests and builds of other agents leave the rows of an agent in the tables.
use agent_repository.Common.{
  ℕ, ◌==◌, ◌≡◌, refl, sym, subst, ◌∙◌, Bool-cases, inl, inr, adjust, true, false, some, List, [],
  ◌∷◌, lookup, lookup-adjust, arith,
}
use agent_repository.Webhooks.{write_hosted}
use agent_repository.Models.{Db, HostedAgent}
use agent_repository.Session.{ok, or_raise, no_result, ◌>>◌, Session, Action, pure, commit, close}
use agent_repository.Session.Preserved.{bind-Preserves, or_raise-Preserves}
use agent_repository.Hosting.Words.{building}
use agent_repository.Hosting.Deploy.{Outcome, start_build, finish_build, build_and_deploy, finished}
use agent_repository.Hosting.Serve.{
  HostingTurn, request, build, is_building, remove_first, run_build, take_turn, Host,
  handle_hosting, serve_hosting,
}
use agent_repository.Hosting.Isolated.{SameFor, Agrees, Kept, commit-Kept, handle_hosting-Kept}

module _ (k : ℕ) (base : Db) where
  abbrev I : Session → Type 0
  I = Agrees k base

  write_hosted-Kept :
      (target : ℕ) (f : HostedAgent → HostedAgent)
      → (k == target) ≡ false
      → Kept k base (write_hosted target f)
  write_hosted-Kept target f apart s ((h, a, r), c, w) =
      let row : lookup k (adjust target f s.db.hosted) ≡ lookup k s.db.hosted =
        ground (arith, apart, lookup-adjust k target f s.db.hosted) in
      ((row ∙ h, a, r), c, w)

  start_build-Kept : (target : ℕ) → (k == target) ≡ false → Kept k base (start_build target)
  unfolding start_build
  start_build-Kept target apart s (d, c, w) =
      let log : HostedAgent → HostedAgent = λ h. record h { build_log = some building } in
      let found = lookup target s.committed.hosted in
      let rest : HostedAgent → Action HostedAgent =
        λ h. write_hosted target log >> (commit >> pure (log h)) in
      bind-Preserves I (or_raise found no_result) rest (or_raise-Preserves I found no_result)
        (λ h.
          bind-Preserves I (write_hosted target log) (λ _. commit >> pure (log h))
            (write_hosted-Kept target log apart)
            (λ _. bind-Preserves I commit (λ _. pure (log h)) (commit-Kept k base) (λ _ u i. i)))
        (close s) (c, c, w)

  finish_build-Kept :
      (target : ℕ) (loaded : HostedAgent) (outcome : Outcome)
      → (k == target) ≡ false
      → Kept k base (finish_build target loaded outcome)
  unfolding finish_build
  finish_build-Kept target loaded outcome apart s (d, c, w) =
      bind-Preserves I (write_hosted target (finished loaded outcome)) (λ _. commit)
        (write_hosted-Kept target (finished loaded outcome) apart) (λ _. commit-Kept k base)
        (close s) (c, c, w)

  build_and_deploy-Kept :
      (target : ℕ) (outcome : Outcome)
      → (k == target) ≡ false
      → Kept k base (build_and_deploy target outcome)
  unfolding build_and_deploy
  build_and_deploy-Kept target outcome apart =
      bind-Preserves I (start_build target) (λ h. finish_build target h outcome)
        (start_build-Kept target apart) (λ h. finish_build-Kept target h outcome apart)

  -- A build that is started is of another agent.
  started_apart :
      (target : ℕ) (builds : List ℕ)
      → is_building target builds ≡ true
      → is_building k builds ≡ false
      → (k == target) ≡ false
  unfolding is_building
  started_apart target [] e w = absurd (ground (arith, e))
  started_apart target (j ∷ js) e w = ground (arith, started_apart target js)

  remove_first-building :
      (target : ℕ) (builds : List ℕ)
      → is_building k builds ≡ false
      → is_building k (remove_first target builds) ≡ false
  unfolding is_building remove_first
  remove_first-building target [] w = w
  remove_first-building target (j ∷ js) w = ground (arith, remove_first-building target js)

  run_build-Kept : (target : ℕ) (outcome : Outcome) → Kept k base (run_build target outcome)
  unfolding run_build
  run_build-Kept target outcome s i = elim (Bool-cases (is_building target s.redis.builds)) [
    | inl started ↦
        let apart = started_apart target s.redis.builds started i.2 in
        let taken : Session = record s {
          redis = record s.redis { builds = remove_first target s.redis.builds };
        } in
        let kept : I taken = (i.0, i.1, remove_first-building target s.redis.builds i.2) in
        let same : run_build target outcome s ≡ build_and_deploy target outcome taken =
          rw started refl in
        subst (λ p. I p.1) (sym same) (build_and_deploy-Kept target outcome apart taken kept)
    | inr none_started ↦
        let same : run_build target outcome s ≡ (ok tt, s) = rw none_started refl in
        subst (λ p. I p.1) (sym same) i
  ]

-- No request is by this agent.
abbrev pub NoneBy : ℕ → List HostingTurn → Type 0
NoneBy k [] = Unit
NoneBy k (request agent_id caller r ∷ turns) = ((k == caller) ≡ false) × NoneBy k turns
NoneBy k (build agent_id outcome ∷ turns) = NoneBy k turns

-- No build of the agent is under way.
abbrev pub NoneBuilding : ℕ → Session → Type 0
NoneBuilding k s = is_building k s.redis.builds ≡ false

serve_hosting-SameFor :
    (host : Host) (k : ℕ) (base : Db) (turns : List HostingTurn) (s : Session)
    → NoneBy k turns
    → SameFor k base s.committed
    → NoneBuilding k s
    → SameFor k base (serve_hosting host turns s).committed
unfolding serve_hosting take_turn
serve_hosting-SameFor host k base [] s none_by same idle = same
serve_hosting-SameFor host k base (request agent_id caller r ∷ turns) s (other, rest) same idle =
    let after_it =
      handle_hosting-Kept k base host agent_id caller r other (close s) (same, same, idle) in
    serve_hosting-SameFor host k base turns (handle_hosting host agent_id caller r (close s)).1 rest
      after_it.1 after_it.2
serve_hosting-SameFor host k base (build target outcome ∷ turns) s rest same idle =
    let after_it = run_build-Kept k base target outcome (close s) (same, same, idle) in
    serve_hosting-SameFor host k base turns (run_build target outcome (close s)).1 rest after_it.1
      after_it.2

-- Whatever requests other agents make to the hosting endpoints, under whatever id in the path,
-- and whatever becomes of the builds that they start: if no build of an agent is under way, its
-- row of a deployment, its own row and its secrets stay in the tables as they were.
pub serve_hosting-isolated :
    (host : Host) (k : ℕ) (turns : List HostingTurn) (s : Session)
    → NoneBy k turns
    → NoneBuilding k s
    → SameFor k s.committed (serve_hosting host turns s).committed
serve_hosting-isolated host k turns s none_by idle =
    serve_hosting-SameFor host k s.committed turns s none_by (refl, refl, refl) idle
