-- ===== src/Hosting/Accepted.antt =====
-- What a deployment that is accepted comes to.
use agent_repository.Common.{
  ℕ, ◌==◌, ◌≡◌, refl, sym, ap, ◌∙◌, subst, Bool, true, false, Option, none, some, List, [], ◌∷◌,
  lookup, insert, adjust, lookup-insert, lookup-adjust, map_some, arith,
}
use agent_repository.Common.Text.{Text}
use agent_repository.Yaml.{Yaml}
use agent_repository.Models.{Db, Agent, HostedAgent, HostingMode, DeploymentStatus}
use agent_repository.Session.{
  Session, Result, ok, err, Action, ◌>>=◌, ◌>>◌, bad_request, raise_if, commit, pure,
}
use agent_repository.Session.Preserved.{returned}
use agent_repository.Secrets.{Fernet, get_all_decrypted}
use agent_repository.Hosting.Manifest.{
  Python, AgentManifest, parse_manifest, with_ref, extract_secret_refs,
}
use agent_repository.Hosting.Valid.{IsValid, parse_manifest-IsValid}
use agent_repository.Hosting.Archive.{Archive, extract_manifest}
use agent_repository.Hosting.Patterns.{secret_ref}
use agent_repository.Hosting.Environment.{Vars, has_key}
use agent_repository.Hosting.Deploy.{
  any_missing, check_secrets, accept_upload, store_upload, save_deployment, deploy_agent, deployed,
  new_hosted, redeployed,
}
use agent_repository.Hosting.Endpoints.{check_owner, create_deployment}

abbrev HasSecret : Vars → Option Text → Type 0
HasSecret secrets (some name) = has_key name secrets ≡ true
HasSecret secrets none = Unit

-- Every secret that is referred to is there.
abbrev pub HasSecrets : Vars → List (Text × Text) → Type 0
HasSecrets secrets [] = Unit
HasSecrets secrets ((k, v) ∷ env) = HasSecret secrets (secret_ref v) × HasSecrets secrets env

-- Nothing refers to a secret.
abbrev pub HasNoRefs : List (Text × Text) → Type 0
HasNoRefs env = extract_secret_refs env ≡ []

then-HasSecrets :
    (secrets : Vars) (env : List (Text × Text)) (o : Option Text)
    → (any_missing (extract_secret_refs env) secrets ≡ false → HasSecrets secrets env)
    → any_missing (with_ref o (extract_secret_refs env)) secrets ≡ false
    → HasSecret secrets o × HasSecrets secrets env
unfolding any_missing
then-HasSecrets secrets env (some name) rest h = (ground (arith, h), rest (ground (arith, h)))
then-HasSecrets secrets env none rest h = (tt, rest h)

any_missing-HasSecrets :
    (secrets : Vars) (env : List (Text × Text))
    → any_missing (extract_secret_refs env) secrets ≡ false
    → HasSecrets secrets env
unfolding extract_secret_refs
any_missing-HasSecrets secrets [] h = tt
any_missing-HasSecrets secrets ((k, v) ∷ env) h =
    then-HasSecrets secrets env (secret_ref v) (any_missing-HasSecrets secrets env) h

-- What the check of the secrets has seen.
abbrev pub Referred : Result Vars → List (Text × Text) → Type 0
Referred (ok secrets) env = HasSecrets secrets env
Referred (err e) env = HasNoRefs env

not_raised : (c : Bool) (s : Session) → (raise_if c bad_request s).0 ≡ ok tt → c ≡ false
not_raised true s h = ground (arith, h)
not_raised false s h = refl

none-Referred :
    (r : Result Vars) (env : List (Text × Text)) → extract_secret_refs env ≡ [] → Referred r env
unfolding any_missing
none-Referred (ok secrets) env e = any_missing-HasSecrets secrets env (rw e refl)
none-Referred (err w) env e = e

check_secrets-Referred :
    (fernet : Fernet) (k : ℕ) (refs : List Text) (env : List (Text × Text)) (s : Session)
    → extract_secret_refs env ≡ refs
    → (check_secrets fernet k refs s).0 ≡ ok tt
    → Referred (get_all_decrypted fernet k s).0 env
unfolding check_secrets
check_secrets-Referred fernet k [] env s e h = none-Referred (get_all_decrypted fernet k s).0 env e
check_secrets-Referred fernet k (r ∷ refs) env s e h =
    let (secrets, got, done) =
      returned (get_all_decrypted fernet k s)
        (λ existing. raise_if (any_missing (r ∷ refs) existing) bad_request) tt h in
    subst (λ p. Referred p env) (sym got)
      (any_missing-HasSecrets secrets env (
        rw e (
          not_raised (any_missing (r ∷ refs) secrets) (get_all_decrypted fernet k s).1
            (ap (λ p. p.0) (sym done) ∙ h))))

accept_upload-parsed :
    (python : Python) (fernet : Fernet) (k : ℕ) (archive : Archive) (s : Session) (data_in : Yaml)
    (m : AgentManifest)
    → (accept_upload python fernet k archive s).0 ≡ ok (data_in, m)
    → (extract_manifest archive ≡ ok data_in)
      × (parse_manifest python data_in ≡ ok m)
      × ((check_secrets fernet k (extract_secret_refs m.env) s).0 ≡ ok tt)
unfolding accept_upload
accept_upload-parsed python fernet k archive s data_in m h = ground (arith, h)

-- The row of a deployment of `m` that is to be built.
abbrev pub Builds : AgentManifest → HostedAgent → Type 0
Builds m h =
    (h.status ≡ DeploymentStatus.building)
    × (h.runtime ≡ m.runtime)
    × (h.cpu_limit ≡ m.cpu)
    × (h.memory_limit_mb ≡ m.memory_mb)

abbrev pub Hosted : Option Agent → Type 0
Hosted none = Unit
Hosted (some a) = a.hosting_mode ≡ HostingMode.hosted

deployed-Builds :
    (now : ℕ) (data_in : Yaml) (m : AgentManifest) (source_hash : ℕ) (region : Option Text)
    (o : Option HostedAgent)
    → Builds m (deployed now data_in m source_hash region o)
unfolding deployed new_hosted redeployed
deployed-Builds now data_in m source_hash region none = (refl, refl, refl, refl)
deployed-Builds now data_in m source_hash region (some h) = (refl, refl, refl, refl)

abbrev set_hosted : Agent → Agent
set_hosted a = record a { hosting_mode = HostingMode.hosted }

map-Hosted : (o : Option Agent) → Hosted (map_some set_hosted o)
map-Hosted none = tt
map-Hosted (some a) = refl

-- Agent `k` has this row, of a deployment of `m`, and is hosted.
abbrev pub IsDeployed : ℕ → AgentManifest → HostedAgent → Db → Type 0
IsDeployed k m h d = (lookup k d.hosted ≡ some h) × Builds m h × Hosted (lookup k d.agents)

store_upload-IsDeployed :
    (k source_hash : ℕ) (region : Option Text) (s : Session) (data_in : Yaml) (m n : AgentManifest)
    (h : HostedAgent)
    → (store_upload k source_hash region (data_in, m) s).0 ≡ ok (h, n)
    → (m ≡ n) × IsDeployed k m h (store_upload k source_hash region (data_in, m) s).1.db
unfolding store_upload save_deployment
store_upload-IsDeployed k source_hash region s data_in m n h e =
    let row = deployed s.env.now data_in m source_hash region (lookup k s.db.hosted) in
    let same : row ≡ h = ground (arith, e) in
    let at : lookup k (insert k row s.db.hosted) ≡ some h =
      ground (arith, lookup-insert k k row s.db.hosted, same) in
    let mode : lookup k (adjust k set_hosted s.db.agents)
        ≡ map_some set_hosted (lookup k s.db.agents) =
      ground (arith, lookup-adjust k k set_hosted s.db.agents) in
    (
      ground (arith, e),
      (
        at,
        subst (Builds m) same
            (deployed-Builds s.env.now data_in m source_hash region (lookup k s.db.hosted)),
        subst Hosted (sym mode) (map-Hosted (lookup k s.db.agents)),
      ),
    )

own_target :
    (agent_id : Option ℕ) (caller k : ℕ) (s : Session)
    → (check_owner agent_id caller s).0 ≡ ok k
    → (k ≡ caller) × (agent_id ≡ some caller) × ((check_owner agent_id caller s).1 ≡ s)
unfolding check_owner
own_target agent_id caller k s h = ground (arith, h)

deploy_agent-IsDeployed :
    (python : Python) (fernet : Fernet) (k : ℕ) (archive : Archive) (region : Option Text)
    (s : Session) (h : HostedAgent) (m : AgentManifest)
    → (deploy_agent python fernet k archive region s).0 ≡ ok (h, m)
    → IsValid m
      × Referred (get_all_decrypted fernet k s).0 m.env
      × IsDeployed k m h (deploy_agent python fernet k archive region s).1.db
unfolding deploy_agent
deploy_agent-IsDeployed python fernet k archive region s h m e =
    let p = accept_upload python fernet k archive s in
    let store = store_upload k archive.sha256 region in
    let (upload, taken, run) = returned p store (h, m) e in
    let (loaded, parsed, checked) =
      accept_upload-parsed python fernet k archive s upload.0 upload.1 taken in
    let (same, is_deployed) =
      store_upload-IsDeployed k archive.sha256 region p.1 upload.0 upload.1 m h
        (ap (λ q. q.0) (sym run) ∙ e) in
    let valid = parse_manifest-IsValid python upload.0 upload.1 parsed in
    let refs =
      check_secrets-Referred fernet k (extract_secret_refs upload.1.env) upload.1.env s refl
        checked in
    subst
      (λ n.
        IsValid n
        × Referred (get_all_decrypted fernet k s).0 n.env
        × IsDeployed k n h (deploy_agent python fernet k archive region s).1.db)
      same (valid, refs, subst (λ q. IsDeployed k upload.1 h q.1.db) (sym run) is_deployed)

-- A deployment request that is answered with a row: it is the agent's own; the archive held a
-- manifest that is within its limits, with skill ids that differ; every secret that its
-- environment refers to by the checked pattern was there; and it is committed that the agent has
-- this row, to be built with the runtime and the limits of the manifest, and that an agent with
-- a row of its own is in hosting mode hosted.
pub create_deployment-IsDeployed :
    (python : Python) (fernet : Fernet) (agent_id : Option ℕ) (caller : ℕ) (archive : Archive)
    (region : Option Text) (s : Session) (h : HostedAgent) (m : AgentManifest)
    → (create_deployment python fernet agent_id caller archive region s).0 ≡ ok (h, m)
    → (agent_id ≡ some caller)
      × IsValid m
      × Referred (get_all_decrypted fernet caller s).0 m.env
      × IsDeployed caller m h
          (create_deployment python fernet agent_id caller archive region s).1.committed
unfolding create_deployment deploy_agent
create_deployment-IsDeployed python fernet agent_id caller archive region s h m e =
    let keep : HostedAgent × AgentManifest → Action (HostedAgent × AgentManifest) =
      λ hosted. commit >> pure hosted in
    let run : ℕ → Action (HostedAgent × AgentManifest) =
      λ t. deploy_agent python fernet t archive region >>= keep in
    let guarded : ℕ → Action (HostedAgent × AgentManifest) =
      λ t. raise_if (archive.size == 0) bad_request >> run t in
    let (k, owned, go) = returned (check_owner agent_id caller s) guarded (h, m) e in
    let (own, named, unchanged) = own_target agent_id caller k s owned in
    let there : create_deployment python fernet agent_id caller archive region s
        ≡ guarded caller s =
      go
      ∙ ap (λ t. guarded t (check_owner agent_id caller s).1) own
      ∙ ap (guarded caller) unchanged in
    let (_, _, full) =
      returned (raise_if (archive.size == 0) bad_request s) (λ _. run caller) (h, m)
        (ap (λ q. q.0) (sym there) ∙ e) in
    let on = there ∙ full in
    let p = deploy_agent python fernet caller archive region s in
    let (r, made, kept) = returned p keep (h, m) (ap (λ q. q.0) (sym on) ∙ e) in
    let same : r ≡ (h, m) = ground (arith, ap (λ q. q.0) (sym (on ∙ kept)) ∙ e) in
    let done =
      deploy_agent-IsDeployed python fernet caller archive region s h m (made ∙ ap ok same) in
    (
      named,
      done.0,
      done.1,
      subst (λ q. IsDeployed caller m h q.1.committed) (sym (on ∙ kept)) done.2,
    )
