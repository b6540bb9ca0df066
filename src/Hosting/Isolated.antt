-- ===== src/Hosting/Isolated.antt =====
-- An agent's hosting requests do not touch what belongs to another agent.
pub mod Turns
use agent_repository.Common.{
  ℕ, ◌==◌, ◌≡◌, refl, ◌∙◌, Bool, true, false, not, Option, none, some, List, [], ◌∷◌, ◌++◌, lookup,
  lookup-insert, lookup-adjust, arith,
}
use agent_repository.Common.Text.{Text}
use agent_repository.Yaml.{Yaml}
use agent_repository.Models.{Db, AgentSecret, HostedAgent, HostingMode}
use agent_repository.Session.{
  ◌>>=◌, ◌>>◌, Session, Action, pure, commit, raise_if, bad_request, not_found, not_a_party,
}
use agent_repository.Session.Preserved.{Preserves, bind-Preserves, reads-Preserves}
use agent_repository.Pages.{where_rows}
use agent_repository.Secrets.{Fernet, is_secret, is_other, new_secret, set_secret, delete_secret}
use agent_repository.Hosting.Manifest.{Python, AgentManifest}
use agent_repository.Hosting.Archive.{Archive}
use agent_repository.Hosting.Deploy.{
  accept_upload, store_upload, deployed, save_deployment, deploy_agent, undeploy_agent, stopped,
}
use agent_repository.Hosting.Serve.{
  request, is_building, HostingRequest, Host, handle_hosting, deploy, status, undeploy, logs,
  secrets, set, remove,
}
use agent_repository.Hosting.Reads.{
  accept_upload-reads, get_deploy_status-reads, get_deploy_logs-reads, list_agent_secrets-reads,
}
use agent_repository.Hosting.Endpoints.{
  check_owner, create_deployment, get_deploy_status, delete_deployment, get_deploy_logs,
  list_agent_secrets,
}

-- The rows of agent `k` are the same.
abbrev pub SameFor : ℕ → Db → Db → Type 0
SameFor k d u =
    (lookup k u.hosted ≡ lookup k d.hosted)
    × (lookup k u.agents ≡ lookup k d.agents)
    × (where_rows (λ r. r.agent_id == k) u.secrets ≡ where_rows (λ r. r.agent_id == k) d.secrets)

others_kept :
    (k agent_id : ℕ) (key : Text) (rows : List AgentSecret)
    → (k == agent_id) ≡ false
    → where_rows (λ r. r.agent_id == k) (where_rows (is_other agent_id key) rows)
      ≡ where_rows (λ r. r.agent_id == k) rows
unfolding where_rows is_secret
others_kept k agent_id key [] h = refl
others_kept k agent_id key (r ∷ rows) h = ground (arith, others_kept k agent_id key rows h)

others_appended :
    (k : ℕ) (r : AgentSecret) (rows : List AgentSecret)
    → (r.agent_id == k) ≡ false
    → where_rows (λ q. q.agent_id == k) (rows ++ r ∷ []) ≡ where_rows (λ q. q.agent_id == k) rows
unfolding where_rows
others_appended k r [] h = ground (arith, h)
others_appended k r (q ∷ rows) h = ground (arith, others_appended k r rows h)

-- What is pending and what is committed agree with `base` on the rows of agent `k`, of which no
-- build is started.
abbrev pub Agrees : ℕ → Db → Session → Type 0
Agrees k base s =
    SameFor k base s.db × SameFor k base s.committed × (is_building k s.redis.builds ≡ false)

module _ (k : ℕ) (base : Db) where
  abbrev pub Kept : {A : Type 0} → Action A → Type 0
  Kept m = Preserves (Agrees k base) m

  abbrev I : Session → Type 0
  I = Agrees k base

  pub commit-Kept : Kept commit
  commit-Kept s i = (i.0, i.0, i.2)

  allowed-Kept :
      {A : Type 0} (c : Bool) (target : ℕ) (f : ℕ → Action A)
      → (c ≡ true → Kept (f target))
      → Kept ((do raise_if (not c) not_a_party; pure target) >>= f)
  allowed-Kept true target f h s i = h refl s i
  allowed-Kept false target f h s i = i

  -- The rest of a request runs for the caller alone.
  owner-Kept :
      {A : Type 0} (agent_id : Option ℕ) (caller : ℕ) (f : ℕ → Action A)
      → (k == caller) ≡ false
      → ((target : ℕ) → (k == target) ≡ false → Kept (f target))
      → Kept (check_owner agent_id caller >>= f)
  unfolding check_owner
  owner-Kept none caller f other rest = λ s i. i
  owner-Kept (some target) caller f other rest =
      allowed-Kept (target == caller) target f (λ own. rest target (ground (arith, own, other)))

  module _ (target : ℕ) (apart : (k == target) ≡ false) where
    set_secret-Kept :
        (fernet : Fernet) (key value : Text) → Kept (set_secret fernet target key value)
    unfolding set_secret new_secret
    set_secret-Kept fernet key value s ((h, a, r), c, w) =
        let rows = where_rows (is_other target key) s.db.secrets in
        let new = new_secret fernet target key value in
        let differs : (target == k) ≡ false = ground (arith, apart) in
        let same =
          others_appended k new rows differs ∙ others_kept k target key s.db.secrets apart in
        ((h, a, same ∙ r), c, w)

    delete_secret-Kept : (key : Text) → Kept (delete_secret target key)
    unfolding delete_secret
    delete_secret-Kept key s ((h, a, r), c, w) =
        ((h, a, others_kept k target key s.db.secrets apart ∙ r), c, w)

    undeploy_agent-Kept : Kept (undeploy_agent target)
    unfolding undeploy_agent
    undeploy_agent-Kept s ((h, a, r), c, w) = ground (
      arith,
      apart,
      h,
      a,
      r,
      c,
      w,
      lookup-adjust k target stopped s.db.hosted,
      lookup-adjust k target (λ a. record a { hosting_mode = HostingMode.client_only }) s.db.agents,
    )

    save_deployment-Kept : (hosted : HostedAgent) → Kept (save_deployment target hosted)
    unfolding save_deployment
    save_deployment-Kept hosted s ((h, a, r), c, w) = ground (
      arith,
      apart,
      h,
      a,
      r,
      c,
      w,
      lookup-insert k target hosted s.db.hosted,
      lookup-adjust k target (λ a. record a { hosting_mode = HostingMode.hosted }) s.db.agents,
    )

    store_upload-Kept :
        (source_hash : ℕ) (region : Option Text) (upload : Yaml × AgentManifest)
        → Kept (store_upload target source_hash region upload)
    unfolding store_upload is_building
    store_upload-Kept source_hash region (data_in, manifest) s i =
        let hosted =
          deployed s.env.now data_in manifest source_hash region (lookup target s.db.hosted) in
        let saved = save_deployment-Kept hosted s i in
        (saved.0, saved.1, ground (arith, apart, saved.2))

    deploy_agent-Kept :
        (python : Python) (fernet : Fernet) (archive : Archive) (region : Option Text)
        → Kept (deploy_agent python fernet target archive region)
    unfolding deploy_agent store_upload
    deploy_agent-Kept python fernet archive region =
        let accept = accept_upload python fernet target archive in
        bind-Preserves (Agrees k base) accept (store_upload target archive.sha256 region)
          (reads-Preserves (Agrees k base) accept
            (accept_upload-reads python fernet target archive))
          (store_upload-Kept archive.sha256 region)

  -- A change, committed if there was one.
  checked-Kept : (m : Action Bool) → Kept m → Kept (m >>= λ d. raise_if (not d) not_found >> commit)
  checked-Kept m h =
      bind-Preserves I m (λ d. raise_if (not d) not_found >> commit) h
        (λ d.
          bind-Preserves I (raise_if (not d) not_found) (λ _. commit) (λ s i. i) (λ _. commit-Kept))

  delete_deployment-Kept :
      (agent_id : Option ℕ) (caller : ℕ)
      → (k == caller) ≡ false
      → Kept (delete_deployment agent_id caller)
  unfolding delete_deployment
  delete_deployment-Kept agent_id caller other =
      owner-Kept agent_id caller
        (λ t. undeploy_agent t >>= λ d. raise_if (not d) not_found >> commit) other
        (λ t apart. checked-Kept (undeploy_agent t) (undeploy_agent-Kept t apart))

  create_deployment-Kept :
      (python : Python) (fernet : Fernet) (agent_id : Option ℕ) (caller : ℕ) (archive : Archive)
      (region : Option Text)
      → (k == caller) ≡ false
      → Kept (create_deployment python fernet agent_id caller archive region)
  unfolding create_deployment
  create_deployment-Kept python fernet agent_id caller archive region other =
      let keep : HostedAgent × AgentManifest → Action (HostedAgent × AgentManifest) =
        λ hosted. commit >> pure hosted in
      let run : ℕ → Action (HostedAgent × AgentManifest) =
        λ t. deploy_agent python fernet t archive region >>= keep in
      owner-Kept agent_id caller (λ t. raise_if (archive.size == 0) bad_request >> run t) other
        (λ t apart.
          bind-Preserves I (raise_if (archive.size == 0) bad_request) (λ _. run t) (λ s i. i)
            (λ _.
              bind-Preserves I (deploy_agent python fernet t archive region) keep
                (deploy_agent-Kept t apart python fernet archive region)
                (λ hosted. bind-Preserves I commit (λ _. pure hosted) commit-Kept (λ _ s i. i))))

  pub handle_hosting-Kept :
      (host : Host) (agent_id : Option ℕ) (caller : ℕ) (request : HostingRequest)
      → (k == caller) ≡ false
      → Kept (handle_hosting host agent_id caller request)
  unfolding handle_hosting
  handle_hosting-Kept host agent_id caller (deploy archive region) other =
      bind-Preserves I (create_deployment host.python host.fernet agent_id caller archive region)
        (λ _. pure tt)
        (create_deployment-Kept host.python host.fernet agent_id caller archive region other)
        (λ _ s i. i)
  handle_hosting-Kept host agent_id caller status other =
      bind-Preserves I (get_deploy_status agent_id caller) (λ _. pure tt)
        (reads-Preserves I (get_deploy_status agent_id caller)
          (λ s. get_deploy_status-reads agent_id caller s))
        (λ _ s i. i)
  handle_hosting-Kept host agent_id caller undeploy other =
      delete_deployment-Kept agent_id caller other
  handle_hosting-Kept host agent_id caller logs other =
      bind-Preserves I (get_deploy_logs host.container_logs agent_id caller) (λ _. pure tt)
        (reads-Preserves I (get_deploy_logs host.container_logs agent_id caller)
          (λ s. get_deploy_logs-reads host.container_logs agent_id caller s))
        (λ _ s i. i)
  handle_hosting-Kept host agent_id caller secrets other =
      bind-Preserves I (list_agent_secrets agent_id caller) (λ _. pure tt)
        (reads-Preserves I (list_agent_secrets agent_id caller)
          (λ s. list_agent_secrets-reads agent_id caller s))
        (λ _ s i. i)
  handle_hosting-Kept host agent_id caller (set key value) other =
      owner-Kept agent_id caller (λ t. set_secret host.fernet t key value >> commit) other
        (λ t apart.
          bind-Preserves I (set_secret host.fernet t key value) (λ _. commit)
            (set_secret-Kept t apart host.fernet key value) (λ _. commit-Kept))
  handle_hosting-Kept host agent_id caller (remove key) other =
      owner-Kept agent_id caller
        (λ t. delete_secret t key >>= λ d. raise_if (not d) not_found >> commit) other
        (λ t apart. checked-Kept (delete_secret t key) (delete_secret-Kept t apart key))
