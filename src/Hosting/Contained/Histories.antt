-- ===== src/Hosting/Contained/Histories.antt =====
-- Whole histories of the hosting service.
use agent_repository.Common.{ℕ, ◌==◌, ◌≡◌, Bool, not, Option, List, [], ◌∷◌, lookup, arith}
use agent_repository.Models.{HostedAgent}
use agent_repository.Session.{Session, Action, ⊤, ◌>>=◌, ◌>>◌, pure, commit, when}
use agent_repository.Session.Preserved.{bind-Preserves, when-Preserves, reads-Preserves}
use agent_repository.Webhooks.{wake_agent, write_hosted}
use agent_repository.Yaml.{Yaml}
use agent_repository.Common.Text.{Text}
use agent_repository.Hosting.Manifest.{Python, AgentManifest}
use agent_repository.Secrets.{Fernet}
use agent_repository.Hosting.Archive.{Archive}
use agent_repository.Hosting.Reads.{accept_upload-reads}
use agent_repository.Hosting.Deploy.{
  accept_upload, store_upload, deploy_agent, undeploy_agent, Outcome, stopped, deployed,
  new_session, build_and_deploy,
}
use agent_repository.Hosting.Scaler.{idle_pass}
use agent_repository.Hosting.Contained.{
  AllContained, Sound, Safe, write_hosted-Safe, commit-Safe, save_deployment-Safe,
  deployed-HasContainer,
}
use agent_repository.Hosting.Contained.Wakes.{wake_agent-Safe, idle_pass-Safe}
use agent_repository.Hosting.Contained.Builds.{build_and_deploy-Safe}
use agent_repository.Hosting.Reads.{
  get_deploy_status-reads, get_deploy_logs-reads, list_agent_secrets-reads,
}
use agent_repository.Hosting.Serve.{
  HostingRequest, Host, handle_hosting, deploy, status, undeploy, logs, secrets, set, remove,
}
use agent_repository.Secrets.{set_secret, delete_secret}
use agent_repository.Session.{bad_request, not_found, raise_if, write_agent}
use agent_repository.Models.{HostingMode}
use agent_repository.Common.{contains}
use agent_repository.Hosting.Endpoints.{
  check_owner, create_deployment, get_deploy_status, delete_deployment, get_deploy_logs,
  create_secret, list_agent_secrets, delete_agent_secret,
}

store_upload-Safe :
    (k source_hash : ℕ) (region : Option Text) (upload : Yaml × AgentManifest)
    → Safe (store_upload k source_hash region upload)
unfolding store_upload
store_upload-Safe k source_hash region (data_in, manifest) s i =
    let hosted = deployed s.env.now data_in manifest source_hash region (lookup k s.db.hosted) in
    save_deployment-Safe k hosted
      (deployed-HasContainer s.env.now data_in manifest source_hash region (lookup k s.db.hosted)) s
      i

deploy_agent-Safe :
    (python : Python) (fernet : Fernet) (k : ℕ) (archive : Archive) (region : Option Text)
    → Safe (deploy_agent python fernet k archive region)
unfolding deploy_agent
deploy_agent-Safe python fernet k archive region =
    bind-Preserves Sound (accept_upload python fernet k archive)
      (store_upload k archive.sha256 region)
      (reads-Preserves Sound (accept_upload python fernet k archive)
        (accept_upload-reads python fernet k archive))
      (store_upload-Safe k archive.sha256 region)

undeploy_agent-Safe : (k : ℕ) → Safe (undeploy_agent k)
unfolding undeploy_agent
undeploy_agent-Safe k s =
    let revert : Action ⊤ =
      write_agent k (λ a. record a { hosting_mode = HostingMode.client_only }) in
    let found = contains k s.db.hosted in
    bind-Preserves Sound (when found (write_hosted k stopped >> revert)) (λ _. pure found)
      (when-Preserves Sound found (write_hosted k stopped >> revert)
        (write_hosted-Safe k stopped (λ h has. tt)))
      (λ _ s i. i) s

check_owner-reads :
    (agent_id : Option ℕ) (caller : ℕ) (s : Session) → (check_owner agent_id caller s).1 ≡ s
unfolding check_owner
check_owner-reads agent_id caller s = ground arith

-- What follows the check of the owner.
owner-Safe :
    {A : Type 0} (agent_id : Option ℕ) (caller : ℕ) (f : ℕ → Action A)
    → ((target : ℕ) → Safe (f target))
    → Safe (check_owner agent_id caller >>= f)
owner-Safe agent_id caller f rest =
    bind-Preserves Sound (check_owner agent_id caller) f
      (reads-Preserves Sound (check_owner agent_id caller) (check_owner-reads agent_id caller)) rest

checked-Safe : (m : Action Bool) → Safe m → Safe (m >>= λ d. raise_if (not d) not_found >> commit)
checked-Safe m h =
    bind-Preserves Sound m (λ d. raise_if (not d) not_found >> commit) h
      (λ d.
        bind-Preserves Sound (raise_if (not d) not_found) (λ _. commit) (λ s i. i)
          (λ _. commit-Safe))

-- Secrets stand in a table of their own.
set_secret-Safe :
    (fernet : Fernet) (k : ℕ) (key value : Text) → Safe (set_secret fernet k key value)
unfolding set_secret
set_secret-Safe fernet k key value s i = i

delete_secret-Safe : (k : ℕ) (key : Text) → Safe (delete_secret k key)
unfolding delete_secret
delete_secret-Safe k key s i = i

then_nothing : {A : Type 0} (m : Action A) → Safe m → Safe (m >>= λ _. pure tt)
then_nothing m h = bind-Preserves Sound m (λ _. pure tt) h (λ _ s i. i)

create_deployment-Safe :
    (python : Python) (fernet : Fernet) (agent_id : Option ℕ) (caller : ℕ) (archive : Archive)
    (region : Option Text)
    → Safe (create_deployment python fernet agent_id caller archive region)
unfolding create_deployment
create_deployment-Safe python fernet agent_id caller archive region =
    let keep : HostedAgent × AgentManifest → Action (HostedAgent × AgentManifest) =
      λ hosted. commit >> pure hosted in
    let run : ℕ → Action (HostedAgent × AgentManifest) =
      λ t. deploy_agent python fernet t archive region >>= keep in
    owner-Safe agent_id caller (λ t. raise_if (archive.size == 0) bad_request >> run t)
      (λ t.
        bind-Preserves Sound (raise_if (archive.size == 0) bad_request) (λ _. run t) (λ s i. i)
          (λ _.
            bind-Preserves Sound (deploy_agent python fernet t archive region) keep
              (deploy_agent-Safe python fernet t archive region)
              (λ hosted. bind-Preserves Sound commit (λ _. pure hosted) commit-Safe (λ _ s i. i))))

handle_hosting-Safe :
    (host : Host) (agent_id : Option ℕ) (caller : ℕ) (request : HostingRequest)
    → Safe (handle_hosting host agent_id caller request)
unfolding handle_hosting create_deployment delete_deployment create_secret delete_agent_secret
handle_hosting-Safe host agent_id caller (deploy archive region) =
    then_nothing (create_deployment host.python host.fernet agent_id caller archive region)
      (create_deployment-Safe host.python host.fernet agent_id caller archive region)
handle_hosting-Safe host agent_id caller status = then_nothing (get_deploy_status agent_id caller) (
    reads-Preserves Sound (get_deploy_status agent_id caller)
      (get_deploy_status-reads agent_id caller))
handle_hosting-Safe host agent_id caller undeploy =
    owner-Safe agent_id caller (λ t. undeploy_agent t >>= λ d. raise_if (not d) not_found >> commit)
      (λ t. checked-Safe (undeploy_agent t) (undeploy_agent-Safe t))
handle_hosting-Safe host agent_id caller logs =
    then_nothing (get_deploy_logs host.container_logs agent_id caller) (
      reads-Preserves Sound (get_deploy_logs host.container_logs agent_id caller)
        (get_deploy_logs-reads host.container_logs agent_id caller))
handle_hosting-Safe host agent_id caller secrets =
    then_nothing (list_agent_secrets agent_id caller) (
      reads-Preserves Sound (list_agent_secrets agent_id caller)
        (list_agent_secrets-reads agent_id caller))
handle_hosting-Safe host agent_id caller (set key value) =
    owner-Safe agent_id caller (λ t. set_secret host.fernet t key value >> commit)
      (λ t.
        bind-Preserves Sound (set_secret host.fernet t key value) (λ _. commit)
          (set_secret-Safe host.fernet t key value) (λ _. commit-Safe))
handle_hosting-Safe host agent_id caller (remove key) =
    owner-Safe agent_id caller
      (λ t. delete_secret t key >>= λ d. raise_if (not d) not_found >> commit)
      (λ t. checked-Safe (delete_secret t key) (delete_secret-Safe t key))

-- What happens to hosted agents: a request to an endpoint, a background build from its start to its
-- end, the waking before a notification, a turn of the idle monitor with the containers that stop.
pub data HostingEvent : Type 0 where
  request : Option ℕ → ℕ → HostingRequest → HostingEvent
  build : ℕ → Outcome → HostingEvent
  wake : ℕ → HostingEvent
  idle : (ℕ → Bool) → HostingEvent

-- Each has a session of its own.
unfoldable pub run_event : Host → HostingEvent → Action ⊤
unfolding handle_hosting build_and_deploy wake_agent idle_pass
run_event host (request agent_id caller r) = do new_session; handle_hosting host agent_id caller r
run_event host (build k outcome) = build_and_deploy k outcome
run_event host (wake k) = do new_session; wake_agent k; commit
run_event host (idle stops) = idle_pass stops

unfoldable pub run_events : Host → List HostingEvent → Session → Session
unfolding run_event
run_events host [] s = s
run_events host (e ∷ es) s = run_events host es (run_event host e s).1

run_event-Sound :
    (host : Host) (e : HostingEvent) (s : Session)
    → AllContained s.committed
    → Sound (run_event host e s).1
unfolding run_event
run_event-Sound host (request agent_id caller r) s c =
    handle_hosting-Safe host agent_id caller r (new_session s).1 (c, c)
run_event-Sound host (build k outcome) s c =
    build_and_deploy-Safe k outcome (new_session s).1 (c, c)
run_event-Sound host (wake k) s c =
    bind-Preserves Sound (wake_agent k) (λ _. commit) (wake_agent-Safe k) (λ _. commit-Safe)
      (new_session s).1 (c, c)
run_event-Sound host (idle stops) s c = idle_pass-Safe stops (new_session s).1 (c, c)

-- Whatever requests, builds, wakings and turns of the idle monitor follow one another, each to
-- its end, from tables in which every deployment that is running, sleeping or deploying has a
-- container: it is so afterwards, too.
pub run_events-AllContained :
    (host : Host) (es : List HostingEvent) (s : Session)
    → AllContained s.committed
    → AllContained (run_events host es s).committed
unfolding run_events
run_events-AllContained host [] s c = c
run_events-AllContained host (e ∷ es) s c =
    run_events-AllContained host es (run_event host e s).1 (run_event-Sound host e s c).1
