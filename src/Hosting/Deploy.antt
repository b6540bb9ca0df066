-- ===== src/Hosting/Deploy.antt =====
-- app/services/hosting/deploy.py: the deployment of an agent, the background build after it, and its
-- end. The container backend is outside: what a build comes to, and the logs, are arguments.
use agent_repository.Common.{
  ℕ, ◌*◌, ◌==◌, Bool, true, false, not, ◌||◌, ltb, Option, none, some, List, [], ◌∷◌, ◌++◌, lookup,
  contains, insert, if◌then◌else◌,
}
use agent_repository.Common.Text.{Text, is_empty}
use agent_repository.Yaml.{Yaml}
use agent_repository.Models.{HostedAgent, HostingMode, DeploymentStatus}
use agent_repository.Session.{
  ok, ◌>>=◌, ◌>>◌, ⊤, Action, Result, bad_request, not_found, no_result, pure, gets, or_raise,
  raise_if, when, modify_db, modify_redis, write_agent, commit, close,
}
use agent_repository.Secrets.{Fernet, get_all_decrypted}
use agent_repository.Webhooks.{write_hosted}
use agent_repository.Hosting.Words.{us_west1, building, complete, error_prefix, line_end, no_logs}
use agent_repository.Hosting.Manifest.{Python, AgentManifest, parse_manifest, extract_secret_refs}
use agent_repository.Hosting.Archive.{Archive, extract_manifest}
use agent_repository.Hosting.Environment.{Vars, has_key, value_of}

-- 50 MB
abbrev pub max_upload_size : ℕ
max_upload_size = 50 * 1024 * 1024

abbrev pub of_result : {A : Type 0} → Result A → Action A
of_result r s = (r, s)

unfoldable pub any_missing : List Text → Vars → Bool
unfolding value_of
any_missing [] existing = false
any_missing (r ∷ refs) existing = not (has_key r existing) || any_missing refs existing

-- The secrets are read if any is referred to.
unfoldable pub check_secrets : Fernet → ℕ → List Text → Action ⊤
unfolding any_missing get_all_decrypted
check_secrets fernet agent_id [] = pure tt
check_secrets fernet agent_id (r ∷ refs) = do
  existing ← get_all_decrypted fernet agent_id
  raise_if (any_missing (r ∷ refs) existing) bad_request

-- The row of a first deployment.
unfoldable pub new_hosted : ℕ → Yaml → AgentManifest → ℕ → Option Text → HostedAgent
new_hosted now data_in manifest source_hash region = record {
  manifest = data_in;
  source_hash = source_hash;
  container_id = none;
  status = DeploymentStatus.building;
  runtime = manifest.runtime;
  region = elim region [ some r ↦ r | none ↦ us_west1 ];
  build_log = none;
  error_message = none;
  cpu_limit = manifest.cpu;
  memory_limit_mb = manifest.memory_mb;
  scale_to_zero = true;
  idle_timeout_seconds = 300;
  last_activity_at = none;
  created_at = now;
}

-- The row of an agent that was deployed before keeps its container.
unfoldable pub redeployed : Yaml → AgentManifest → ℕ → Option Text → HostedAgent → HostedAgent
redeployed data_in manifest source_hash region h = record h {
  manifest = data_in;
  source_hash = source_hash;
  status = DeploymentStatus.building;
  runtime = manifest.runtime;
  region = elim region [ some r ↦ r | none ↦ h.region ];
  cpu_limit = manifest.cpu;
  memory_limit_mb = manifest.memory_mb;
  build_log = none;
  error_message = none;
}

unfoldable pub deployed :
    ℕ → Yaml → AgentManifest → ℕ → Option Text → Option HostedAgent → HostedAgent
unfolding new_hosted redeployed
deployed now data_in manifest source_hash region none =
    new_hosted now data_in manifest source_hash region
deployed now data_in manifest source_hash region (some h) =
    redeployed data_in manifest source_hash region h

unfoldable pub save_deployment : ℕ → HostedAgent → Action ⊤
save_deployment agent_id hosted = do
  modify_db (λ d. record d { hosted = insert agent_id hosted d.hosted })
  write_agent agent_id (λ a. record a { hosting_mode = HostingMode.hosted })

-- The document and the manifest of an upload that is taken.
unfoldable pub accept_upload : Python → Fernet → ℕ → Archive → Action (Yaml × AgentManifest)
unfolding extract_manifest parse_manifest extract_secret_refs check_secrets
accept_upload python fernet agent_id archive = do
  raise_if (ltb max_upload_size archive.size) bad_request
  data_in ← of_result (extract_manifest archive)
  manifest ← of_result (parse_manifest python data_in)
  check_secrets fernet agent_id (extract_secret_refs manifest.env)
  pure (data_in, manifest)

-- The row that is written, and the background build that is started, before the commit.
unfoldable pub store_upload :
    ℕ → ℕ → Option Text → Yaml × AgentManifest → Action (HostedAgent × AgentManifest)
unfolding deployed save_deployment
store_upload agent_id source_hash region (data_in, manifest) = do
  existing ← gets (λ s. lookup agent_id s.db.hosted)
  now ← gets (λ s. s.env.now)
  let hosted : HostedAgent = deployed now data_in manifest source_hash region existing
  save_deployment agent_id hosted
  modify_redis (λ r. record r { builds = agent_id ∷ r.builds })
  pure (hosted, manifest)

-- The row, and the manifest that the build is started with.
unfoldable pub deploy_agent :
    Python → Fernet → ℕ → Archive → Option Text → Action (HostedAgent × AgentManifest)
unfolding accept_upload store_upload
deploy_agent python fernet agent_id archive region = do
  upload ← accept_upload python fernet agent_id archive
  store_upload agent_id archive.sha256 region upload

unfoldable pub get_deployment : ℕ → Action (Option HostedAgent)
get_deployment agent_id = gets (λ s. lookup agent_id s.db.hosted)

abbrev pub stopped : HostedAgent → HostedAgent
stopped h = record h { status = DeploymentStatus.stopped; container_id = none }

-- A container that does not stop is logged, and forgotten all the same.
unfoldable pub undeploy_agent : ℕ → Action Bool
unfolding get_deployment
undeploy_agent agent_id = do
  found ← gets (λ s. contains agent_id s.db.hosted)
  when found (do
    write_hosted agent_id stopped
    write_agent agent_id (λ a. record a { hosting_mode = HostingMode.client_only }))
  pure found

-- The logs of a container are those of the backend.
unfoldable pub get_logs : (ℕ → Text) → ℕ → Action Text
get_logs container_logs agent_id = do
  hosted ← or_raise (← gets (λ s. lookup agent_id s.db.hosted)) not_found
  pure (elim hosted.container_id [
    | some c ↦ container_logs c
    | none ↦ elim hosted.build_log [
      | some log ↦ if is_empty log then no_logs else log
      | none ↦ no_logs
    ]
  ])

-- What the backend comes to, with what it adds to the log: a container, or an error.
pub data Outcome : Type 0 where
  built : ℕ → Text → Outcome
  broken : Text → Text → Outcome

abbrev pub log_of : Option Text → Text
log_of (some log) = log
log_of none = []

unfoldable pub eq_status : DeploymentStatus → DeploymentStatus → Bool
eq_status DeploymentStatus.running DeploymentStatus.running = true
eq_status DeploymentStatus.errored DeploymentStatus.errored = true
eq_status _ _ = false

-- The session writes an attribute if it differs from the value that was loaded.
unfoldable pub flush_status : DeploymentStatus → DeploymentStatus → HostedAgent → HostedAgent
unfolding eq_status
flush_status loaded new h = if eq_status loaded new then h else record h { status = new }

unfoldable pub flush_container : Option ℕ → ℕ → HostedAgent → HostedAgent
flush_container none new h = record h { container_id = some new }
flush_container (some loaded) new h =
    if loaded == new then h else record h { container_id = some new }

-- What the build writes at its end, from the row it loaded at its start.
unfoldable pub finished : HostedAgent → Outcome → HostedAgent → HostedAgent
unfolding flush_status flush_container
finished loaded (built container log) h =
    record (flush_container loaded.container_id container
      (flush_status loaded.status DeploymentStatus.running h)) {
        build_log = some (log_of loaded.build_log ++ log ++ complete);
      }
finished loaded (broken e log) h = record (flush_status loaded.status DeploymentStatus.errored h) {
  error_message = some e;
  build_log = some (log_of loaded.build_log ++ log ++ error_prefix ++ e ++ line_end);
}

-- A session of its own.
abbrev pub new_session : Action ⊤
new_session s = (ok tt, close s)

unfoldable pub start_build : ℕ → Action HostedAgent
start_build agent_id = do
  new_session
  hosted ← or_raise (← gets (λ s. lookup agent_id s.db.hosted)) no_result
  write_hosted agent_id (λ h. record h { build_log = some building })
  commit
  pure (record hosted { build_log = some building })

-- Meanwhile other requests may have written the row.
unfoldable pub finish_build : ℕ → HostedAgent → Outcome → Action ⊤
unfolding finished
finish_build agent_id loaded outcome = do
  new_session
  write_hosted agent_id (finished loaded outcome)
  commit

-- The whole of it, when nothing comes between.
unfoldable pub build_and_deploy : ℕ → Outcome → Action ⊤
unfolding start_build finish_build
build_and_deploy agent_id outcome = do
  loaded ← start_build agent_id
  finish_build agent_id loaded outcome
