-- ===== src/Hosting/Endpoints.antt =====
-- app/routers/hosting.py: what an agent may do with its own deployment and its own secrets. The id in
-- the path is `none` when it is no UUID.
use agent_repository.Common.{ℕ, ◌==◌, not, Option, List}
use agent_repository.Common.Text.{Text}
use agent_repository.Models.{HostedAgent, AgentSecret}
use agent_repository.Session.{
  ◌>>=◌, ◌>>◌, ⊤, Action, bad_request, not_a_party, not_found, pure, or_raise, raise_if, commit,
}
use agent_repository.Secrets.{Fernet, set_secret, list_secrets, delete_secret}
use agent_repository.Hosting.Manifest.{Python, AgentManifest}
use agent_repository.Hosting.Archive.{Archive}
use agent_repository.Hosting.Deploy.{deploy_agent, get_deployment, undeploy_agent, get_logs}

unfoldable pub check_owner : Option ℕ → ℕ → Action ℕ
check_owner agent_id caller = do
  target ← or_raise agent_id bad_request
  raise_if (not (target == caller)) not_a_party
  pure target

unfoldable pub create_deployment :
    Python → Fernet → Option ℕ → ℕ → Archive → Option Text → Action (HostedAgent × AgentManifest)
unfolding check_owner deploy_agent
create_deployment python fernet agent_id caller archive region = do
  target ← check_owner agent_id caller
  raise_if (archive.size == 0) bad_request
  hosted ← deploy_agent python fernet target archive region
  commit
  pure hosted

unfoldable pub get_deploy_status : Option ℕ → ℕ → Action HostedAgent
unfolding check_owner get_deployment
get_deploy_status agent_id caller = do
  target ← check_owner agent_id caller
  or_raise (← get_deployment target) not_found

unfoldable pub delete_deployment : Option ℕ → ℕ → Action ⊤
unfolding check_owner undeploy_agent
delete_deployment agent_id caller = do
  target ← check_owner agent_id caller
  success ← undeploy_agent target
  raise_if (not success) not_found
  commit

unfoldable pub get_deploy_logs : (ℕ → Text) → Option ℕ → ℕ → Action Text
unfolding check_owner get_logs
get_deploy_logs container_logs agent_id caller = do
  target ← check_owner agent_id caller
  get_logs container_logs target

unfoldable pub create_secret : Fernet → Option ℕ → ℕ → Text → Text → Action ⊤
unfolding check_owner set_secret
create_secret fernet agent_id caller key value = do
  target ← check_owner agent_id caller
  set_secret fernet target key value
  commit

unfoldable pub list_agent_secrets : Option ℕ → ℕ → Action (List AgentSecret)
unfolding check_owner list_secrets
list_agent_secrets agent_id caller = do target ← check_owner agent_id caller; list_secrets target

unfoldable pub delete_agent_secret : Option ℕ → ℕ → Text → Action ⊤
unfolding check_owner delete_secret
delete_agent_secret agent_id caller key = do
  target ← check_owner agent_id caller
  deleted ← delete_secret target key
  raise_if (not deleted) not_found
  commit
