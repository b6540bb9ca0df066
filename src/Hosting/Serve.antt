-- ===== src/Hosting/Serve.antt =====
-- The endpoints of app/routers/hosting.py as one handler, and requests in turn.
use agent_repository.Common.{ℕ, ◌==◌, ◌||◌, Bool, false, Option, List, [], ◌∷◌, if◌then◌else◌}
use agent_repository.Common.Text.{Text}
use agent_repository.Session.{
  ◌>>◌, ◌>>=◌, ⊤, Session, Action, pure, close, gets, modify_redis, when,
}
use agent_repository.Hosting.Deploy.{Outcome, build_and_deploy}
use agent_repository.Secrets.{Fernet}
use agent_repository.Hosting.Manifest.{Python}
use agent_repository.Hosting.Archive.{Archive}
use agent_repository.Hosting.Endpoints.{
  create_deployment, get_deploy_status, delete_deployment, get_deploy_logs, create_secret,
  list_agent_secrets, delete_agent_secret,
}

-- A request to the endpoints of a hosted agent.
pub data HostingRequest : Type 0 where
  deploy : Archive → Option Text → HostingRequest
  status undeploy logs secrets : HostingRequest
  set : Text → Text → HostingRequest
  remove : Text → HostingRequest

-- What the requests are served with: Python, the encryption, and the logs of a container.
pub record Host : Type 0 where
  pub python : Python
  pub fernet : Fernet
  pub container_logs : ℕ → Text

unfoldable pub handle_hosting : Host → Option ℕ → ℕ → HostingRequest → Action ⊤
unfolding create_deployment get_deploy_status delete_deployment get_deploy_logs create_secret
    list_agent_secrets delete_agent_secret
handle_hosting host agent_id caller (deploy archive region) = do
  create_deployment host.python host.fernet agent_id caller archive region
  pure tt
handle_hosting host agent_id caller status = do get_deploy_status agent_id caller; pure tt
handle_hosting host agent_id caller undeploy = delete_deployment agent_id caller
handle_hosting host agent_id caller logs = do
  get_deploy_logs host.container_logs agent_id caller
  pure tt
handle_hosting host agent_id caller secrets = do list_agent_secrets agent_id caller; pure tt
handle_hosting host agent_id caller (set key value) =
    create_secret host.fernet agent_id caller key value
handle_hosting host agent_id caller (remove key) = delete_agent_secret agent_id caller key

unfoldable pub is_building : ℕ → List ℕ → Bool
is_building k [] = false
is_building k (j ∷ ks) = k == j || is_building k ks

unfoldable pub remove_first : ℕ → List ℕ → List ℕ
remove_first k [] = []
remove_first k (j ∷ ks) = let rest = remove_first k ks in if k == j then ks else j ∷ rest

-- A build that a deployment has started runs to its end.
unfoldable pub run_build : ℕ → Outcome → Action ⊤
unfolding is_building remove_first build_and_deploy
run_build agent_id outcome = do
  started ← gets (λ s. is_building agent_id s.redis.builds)
  when started (do
    modify_redis (λ r. record r { builds = remove_first agent_id r.builds })
    build_and_deploy agent_id outcome)

-- A turn of the hosting service: a request with the id in its path and its caller, or a build.
pub data HostingTurn : Type 0 where
  request : Option ℕ → ℕ → HostingRequest → HostingTurn
  build : ℕ → Outcome → HostingTurn

unfoldable pub take_turn : Host → HostingTurn → Action ⊤
unfolding handle_hosting run_build
take_turn host (request agent_id caller r) = handle_hosting host agent_id caller r
take_turn host (build agent_id outcome) = run_build agent_id outcome

-- Turns in order, each in a session of its own.
unfoldable pub serve_hosting : Host → List HostingTurn → Session → Session
unfolding take_turn
serve_hosting host [] s = s
serve_hosting host (turn ∷ turns) s = serve_hosting host turns (take_turn host turn (close s)).1
