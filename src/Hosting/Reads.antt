-- ===== src/Hosting/Reads.antt =====
-- What only reads the session, at the hosting endpoints.
use agent_repository.Common.{ℕ, ◌≡◌, refl, Option, List, [], ◌∷◌, arith}
use agent_repository.Common.Text.{Text}
use agent_repository.Session.{Session}
use agent_repository.Secrets.{Fernet, get_all_decrypted, list_secrets}
use agent_repository.Hosting.Manifest.{Python}
use agent_repository.Hosting.Archive.{Archive}
use agent_repository.Hosting.Deploy.{check_secrets, accept_upload, get_logs}
use agent_repository.Hosting.Endpoints.{
  check_owner, get_deploy_status, get_deploy_logs, list_agent_secrets,
}

check_secrets-reads :
    (fernet : Fernet) (agent_id : ℕ) (refs : List Text) (s : Session)
    → (check_secrets fernet agent_id refs s).1 ≡ s
unfolding check_secrets get_all_decrypted
check_secrets-reads fernet agent_id [] s = refl
check_secrets-reads fernet agent_id (r ∷ refs) s = ground arith

pub accept_upload-reads :
    (python : Python) (fernet : Fernet) (agent_id : ℕ) (archive : Archive) (s : Session)
    → (accept_upload python fernet agent_id archive s).1 ≡ s
unfolding accept_upload
accept_upload-reads python fernet agent_id archive s = grind (arith, check_secrets-reads)

pub get_deploy_status-reads :
    (agent_id : Option ℕ) (caller : ℕ) (s : Session) → (get_deploy_status agent_id caller s).1 ≡ s
unfolding get_deploy_status check_owner
get_deploy_status-reads agent_id caller s = ground arith

pub get_deploy_logs-reads :
    (container_logs : ℕ → Text) (agent_id : Option ℕ) (caller : ℕ) (s : Session)
    → (get_deploy_logs container_logs agent_id caller s).1 ≡ s
unfolding get_deploy_logs check_owner get_logs
get_deploy_logs-reads container_logs agent_id caller s = ground arith

pub list_agent_secrets-reads :
    (agent_id : Option ℕ) (caller : ℕ) (s : Session) → (list_agent_secrets agent_id caller s).1 ≡ s
unfolding list_agent_secrets check_owner list_secrets
list_agent_secrets-reads agent_id caller s = ground arith
