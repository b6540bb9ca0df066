-- ===== src/Tests/Hosts.antt =====
-- Examples of the results on hosted agents, the gateway and the endpoints of agents.
use agent_repository.Common.{
  ℕ, ◌==◌, ◌≡◌, refl, true, none, some, List, [], ◌∷◌, Option, lookup, map_some, pos, length, ltb,
}
use agent_repository.Common.Text.{eq_text, is_empty}
use agent_repository.Yaml.{Yaml, number, text, sequence, mapping, nil, item, end, entry}
use agent_repository.Models.{
  Db, HostedAgent, DeploymentStatus, Delivery, EventType, TaskState, WebhookStatus,
}
use agent_repository.Session.{Session, ok, err, type_error}
use agent_repository.Tests.{session, agent, opened, env}
use agent_repository.Secrets.{Fernet, get_all_decrypted}
use agent_repository.Sandbox.{python_313}
use agent_repository.Pages.{where_rows, drop}
use agent_repository.Auth.{Outside}
use agent_repository.Hosting.Words.{
  key_name, key_skills, key_id, key_description, default_cpu, default_price, default_entrypoint,
  arcoa_yaml,
}
use agent_repository.Hosting.Manifest.{Python, AgentManifest}
use agent_repository.Hosting.Valid.{IsValid}
use agent_repository.Hosting.Archive.{Archive, document}
use agent_repository.Hosting.Deploy.{new_hosted, built, start_build, finish_build}
use agent_repository.Hosting.Endpoints.{create_deployment}
use agent_repository.Hosting.Accepted.{Referred, IsDeployed, create_deployment-IsDeployed}
use agent_repository.Hosting.Serve.{
  Host, HostingTurn, is_building, serve_hosting, deploy, undeploy, set,
}
use agent_repository.Hosting.Isolated.{SameFor}
use agent_repository.Hosting.Isolated.Turns.{serve_hosting-isolated}
use agent_repository.Hosting.Contained.{AllContained}
use agent_repository.Hosting.Contained.Histories.{
  HostingEvent, request, build, wake, idle, run_events, run_events-AllContained,
}
use agent_repository.Hosting.Races.{Revived, log_started, undeployed_meanwhile, finish_build-race}
use agent_repository.Hosting.Scaler.{idle_pass}
use agent_repository.Hosting.Idle.{settled, idle_pass-settled}
use agent_repository.Jobs.{is_active}
use agent_repository.Gateway.{
  Frame, object, waits_for, authenticate, flush_pending_webhooks, ws_agent, pong, closed, Verify,
}
use agent_repository.Gateway.Flushed.{flush_pending_webhooks-waiting}
use agent_repository.Gateway.Opened.{IsPresent, ws_agent-IsPresent}
use agent_repository.Agents.Schema.{Net, v4, dotted, https, validate_endpoint_url}
use agent_repository.Agents.Public.{is_private, validate_endpoint_url-public}
use agent_repository.Session.{invalid_input}

abbrev python : Python
python = record {
  str = λ v. elim v [ text t ↦ t | _ ↦ [] ];
  int = λ v. elim v [ number n ↦ ok n | _ ↦ err type_error ];
}

abbrev fernet : Fernet
fernet = record { encrypt = λ t. t; decrypt = λ t. some t }

abbrev host : Host
host = record { python = python; fernet = fernet; container_logs = λ c. [] }

-- name: id, and one skill with its id and its description.
abbrev document_of_skill : Yaml
document_of_skill = mapping (
    entry (text key_name) (text key_id) (
      entry (text key_skills)
        (sequence (
          item
            (mapping (
              entry (text key_id) (text key_id) (entry (text key_description) (text key_name) end)))
            nil))
        end))

abbrev manifest : AgentManifest
manifest = record {
  name = key_id;
  runtime = python_313;
  skills = record { id = key_id; description = text key_name; base_price = default_price } ∷ [];
  requirements = [];
  env = [];
  cpu = default_cpu;
  memory_mb = pos 512;
  entrypoint = default_entrypoint;
}

abbrev archive : Archive
archive = record {
  size = 900;
  sha256 = 5;
  members = some (record { name = arcoa_yaml; content = document document_of_skill } ∷ []);
}

abbrev row : HostedAgent
row = new_hosted 0 document_of_skill manifest 5 none

abbrev own : Option ℕ
own = some 1

create_deployment-IsDeployed_example :
    (own ≡ some 1)
    × IsValid manifest
    × Referred (get_all_decrypted fernet 1 (session opened)).0 []
    × IsDeployed 1 manifest row
        (create_deployment python fernet own 1 archive none (session opened)).1.committed
unfolding create_deployment eq_text is_empty lookup
create_deployment-IsDeployed_example =
    create_deployment-IsDeployed python fernet own 1 archive none (session opened) row manifest refl

-- Agent 1 deploys, stores a secret, asks for the deployment of agent 2, and its build is over.
abbrev turns : List HostingTurn
turns =
    HostingTurn.request (some 1) 1 (deploy archive none)
    ∷ HostingTurn.request (some 1) 1 (set key_id key_name)
    ∷ HostingTurn.request (some 2) 1 undeploy
    ∷ HostingTurn.build 1 (built 7 [])
    ∷ []

serve_hosting-isolated_example :
    SameFor 2 opened (serve_hosting host turns (session opened)).committed
unfolding is_building
serve_hosting-isolated_example =
    serve_hosting-isolated host 2 turns (session opened) (refl, (refl, (refl, tt))) refl

abbrev events : List HostingEvent
events =
    request (some 1) 1 (deploy archive none)
    ∷ build 1 (built 7 [])
    ∷ idle (λ k. true)
    ∷ wake 1
    ∷ request (some 1) 1 undeploy
    ∷ []

run_events-AllContained_example : AllContained (run_events host events (session opened)).committed
unfolding lookup
run_events-AllContained_example = run_events-AllContained host events (session opened) (λ k. tt)

-- Agent 1 is being deployed.
abbrev hosting : HostedAgent → Db
hosting h = record opened { hosted = (1, h) ∷ [] }

finish_build-race_example :
    ((start_build 1 (session (hosting row))).0 ≡ ok (log_started row))
    × Revived 1 none 7
        (finish_build 1
          (log_started row)
          (built 7 [])
          (undeployed_meanwhile 1 (session (hosting row)))).1.committed
unfolding lookup new_hosted
finish_build-race_example =
    finish_build-race 1 (session (hosting row)) row (agent (pos 1000)) 7 [] refl refl refl

abbrev running : HostedAgent
running = record row { status = DeploymentStatus.running; container_id = some 7 }

abbrev later : Session
later = record (session (hosting running)) { env = record env { now = 301 } }

idle_pass-settled_example :
    lookup 1 (idle_pass (λ k. true) later).1.committed.hosted
    ≡ map_some (settled (λ k. true) 301 1) (lookup 1 (hosting running).hosted)
unfolding lookup
idle_pass-settled_example = idle_pass-settled (λ k. true) later 1 (refl, tt)

abbrev waiting : ℕ → Delivery
waiting agent_id = record {
  target_agent_id = agent_id;
  event_type = EventType.job_proposed;
  job_id = 7;
  state = TaskState.submitted;
  status = WebhookStatus.pending;
  attempts = 0;
}

abbrev notified : Db
notified = record opened { deliveries = waiting 1 ∷ waiting 2 ∷ waiting 1 ∷ [] }

abbrev flushed : Session
flushed = (flush_pending_webhooks 1 1 (session notified)).1

flush_pending_webhooks-waiting_example :
    (where_rows (waits_for 1) flushed.db.deliveries
      ≡ drop 1 (where_rows (waits_for 1) notified.deliveries))
    × (where_rows (λ d. d.target_agent_id == 2) flushed.db.deliveries
        ≡ where_rows (λ d. d.target_agent_id == 2) notified.deliveries)
    × (length flushed.db.deliveries ≡ 3)
    × (ltb 0 (length (where_rows (waits_for 1) notified.deliveries)) ≡ true
        → flushed.committed ≡ flushed.db)
flush_pending_webhooks-waiting_example =
    flush_pending_webhooks-waiting 1 2 1 (session notified) refl

abbrev outside : Outside
outside = record {
  parse_uuid = λ t. some 1;
  parse_time = λ t. some (record { has_zone = true; seconds = 0 });
  verify_signature = λ k signature timestamp method path body. true;
}

abbrev verify : Verify
verify = λ k signature timestamp. true

abbrev hello : Frame
hello = object (record {
  is_auth = true;
  agent_id = some key_id;
  timestamp = some key_id;
  signature = some key_id;
  nonce = [];
})

ws_agent-IsPresent_example :
    IsPresent 1 (3 == 0) (ws_agent outside verify 0 hello 3 (pong ∷ closed ∷ []) (session opened)).1
unfolding authenticate is_empty lookup is_active
ws_agent-IsPresent_example =
    ws_agent-IsPresent outside verify 0 hello 3 (pong ∷ closed ∷ []) (session opened)
      (session opened) 1 (agent (pos 1000)) refl refl

-- https://10.1.2.3, where every host is this address.
abbrev net : Net
net = record {
  urlparse = λ url. some (record { scheme = https; hostname = url });
  ip_address = λ hostname. some (v4 (dotted 10 1 2 3));
}

validate_endpoint_url-public_example : validate_endpoint_url net key_id ≡ err invalid_input
unfolding eq_text is_empty is_private
validate_endpoint_url-public_example =
    validate_endpoint_url-public net key_id (record { scheme = https; hostname = key_id }) 10 1 2 3
      refl refl refl
