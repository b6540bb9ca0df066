-- ===== src/Hosting/Contained.antt =====
-- A hosted agent that runs, sleeps or is woken has a container.
pub mod Wakes
pub mod Builds
pub mod Histories
use agent_repository.Common.{
  ℕ, ◌==◌, ◌≡◌, refl, Bool, true, false, Option, none, some, lookup, is_some, Dict, lookup-insert,
  lookup-adjust, insert, adjust, map_some, sym, subst, ==_iff, if◌then◌else◌,
}
use agent_repository.Models.{Db, HostedAgent, DeploymentStatus}
use agent_repository.Session.{Session, Action, commit}
use agent_repository.Session.Preserved.{Preserves}
use agent_repository.Webhooks.{write_hosted}
use agent_repository.Yaml.{Yaml}
use agent_repository.Common.Text.{Text}
use agent_repository.Hosting.Manifest.{AgentManifest}
use agent_repository.Hosting.Deploy.{new_hosted, redeployed, deployed, save_deployment, new_session}

abbrev pub HasContainer : HostedAgent → Type 0
HasContainer h = elim h.status [
  | DeploymentStatus.running ↦ is_some h.container_id ≡ true
  | DeploymentStatus.sleeping ↦ is_some h.container_id ≡ true
  | DeploymentStatus.deploying ↦ is_some h.container_id ≡ true
  | _ ↦ Unit
]

abbrev pub RowHas : Option HostedAgent → Type 0
RowHas none = Unit
RowHas (some h) = HasContainer h

abbrev pub AllContained : Db → Type 0
AllContained d = (k : ℕ) → RowHas (lookup k d.hosted)

abbrev pub Sound : Session → Type 0
Sound s = AllContained s.db × AllContained s.committed

abbrev pub Safe : {A : Type 0} → Action A → Type 0
Safe m = Preserves Sound m

map-RowHas :
    (o : Option HostedAgent) (f : HostedAgent → HostedAgent)
    → ((h : HostedAgent) → o ≡ some h → HasContainer h → HasContainer (f h))
    → RowHas o
    → RowHas (map_some f o)
map-RowHas none f k h = h
map-RowHas (some x) f k h = k x refl h

if-RowHas :
    (c : Bool) (o p : Option HostedAgent)
    → (c ≡ true → RowHas o)
    → RowHas p
    → RowHas (if c then o else p)
if-RowHas true o p h k = h refl
if-RowHas false o p h k = k

abbrev pub Contained : Dict HostedAgent → Type 0
Contained d = (k : ℕ) → RowHas (lookup k d)

pub adjust-Contained :
    (d : Dict HostedAgent) (k : ℕ) (f : HostedAgent → HostedAgent)
    → ((h : HostedAgent) → lookup k d ≡ some h → HasContainer h → HasContainer (f h))
    → Contained d
    → Contained (adjust k f d)
adjust-Contained d k f keep all j = subst RowHas (sym (lookup-adjust j k f d)) (
    if-RowHas (j == k) (map_some f (lookup j d)) (lookup j d)
      (λ same.
        map-RowHas (lookup j d) f
          (λ h e. keep h (subst (λ i. lookup i d ≡ some h) ((==_iff j k).0 same) e)) (all j))
      (all j))

insert-Contained :
    (d : Dict HostedAgent) (k : ℕ) (h : HostedAgent)
    → HasContainer h
    → Contained d
    → Contained (insert k h d)
insert-Contained d k h has all j =
    subst RowHas (sym (lookup-insert j k h d))
      (if-RowHas (j == k) (some h) (lookup j d) (λ _. has) (all j))

pub write_hosted-Safe :
    (k : ℕ) (f : HostedAgent → HostedAgent)
    → ((h : HostedAgent) → HasContainer h → HasContainer (f h))
    → Safe (write_hosted k f)
write_hosted-Safe k f keep s (d, c) = (adjust-Contained s.db.hosted k f (λ h _. keep h) d, c)

pub commit-Safe : Safe commit
commit-Safe s i = (i.0, i.0)

pub new_session-Safe : Safe new_session
new_session-Safe s i = (i.1, i.1)

pub save_deployment-Safe : (k : ℕ) (h : HostedAgent) → HasContainer h → Safe (save_deployment k h)
unfolding save_deployment
save_deployment-Safe k h has s (d, c) = (insert-Contained s.db.hosted k h has d, c)

pub deployed-HasContainer :
    (now : ℕ) (data_in : Yaml) (manifest : AgentManifest) (source_hash : ℕ) (region : Option Text)
    (o : Option HostedAgent)
    → HasContainer (deployed now data_in manifest source_hash region o)
unfolding deployed new_hosted redeployed
deployed-HasContainer now data_in manifest source_hash region none = tt
deployed-HasContainer now data_in manifest source_hash region (some h) = tt
