-- ===== src/Webhooks/Quiet.antt =====
-- A notification leaves the jobs, the escrows and the agents alone, and commits what was pending.
use agent_repository.Common.{
  ℕ, ◌≡◌, refl, Bool, true, false, Option, none, some, lookup, arith, inl, inr, ◌⊎◌, ◌∙◌,
}
use agent_repository.Models.{Db, Job, EventType, HostedAgent, DeploymentStatus}
use agent_repository.Session.{⊤, Session, Action, Result, ok, err, pure, when, ◌>>=◌, ◌>>◌}
use agent_repository.Webhooks.{
  enqueue_webhook, notify_parties, notify_job_event, start_container, wake_status, wake_row,
  wake_agent, send_event, record_delivery,
}

-- Same jobs, escrows and agents.
abbrev pub SameBooks : Db → Db → Type 0
SameBooks d u = (u.jobs ≡ d.jobs) × (u.escrows ≡ d.escrows) × (u.agents ≡ d.agents)

abbrev Enqueues : Session → Result ⊤ × Session → Type 0
Enqueues s (ok _, t) = (t.env ≡ s.env) × SameBooks s.db t.db × (t.committed ≡ t.db)
Enqueues s (err e, t) = ⊥

-- Waking an agent and sending to its socket.
abbrev Leaves : {A : Type 0} → Session → Result A × Session → Type 0
Leaves s (ok _, t) = (t.env ≡ s.env) × SameBooks s.db t.db
Leaves s (err e, t) = ⊥

start_container-Leaves : (agent_id : ℕ) (s : Session) → Leaves s (start_container agent_id s)
unfolding start_container
start_container-Leaves agent_id s = ground arith

wake_status-Leaves :
    (agent_id : ℕ) (st : DeploymentStatus) (s : Session) → Leaves s (wake_status agent_id st s)
unfolding wake_status
wake_status-Leaves agent_id DeploymentStatus.sleeping s = start_container-Leaves agent_id s
wake_status-Leaves agent_id DeploymentStatus.running s = (refl, (refl, refl, refl))
wake_status-Leaves agent_id _ s = (refl, (refl, refl, refl))

wake_row-Leaves :
    (agent_id : ℕ) (o : Option HostedAgent) (s : Session) → Leaves s (wake_row agent_id o s)
unfolding wake_row
wake_row-Leaves agent_id none s = (refl, (refl, refl, refl))
wake_row-Leaves agent_id (some h) s = wake_status-Leaves agent_id h.status s

send_event-Leaves : (agent_id : ℕ) (s : Session) → Leaves s (send_event agent_id s)
unfolding send_event
send_event-Leaves agent_id s = ground arith

bind-Leaves :
    {A : Type 0} (s : Session) (p : Result A × Session) (f : A → Action ⊤)
    → Leaves s p
    → ((a : A) (t : Session) → Enqueues t (f a t))
    → Enqueues s (elim p.0 [ ok a ↦ f a p.1 | err e ↦ (err e, p.1) ])
bind-Leaves s (ok a, t) f h k = chain s t (f a t) h (k a t)
  where
    chain :
        (s t : Session) (q : Result ⊤ × Session)
        → (t.env ≡ s.env) × SameBooks s.db t.db
        → Enqueues t q
        → Enqueues s q
    chain s t (ok _, u) h k = (k.0 ∙ h.0, (k.1.0 ∙ h.1.0, k.1.1 ∙ h.1.1, k.1.2 ∙ h.1.2), k.2)
    chain s t (err e, u) h k = k
bind-Leaves s (err e, t) f h k = absurd h

wake_if :
    (c : Bool) (agent_id : ℕ) (s : Session) → Leaves s (when c (do wake_agent agent_id; pure tt) s)
unfolding wake_agent
wake_if false agent_id s = (refl, (refl, refl, refl))
wake_if true agent_id s = ground (arith, wake_row-Leaves agent_id (lookup agent_id s.db.hosted) s)

record_delivery-Enqueues :
    (agent_id : ℕ) (event : EventType) (job_id : ℕ) (sent : Bool) (s : Session)
    → Enqueues s (record_delivery agent_id event job_id sent s)
unfolding record_delivery
record_delivery-Enqueues agent_id event job_id sent s = (refl, (refl, refl, refl), refl)

enqueue_webhook-Enqueues :
    (agent_id : ℕ) (event : EventType) (job_id : ℕ) (s : Session)
    → Enqueues s (enqueue_webhook agent_id event job_id s)
unfolding enqueue_webhook
enqueue_webhook-Enqueues agent_id event job_id s =
    bind-Leaves s _ (λ _. send_event agent_id >>= record_delivery agent_id event job_id)
      (wake_if _ agent_id s)
      λ _ t.
        bind-Leaves t _ (record_delivery agent_id event job_id) (send_event-Leaves agent_id t)
          λ sent u. record_delivery-Enqueues agent_id event job_id sent u

-- A notification of a job's parties succeeds, and writes to no table that holds jobs or money.
abbrev pub Notifies : Session → Result ⊤ × Session → Type 0
Notifies s (ok _, t) = (t.env ≡ s.env) × SameBooks s.db t.db × ((t.committed ≡ t.db) ⊎ (t ≡ s))
Notifies s (err e, t) = ⊥

two_sent :
    (s : Session) (p : Result ⊤ × Session) (m : Action ⊤)
    → Enqueues s p
    → ((t : Session) → Enqueues t (m t))
    → Notifies s (elim p.0 [ ok a ↦ m p.1 | err e ↦ (err e, p.1) ])
two_sent s (ok a, t) m h k = chain (m t) (k t)
  where
    chain : (q : Result ⊤ × Session) → Enqueues t q → Notifies s q
    chain (ok _, u) g = (g.0 ∙ h.0, (g.1.0 ∙ h.1.0, g.1.1 ∙ h.1.1, g.1.2 ∙ h.1.2), inl g.2)
    chain (err e, u) g = g
two_sent s (err e, t) m h k = absurd h

notify_parties-Notifies :
    (o : Option Job) (event : EventType) (job_id : ℕ) (s : Session)
    → Notifies s (notify_parties o event job_id s)
unfolding notify_parties
notify_parties-Notifies none event job_id s = (refl, (refl, refl, refl), inr refl)
notify_parties-Notifies (some job) event job_id s =
    two_sent s (enqueue_webhook job.client_agent_id event job_id s)
      (enqueue_webhook job.seller_agent_id event job_id)
      (enqueue_webhook-Enqueues job.client_agent_id event job_id s)
      (enqueue_webhook-Enqueues job.seller_agent_id event job_id)

-- A notification does not raise, leaves the environment, the jobs, the escrows and the agents as
-- they are, and either commits all that was pending or leaves what is committed.
pub notify_job_event-Notifies :
    (job_id : ℕ) (event : EventType) (s : Session) → Notifies s (notify_job_event job_id event s)
unfolding notify_job_event
notify_job_event-Notifies job_id event s =
    notify_parties-Notifies (lookup job_id s.db.jobs) event job_id s
