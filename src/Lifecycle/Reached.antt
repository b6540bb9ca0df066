-- ===== src/Lifecycle/Reached.antt =====
-- Sessions on the way of a request, and rules for the `do` blocks that run in them.
use agent_repository.Common.{
  ℕ, ℤ, ◌≤ℤ◌, ◌≡◌, refl, ◌∙◌, inl, inr, Bool, true, false, Option, none, some, lookup, arith,
  Option-cases,
}
use agent_repository.Models.{Db, Agent, EventType}
use agent_repository.Session.{
  ⊤, Env, Session, Action, Result, Error, ok, err, ◌>>=◌, ◌>>◌, or_raise, raise_if,
}
use agent_repository.Webhooks.{notify_job_event}
use agent_repository.Webhooks.Quiet.{Notifies, notify_job_event-Notifies}
use agent_repository.Fees.{charge_fee}
use agent_repository.Escrow.{debit}
use agent_repository.Escrow.Specs.{Commits}
use agent_repository.Lifecycle.{PaysAs, Step, charge, Steps, same, next}

-- What is written and not committed.
abbrev pub Writes : Session → (Db → Type 0) → Result ⊤ × Session → Type 0
Writes s P (ok _, t) = (t.env ≡ s.env) × (t.committed ≡ s.committed) × P t.db
Writes s P (err e, t) = t.committed ≡ s.committed

abbrev pub ChargesAs : Db → ℕ → ℤ → Agent → Db → Type 0
ChargesAs d agent_id fee a u = (fee ≤ℤ a.balance) × PaysAs d agent_id (debit fee) u

pub charge_fee-ChargesAs :
    (agent_id : ℕ) (fee : ℤ) (s : Session) (a : Agent)
    → lookup agent_id s.db.agents ≡ some a
    → Writes s (ChargesAs s.db agent_id fee a) (charge_fee agent_id fee s)
unfolding charge_fee
charge_fee-ChargesAs agent_id fee s a found = ground arith

module _ (env : Env) (d : Db) where
  -- What the session has committed and what it has written are both reached by steps from `d`.
  pub record Reached (s : Session) : Type 0 where
    pub env_same : s.env ≡ env
    pub committed : Steps env.settings d s.committed
    pub written : Steps env.settings d s.db

  -- An action that raises may have committed something; what it has not is lost.
  abbrev pub Post : Result ⊤ × Session → Type 0
  Post (ok _, t) = Reached t
  Post (err e, t) = Steps env.settings d t.committed

  pub bind-Post :
      (p : Result ⊤ × Session) (f : ⊤ → Action ⊤)
      → Post p
      → ((a : ⊤) (t : Session) → Reached t → Post (f a t))
      → Post (elim p.0 [ ok a ↦ f a p.1 | err e ↦ (err e, p.1) ])
  bind-Post (ok a, t) f h k = k a t h
  bind-Post (err e, t) f h k = h

  pub raise_if-Post :
      (c : Bool) (e : Error) (m : Action ⊤) (s : Session)
      → Reached s
      → (c ≡ false → Post (m s))
      → Post ((raise_if c e >> m) s)
  raise_if-Post true e m s r k = r.committed
  raise_if-Post false e m s r k = k refl

  pub or_raise-Post :
      {A : Type 0} (o : Option A) (e : Error) (f : A → Action ⊤) (s : Session)
      → Reached s
      → ((a : A) → o ≡ some a → Post (f a s))
      → Post ((or_raise o e >>= f) s)
  or_raise-Post none e f s r k = r.committed
  or_raise-Post (some a) e f s r k = k a refl

  -- Steps that an operation commits.
  pub commit-Steps-Post :
      (s : Session) (P : Db → Type 0) (p : Result ⊤ × Session)
      → Reached s
      → Commits s P p
      → ((u : Db) → P u → Steps env.settings d u)
      → Post p
  commit-Steps-Post s P (ok _, t) r h k =
      let moved : Steps env.settings d t.db = k t.db h.2 in
      record { env_same = h.0 ∙ r.env_same; committed = rw h.1 moved; written = moved }
  commit-Steps-Post s P (err e, t) r h k = rw h r.committed

  pub commit-Post :
      (s : Session) (P : Db → Type 0) (p : Result ⊤ × Session)
      → Reached s
      → Commits s P p
      → ((u : Db) → P u → Step env.settings s.db u)
      → Post p
  commit-Post s P p r h k = commit-Steps-Post s P p r h λ u c. next r.written (k u c)

  -- An operation that is refused.
  pub refused-Post :
      (s : Session) (p : Result ⊤ × Session) → Reached s → Commits s (λ u. ⊥) p → Post p
  refused-Post s (ok _, t) r h = absurd h.2
  refused-Post s (err e, t) r h = rw h r.committed

  -- A step that an operation writes and leaves to a later commit.
  pub write-Post :
      (s : Session) (P : Db → Type 0) (p : Result ⊤ × Session)
      → Reached s
      → Writes s P p
      → ((u : Db) → P u → Step env.settings s.db u)
      → Post p
  write-Post s P (ok _, t) r h k = record {
    env_same = h.0 ∙ r.env_same;
    committed = rw h.1 r.committed;
    written = next r.written (k t.db h.2);
  }
  write-Post s P (err e, t) r h k = rw h r.committed

  pub notify-Post :
      (job_id : ℕ) (event : EventType) (s : Session)
      → Reached s
      → Post (notify_job_event job_id event s)
  notify-Post job_id event s r =
      go (notify_job_event job_id event s) (notify_job_event-Notifies job_id event s)
    where
      go : (p : Result ⊤ × Session) → Notifies s p → Post p
      go (ok _, t) (e, b, inl c) =
          let moved : Steps env.settings d t.db = same r.written b in
          record { env_same = e ∙ r.env_same; committed = rw c moved; written = moved }
      go (ok _, t) (e, b, inr c) = rw c r
      go (err e, t) h = absurd h

  pub charge-Post :
      (agent_id : ℕ) (fee : ℤ) (s : Session) → Reached s → Post (charge_fee agent_id fee s)
  charge-Post agent_id fee s r = elim (Option-cases (lookup agent_id s.db.agents)) [
    | inl missing ↦ refused-Post s (charge_fee agent_id fee s) r (unfold charge_fee in ground arith)
    | inr (a, found) ↦
        write-Post s (ChargesAs s.db agent_id fee a) (charge_fee agent_id fee s) r
          (charge_fee-ChargesAs agent_id fee s a found) λ u c. charge agent_id fee a found c.0 c.1
  ]
