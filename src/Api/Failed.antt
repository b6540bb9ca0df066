-- ===== src/Api/Failed.antt =====
-- What a failed verification run costs, and whom.
use agent_repository.Common.{
  ℕ, ℤ, ◌+ℤ◌, ◌-ℤ◌, ◌≤ℤ◌, leb_ℤ, ltb_ℤ, if◌then◌else◌, ◌==◌, ◌≡◌, refl, sym, ◌∙◌, ap, subst, Bool,
  true, false, inl, inr, some, map_some, lookup, lookup-adjust, Dict, adjust, int_laws, arith,
}
use agent_repository.Models.{Db, Agent, Job, JobStatus, job_failed}
use agent_repository.Session.{⊤, Session, Action, Result, ok, err, ScriptRun, ◌>>=◌}
use agent_repository.Session.Preserved.{after}
use agent_repository.Fees.{charge_fee, calculate_verification_fee}
use agent_repository.Escrow.{credit, debit, can_pay, set_job_status}
use agent_repository.Webhooks.{notify_job_event}
use agent_repository.Webhooks.Quiet.{Notifies, notify_job_event-Notifies}
use agent_repository.Api

-- The job is back in progress, the escrows are the same, the client has the balance it had, and
-- the seller has paid the fee if its balance covers that.
abbrev pub CostsSeller : Db → ℕ → ℕ → ℕ → ℤ → Agent → Agent → Db → Type 0
CostsSeller d job_id caller seller fee a b u =
    (u.jobs ≡ adjust job_id (set_job_status JobStatus.in_progress) d.jobs)
    × (u.escrows ≡ d.escrows)
    × (map_some Agent.balance (lookup caller u.agents) ≡ some a.balance)
    × (map_some Agent.balance (lookup seller u.agents)
        ≡ some (if leb_ℤ fee b.balance then b.balance -ℤ fee else b.balance))

balance_back : (x fee : ℤ) → (x -ℤ fee) +ℤ fee ≡ x
balance_back x fee = grind int_laws

-- The session once the fee is charged.
abbrev charged : ℕ → ℤ → Session → Session
charged caller fee s = record s {
  db = record s.db { agents = adjust caller (debit fee) s.db.agents };
}

charge_fee-charged :
    (caller : ℕ) (fee : ℤ) (s : Session) (a : Agent)
    → lookup caller s.db.agents ≡ some a
    → fee ≤ℤ a.balance
    → charge_fee caller fee s ≡ (ok tt, charged caller fee s)
unfolding charge_fee
charge_fee-charged caller fee s a row covered =
    let enough : ltb_ℤ a.balance fee ≡ false = ground arith in rw (row, enough) refl

-- The agents after a failed run.
abbrev settled_agents : ℕ → ℕ → ℤ → Bool → Db → Dict Agent
settled_agents caller seller fee pays d =
    let back = adjust caller (credit fee) d.agents in
    if pays then adjust seller (debit fee) back else back

abbrev settled_db : ℕ → ℕ → ℕ → ℤ → Bool → Db → Db
settled_db job_id caller seller fee pays d = record d {
  agents = settled_agents caller seller fee pays d;
  jobs = adjust job_id (set_job_status JobStatus.in_progress) d.jobs;
}

settle_failed-settled :
    (job_id : ℕ) (job : Job) (caller : ℕ) (fee : ℤ) (t : Session) (a b : Agent) (pays : Bool)
    → lookup caller t.db.agents ≡ some a
    → lookup job.seller_agent_id (adjust caller (credit fee) t.db.agents) ≡ some b
    → can_pay fee (some b) ≡ pays
    → Api.settle_failed job_id job caller fee t ≡ (
      ok tt,
      record t {
        db = settled_db job_id caller job.seller_agent_id fee pays t.db;
        committed = settled_db job_id caller job.seller_agent_id fee pays t.db;
      },
    )
unfolding Api.settle_failed
settle_failed-settled job_id job caller fee t a b true known seller pays =
    rw (known, seller, pays) refl
settle_failed-settled job_id job caller fee t a b false known seller pays =
    rw (known, seller, pays) refl

settled-CostsSeller :
    (d : Db) (job_id caller seller : ℕ) (fee : ℤ) (a b : Agent) (pays : Bool)
    → lookup caller d.agents ≡ some a
    → lookup seller d.agents ≡ some b
    → (caller == seller) ≡ false
    → leb_ℤ fee b.balance ≡ pays
    → CostsSeller d job_id caller seller fee a b (
        settled_db job_id caller seller fee pays
          (record d { agents = adjust caller (debit fee) d.agents }))
settled-CostsSeller d job_id caller seller fee a b true client sells apart pays =
    let paid = adjust caller (debit fee) d.agents in
    let back = adjust caller (credit fee) paid in
    (
      refl,
      refl,
      ground (
        arith,
        lookup-adjust caller seller (debit fee) back,
        lookup-adjust caller caller (credit fee) paid,
        lookup-adjust caller caller (debit fee) d.agents,
        balance_back a.balance fee,
      ),
      ground (
        arith,
        lookup-adjust seller seller (debit fee) back,
        lookup-adjust seller caller (credit fee) paid,
        lookup-adjust seller caller (debit fee) d.agents,
      ),
    )
settled-CostsSeller d job_id caller seller fee a b false client sells apart pays =
    let paid = adjust caller (debit fee) d.agents in
    (
      refl,
      refl,
      ground (
        arith,
        lookup-adjust caller caller (credit fee) paid,
        lookup-adjust caller caller (debit fee) d.agents,
        balance_back a.balance fee,
      ),
      ground (
        arith,
        lookup-adjust seller caller (credit fee) paid,
        lookup-adjust seller caller (debit fee) d.agents,
      ),
    )

-- A notification keeps what is committed of the books.
notified-CostsSeller :
    (d : Db) (job_id caller seller : ℕ) (fee : ℤ) (a b : Agent) (s : Session)
    (p : Result ⊤ × Session)
    → s.committed ≡ s.db
    → Notifies s p
    → CostsSeller d job_id caller seller fee a b s.db
    → (p.0 ≡ ok tt) × CostsSeller d job_id caller seller fee a b p.1.committed
notified-CostsSeller d job_id caller seller fee a b s (ok _, t) even (e, books, inl c) costs =
    (refl, rw c (rw (books.0, books.1, books.2) costs))
notified-CostsSeller d job_id caller seller fee a b s (ok _, t) even (e, books, inr c) costs =
    (refl, rw c (rw even costs))
notified-CostsSeller d job_id caller seller fee a b s (err e, t) even h costs = absurd h

pub verify_by_script-CostsSeller :
    (job_id : ℕ) (job : Job) (caller script : ℕ) (s : Session) (run : ScriptRun) (a b : Agent)
    → s.env.run_script script job.result ≡ some run
    → run.passed ≡ false
    → lookup caller s.db.agents ≡ some a
    → lookup job.seller_agent_id s.db.agents ≡ some b
    → (caller == job.seller_agent_id) ≡ false
    → calculate_verification_fee s.env.settings run.elapsed ≤ℤ a.balance
    → let p = Api.verify_by_script job_id job caller script s in
      (p.0 ≡ ok tt)
      × CostsSeller s.db job_id caller job.seller_agent_id
          (calculate_verification_fee s.env.settings run.elapsed)
          a
          b
          p.1.committed
unfolding Api.verify_by_script Api.verification_failed
verify_by_script-CostsSeller job_id job caller script s run a b ran failed client sells apart
      covered =
    let fee = calculate_verification_fee s.env.settings run.elapsed in
    let pays = leb_ℤ fee b.balance in
    let u = charged caller fee s in
    let e = settled_db job_id caller job.seller_agent_id fee pays u.db in
    let t : Session = record u { db = e; committed = e } in
    let charge_it = charge_fee-charged caller fee s a client covered in
    let client_row : lookup caller u.db.agents ≡ some (debit fee a) =
      ground (arith, client, lookup-adjust caller caller (debit fee) s.db.agents) in
    let seller_row : lookup job.seller_agent_id (adjust caller (credit fee) u.db.agents) ≡ some b =
      ground (
        arith,
        sells,
        apart,
        lookup-adjust job.seller_agent_id caller (credit fee) u.db.agents,
        lookup-adjust job.seller_agent_id caller (debit fee) s.db.agents,
      ) in
    let settle =
      settle_failed-settled job_id job caller fee u (debit fee a) b pays client_row seller_row
        refl in
    let notice : ⊤ → Action ⊤ = λ _. notify_job_event job_id job_failed in
    let rest : ⊤ → Action ⊤ = λ _. Api.settle_failed job_id job caller fee >>= notice in
    let ended : Api.verify_by_script job_id job caller script s
        ≡ notify_job_event job_id job_failed t =
      rw (ran, failed) (ap (λ p. after p rest) charge_it ∙ ap (λ p. after p notice) settle) in
    subst
      (λ p.
        (p.0 ≡ ok tt) × CostsSeller s.db job_id caller job.seller_agent_id fee a b p.1.committed)
      (sym ended)
      (notified-CostsSeller s.db job_id caller job.seller_agent_id fee a b t
        (notify_job_event job_id job_failed t) refl (notify_job_event-Notifies job_id job_failed t)
        (settled-CostsSeller s.db job_id caller job.seller_agent_id fee a b pays client sells apart
          refl))
