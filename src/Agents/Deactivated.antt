-- ===== src/Agents/Deactivated.antt =====
-- Deactivation of an agent closes its jobs in step with their escrows.
use agent_repository.Common.{
  sym, subst, ℕ, ◌≡◌, refl, ◌∙◌, ap, true, false, inl, inr, Option-cases, Bool-cases, Option, none,
  some, List, [], ◌∷◌, Dict, lookup, contains, adjust, lookup-adjust, arith,
}
use agent_repository.Models.{Db, Job, JobStatus, Escrow, EscrowStatus}
use agent_repository.Session.{⊤, ◌>>◌, Action, Session, Result, ok, err}
use agent_repository.Linked.{IsLinked, Holds}
use agent_repository.Escrow.{refund_escrow, set_job_status, set_escrow_status, credit}
use agent_repository.Escrow.Specs.{RefundsAs, Commits, refund_escrow-RefundsAs, repaid}
use agent_repository.Escrow.Money.{contains-adjust}
use agent_repository.Api.{is_abortable}
use agent_repository.Agents.{is_cancelable, close_job, close_jobs, deactivate_agent, active_jobs}

-- Every job's client is an agent (the foreign key of app/models/job.py).
abbrev pub HasClients : Db → Type 0
HasClients d =
    (k : ℕ) (job : Job) → lookup k d.jobs ≡ some job → contains job.client_agent_id d.agents ≡ true

abbrev pub IsSound : Db → Type 0
IsSound d = IsLinked d × HasClients d

-- A refund of a funded escrow whose job and client are there succeeds.
refund_escrow-ok :
    (job_id : ℕ) (s : Session) (job : Job) (e : Escrow)
    → lookup job_id s.db.jobs ≡ some job
    → lookup job_id s.db.escrows ≡ some e
    → e.status ≡ EscrowStatus.funded
    → contains e.client_agent_id s.db.agents ≡ true
    → (refund_escrow job_id s).0 ≡ ok tt
unfolding refund_escrow
refund_escrow-ok job_id s job e found held live there = ground arith

contains-repaid : (k : ℕ) (d : Db) (e : Escrow) → contains k (repaid d e) ≡ contains k d.agents
contains-repaid k d e = ground (
  arith,
  contains-adjust k e.client_agent_id (credit e.amount) d.agents,
  contains-adjust k e.seller_agent_id (credit e.seller_bond_amount)
      (adjust e.client_agent_id (credit e.amount) d.agents),
)

-- A job that may be aborted has a funded escrow of its own client.
abortable-funded :
    (job : Job) (job_id : ℕ) (d : Db)
    → IsLinked d
    → lookup job_id d.jobs ≡ some job
    → is_abortable job.status ≡ true
    → (e : Escrow) × (lookup job_id d.escrows ≡ some e) × Holds job e
unfolding is_abortable
abortable-funded job job_id d links found live = elim (Option-cases (lookup job_id d.escrows)) [
  | inl absent ↦ absurd (ground (arith, links job_id))
  | inr (e, held) ↦ (e, held, ground (arith, links job_id))
]

abbrev marked : ℕ → JobStatus → Db → Db
marked k status d = record d { jobs = adjust k (set_job_status status) d.jobs }

-- A status written to a job leaves its client.
client-marked :
    (i k : ℕ) (status : JobStatus) (jobs : Dict Job) (j : Job)
    → lookup i (adjust k (set_job_status status) jobs) ≡ some j
    → (a : Job) × (lookup i jobs ≡ some a) × (a.client_agent_id ≡ j.client_agent_id)
client-marked i k status jobs j at = elim (Option-cases (lookup i jobs)) [
  | inl absent ↦ absurd (ground (arith, lookup-adjust i k (set_job_status status) jobs))
  | inr (a, found) ↦ (a, found, ground (arith, lookup-adjust i k (set_job_status status) jobs))
]

cancelled-IsSound :
    (k : ℕ) (d : Db) (job : Job)
    → IsSound d
    → lookup k d.jobs ≡ some job
    → is_cancelable job.status ≡ true
    → IsSound (marked k JobStatus.cancelled d)
unfolding is_cancelable
cancelled-IsSound k d job sound found live = (
  λ i. ground (arith, sound.0 i, lookup-adjust i k (set_job_status JobStatus.cancelled) d.jobs),
  λ i j at.
      let (a, before, same) = client-marked i k JobStatus.cancelled d.jobs j at in
      ground (arith, sound.1 i a before),
)

refunded-IsSound :
    (k : ℕ) (d u : Db) (job : Job) (e : Escrow)
    → IsSound d
    → lookup k d.jobs ≡ some job
    → lookup k d.escrows ≡ some e
    → is_abortable job.status ≡ true
    → RefundsAs (marked k JobStatus.failed d) k e u
    → IsSound u
unfolding is_abortable
refunded-IsSound k d u job e sound found held live f = (
  λ i. ground (
    arith,
    sound.0 i,
    lookup-adjust i k (set_job_status JobStatus.failed) d.jobs,
    lookup-adjust i k (set_job_status JobStatus.failed)
        (adjust k (set_job_status JobStatus.failed) d.jobs),
    lookup-adjust i k (set_escrow_status EscrowStatus.refunded) d.escrows,
  ),
  λ i j at.
      let (b, mid, same) =
        client-marked i k JobStatus.failed (adjust k (set_job_status JobStatus.failed) d.jobs) j
          (ap (lookup i) (sym (f.1)) ∙ at) in
      let (a, before, was) = client-marked i k JobStatus.failed d.jobs b mid in
      ground (
        arith,
        sound.1 i a before,
        contains-repaid j.client_agent_id (marked k JobStatus.failed d) e,
      ),
)

Commits-ok :
    (s : Session) (P : Db → Type 0) (p : Result ⊤ × Session)
    → p.0 ≡ ok tt
    → Commits s P p
    → P p.1.db
Commits-ok s P (ok _, t) success h = h.2
Commits-ok s P (err e, t) failure h = absurd (ground arith)

marking_keeps :
    (k : ℕ) (status : JobStatus) (jobs : Dict Job) (job : Job)
    → lookup k jobs ≡ some job
    → lookup k (adjust k (set_job_status status) jobs) ≡ some (set_job_status status job)
marking_keeps k status jobs job found =
    ground (arith, lookup-adjust k k (set_job_status status) jobs)

-- A session whose job `k` has the status, before the escrow is refunded.
abbrev mark : ℕ → JobStatus → Session → Session
mark k status s = record s { db = marked k status s.db }

close-idle :
    (k : ℕ) (s : Session) (job : Job)
    → is_cancelable job.status ≡ false
    → is_abortable job.status ≡ false
    → close_job k (some job) s ≡ (ok tt, s)
unfolding close_job
close-idle k s job c a = ground arith

close-cancel :
    (k : ℕ) (s : Session) (job : Job)
    → is_cancelable job.status ≡ true
    → close_job k (some job) s ≡ (ok tt, mark k JobStatus.cancelled s)
unfolding close_job
close-cancel k s job c = ground arith

close-refund :
    (k : ℕ) (s : Session) (job : Job)
    → is_cancelable job.status ≡ false
    → is_abortable job.status ≡ true
    → close_job k (some job) s ≡ (ok tt, (refund_escrow k (mark k JobStatus.failed s)).1)
unfolding close_job
close-refund k s job c a = ground arith

-- The outcome of closing one job or several.
abbrev Sound : Result ⊤ × Session → Type 0
Sound p = (p.0 ≡ ok tt) × IsSound p.1.db

refund-Sound :
    (k : ℕ) (s : Session) (job : Job)
    → IsSound s.db
    → lookup k s.db.jobs ≡ some job
    → is_abortable job.status ≡ true
    → IsSound (refund_escrow k (mark k JobStatus.failed s)).1.db
refund-Sound k s job sound found live =
    let (e, held, holds) = abortable-funded job k s.db sound.0 found live in
    let t = mark k JobStatus.failed s in
    let marked_job = marking_keeps k JobStatus.failed s.db.jobs job found in
    let job_failed = set_job_status JobStatus.failed job in
    let there : contains e.client_agent_id s.db.agents ≡ true =
      ground (arith, sound.1 k job found) in
    refunded-IsSound k s.db (refund_escrow k t).1.db job e sound found held live (
      Commits-ok t (RefundsAs t.db k e) (refund_escrow k t)
        (refund_escrow-ok k t job_failed e marked_job held holds.0 there)
        (refund_escrow-RefundsAs k t job_failed e marked_job held))

close_job-Sound :
    (k : ℕ) (s : Session) (o : Option Job)
    → IsSound s.db
    → lookup k s.db.jobs ≡ o
    → Sound (close_job k o s)
unfolding close_job
close_job-Sound k s none sound found = (refl, sound)
close_job-Sound k s (some job) sound found = elim (Bool-cases (is_cancelable job.status)) [
  | inl hit ↦
      subst Sound (sym (close-cancel k s job hit))
        (refl, cancelled-IsSound k s.db job sound found hit)
  | inr miss ↦ elim (Bool-cases (is_abortable job.status)) [
    | inl live ↦
        subst Sound (sym (close-refund k s job miss live))
          (refl, refund-Sound k s job sound found live)
    | inr idle ↦ subst Sound (sym (close-idle k s job miss idle)) (refl, sound)
  ]
]

after-ok :
    (m : Result ⊤ × Session) (n : Action ⊤)
    → Sound m
    → ((t : Session) → IsSound t.db → Sound (n t))
    → Sound (((λ s. m) >> n) m.1)
after-ok (ok tt, t) n sound then_n = then_n t sound.1
after-ok (err e, t) n sound then_n = absurd (ground (arith, sound.0))

close_jobs-Sound : (ks : List ℕ) (s : Session) → IsSound s.db → Sound (close_jobs ks s)
unfolding close_jobs
close_jobs-Sound [] s sound = (refl, sound)
close_jobs-Sound (k ∷ ks) s sound =
    after-ok (close_job k (lookup k s.db.jobs) s) (close_jobs ks)
      (close_job-Sound k s (lookup k s.db.jobs) sound refl) (close_jobs-Sound ks)

-- From tables in which each job is in step with its escrow and each job's client exists, the
-- deactivation of an agent that exists succeeds and commits tables in which each job is in step
-- with its escrow: no funded escrow is left behind with a failed job.
pub deactivate_agent-IsLinked :
    (agent_id : ℕ) (s : Session)
    → HasClients s.db
    → IsLinked s.db
    → contains agent_id s.db.agents ≡ true
    → ((deactivate_agent agent_id s).0 ≡ ok tt) × IsLinked (deactivate_agent agent_id s).1.committed
unfolding deactivate_agent
deactivate_agent-IsLinked agent_id s clients links known =
    let closed = close_jobs-Sound (active_jobs agent_id s.db.jobs) s (links, clients) in
    ground (arith, closed.0, closed.1.0)
