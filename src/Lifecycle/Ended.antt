-- ===== src/Lifecycle/Ended.antt =====
-- A job that has ended stays as it is.
use agent_repository.Lifecycle.{
  Steps, Step, KeepsTerms, create, counter, edit, fund, release, abort, refund, charge, give, same,
  next,
}
use agent_repository.Api.Serve.{serve, Request, serve_all, World}
use agent_repository.Common.{
  ℕ, ◌≡◌, refl, ◌∙◌, Bool, true, false, some, List, [], ◌∷◌, arith, lookup, adjust, lookup-insert,
  lookup-adjust,
}
use agent_repository.Models.{Db, JobStatus, EscrowStatus, Escrow, Job}
use agent_repository.Settings.{Settings}
use agent_repository.Escrow.{set_job_status, new_escrow}
use agent_repository.Jobs.{countered, can_counter}
use agent_repository.Linked.{IsLinked}
use agent_repository.Session.{Env}
use agent_repository.Jobs.Specs.{EditsAs}
use agent_repository.Lifecycle.Histories.{serve_refines}
use agent_repository.Lifecycle.Links.{Steps-IsLinked}

abbrev pub is_ended : JobStatus → Bool
is_ended JobStatus.completed = true
is_ended JobStatus.failed = true
is_ended JobStatus.cancelled = true
is_ended _ = false

-- The step leaves the row of a job that has ended, and its escrow, as they are.
abbrev pub Stays : ℕ → Job → Db → Db → Type 0
Stays k job d u = (lookup k u.jobs ≡ some job) × (lookup k u.escrows ≡ lookup k d.escrows)

module _ (k : ℕ) (job : Job) (d u : Db) (found : lookup k d.jobs ≡ some job) where
  -- A write to another job.
  Stays-edit :
      (job_id : ℕ) (f : Job → Job) (i : Job)
      → lookup job_id d.jobs ≡ some i
      → is_ended job.status ≡ true
      → is_ended i.status ≡ false
      → EditsAs d job_id f u
      → Stays k job d u
  Stays-edit job_id f i hit ended live e = ground (arith, lookup-adjust k job_id f d.jobs)

  -- A write to another job and its escrow.
  Stays-settle :
      (job_id : ℕ) (f : Job → Job) (g : Escrow → Escrow) (i : Job)
      → lookup job_id d.jobs ≡ some i
      → is_ended job.status ≡ true
      → is_ended i.status ≡ false
      → u.jobs ≡ adjust job_id f d.jobs
      → u.escrows ≡ adjust job_id g d.escrows
      → Stays k job d u
  Stays-settle job_id f g i hit ended live p q =
      ground (arith, lookup-adjust k job_id f d.jobs, lookup-adjust k job_id g d.escrows)

-- A job whose escrow is funded has not ended.
funded-live :
    (job_id : ℕ) (d : Db) (i : Job) (e : Escrow)
    → IsLinked d
    → lookup job_id d.jobs ≡ some i
    → lookup job_id d.escrows ≡ some e
    → e.status ≡ EscrowStatus.funded
    → is_ended i.status ≡ false
funded-live job_id d i e links found held h = ground (arith, links job_id)

edit-live : (j i : Job) → KeepsTerms j i → is_ended j.status ≡ false
edit-live j i h = ground arith

counter-live : (j : Job) → can_counter j.status ≡ true → is_ended j.status ≡ false
unfolding can_counter
counter-live j h = ground arith

pub Step-Stays :
    (cfg : Settings) (k : ℕ) (job : Job) (d u : Db)
    → Step cfg d u
    → IsLinked d
    → lookup k d.jobs ≡ some job
    → is_ended job.status ≡ true
    → Stays k job d u
Step-Stays cfg k job d u (create job_id j c) links found ended =
    ground (arith, lookup-insert k job_id j d.jobs)
Step-Stays cfg k job d u (counter job_id agent_id p i hit c r e) links found ended =
    Stays-edit k job d u found job_id (countered agent_id p) i hit ended (counter-live i c) e
Step-Stays cfg k job d u (edit job_id f i hit h e) links found ended =
    Stays-edit k job d u found job_id f i hit ended (edit-live i (f i) h) e
Step-Stays cfg k job d u (fund escrow_id job_id i amount hit priced f) links found ended = ground (
  arith,
  lookup-adjust k job_id (set_job_status JobStatus.funded) d.jobs,
  lookup-insert k job_id (new_escrow escrow_id i amount) d.escrows,
)
Step-Stays cfg k job d u (release job_id i e hit held r) links found ended =
    Stays-settle k job d u found job_id _ _ i hit ended
      (funded-live job_id d i e links hit held r.0) r.2 r.3
Step-Stays cfg k job d u (abort job_id aborter late i e hit held a) links found ended =
    Stays-settle k job d u found job_id _ _ i hit ended
      (funded-live job_id d i e links hit held a.0) a.1 a.2
Step-Stays cfg k job d u (refund job_id i e hit held r) links found ended =
    Stays-settle k job d u found job_id _ _ i hit ended
      (funded-live job_id d i e links hit held r.0) r.1 r.2
Step-Stays cfg k job d u (charge agent_id fee a hit p c) links found ended = (rw c.1 found, rw c.2)
Step-Stays cfg k job d u (give agent_id fee a hit c) links found ended = (rw c.1 found, rw c.2)

Steps-Stays :
    (cfg : Settings) (k : ℕ) (job : Job) (d : Db) {u : Db}
    → Steps cfg d u
    → IsLinked d
    → lookup k d.jobs ≡ some job
    → is_ended job.status ≡ true
    → Stays k job d u
Steps-Stays cfg k job d Steps.here links found ended = (found, refl)
Steps-Stays cfg k job d (same {u} {v} h b) links found ended =
    let old = Steps-Stays cfg k job d h links found ended in (rw b.0 old.0, rw b.1 old.1)
Steps-Stays cfg k job d (next {u} {v} h s) links found ended =
    let old = Steps-Stays cfg k job d h links found ended in
    let new = Step-Stays cfg k job u v s (Steps-IsLinked cfg d h links) old.0 ended in
    (new.0, new.1 ∙ old.1)

-- From tables in which each job is in step with its escrow, a job that is completed, failed or
-- cancelled keeps its row and its escrow's row through any history of requests.
pub serve_all-ended :
    (rs : List (Env × Request)) (w : World) (k : ℕ) (job : Job)
    → IsLinked w.tables
    → lookup k w.tables.jobs ≡ some job
    → is_ended job.status ≡ true
    → Stays k job w.tables (serve_all w rs).tables
unfolding serve_all
serve_all-ended [] w k job links found ended = (found, refl)
serve_all-ended ((env, r) ∷ rs) w k job links found ended =
    let one =
      Steps-Stays env.settings k job w.tables (serve_refines w env r links) links found ended in
    let rest =
      serve_all-ended rs (serve w (env, r)) k job
        (Steps-IsLinked env.settings w.tables (serve_refines w env r links) links) one.0 ended in
    (rest.0, rest.1 ∙ one.1)
