-- ===== src/Lifecycle/Links.antt =====
-- Every step of the marketplace keeps every job in step with its escrow.
use agent_repository.Common.{
  ℕ, ◌≡◌, Option, none, some, Dict, lookup, adjust, lookup-adjust, lookup-insert, arith, true, inl,
  inr, Bool-cases, ap, ◌∙◌, ==_iff, ◌==◌,
}
use agent_repository.Models.{Db, Job, Escrow, JobStatus}
use agent_repository.Settings.{Settings}
use agent_repository.Linked.{IsLinked, Linked, Matches}
use agent_repository.Escrow.Links.{fund-links, release-links, abort-links, refund-links}
use agent_repository.Jobs.{CounterProposal, countered, can_counter}
use agent_repository.Jobs.Specs.{EditsAs, CreatesAs}
use agent_repository.Lifecycle.{
  Step, create, counter, edit, fund, release, abort, refund, charge, give, Steps, here, same, next,
  is_proposed, KeepsTerms,
}

-- A write that respects what the status says of any escrow keeps the links.
edit_at :
    (k job_id : ℕ) (f : Job → Job) (job : Job) (jobs : Dict Job) (o : Option Escrow)
    → Linked (lookup k jobs) o
    → lookup job_id jobs ≡ some job
    → (Matches job.status job o → Matches (f job).status (f job) o)
    → Linked (lookup k (adjust job_id f jobs)) o
edit_at k job_id f job jobs o links found keeps = elim (Bool-cases (k == job_id)) [
  | inl hit ↦
      let held : lookup k jobs ≡ some job =
        ap (λ (x : ℕ). lookup x jobs) ((==_iff k job_id).0 hit) ∙ found in
      rw (lookup-adjust k job_id f jobs, hit, held) (keeps (rw held at links))
  | inr miss ↦ rw (lookup-adjust k job_id f jobs, miss) links
]

edit-links :
    (job_id : ℕ) (f : Job → Job) (job : Job) (d u : Db)
    → IsLinked d
    → lookup job_id d.jobs ≡ some job
    → ((o : Option Escrow) → Matches job.status job o → Matches (f job).status (f job) o)
    → EditsAs d job_id f u
    → IsLinked u
edit-links job_id f job d u links found keeps e k =
    rw (e.0, e.1)
      (edit_at k job_id f job d.jobs (lookup k d.escrows) (links k) found
        (keeps (lookup k d.escrows)))

keeps-terms :
    (job i : Job)
    → KeepsTerms job i
    → (o : Option Escrow) → Matches job.status job o
    → Matches i.status i o
keeps-terms job i h none m = ground arith
keeps-terms job i h (some e) m = ground arith

countered-Matches :
    (agent_id : ℕ) (p : CounterProposal) (job : Job)
    → can_counter job.status ≡ true
    → (o : Option Escrow) → Matches job.status job o
    → Matches JobStatus.negotiating (countered agent_id p job) o
unfolding can_counter
countered-Matches agent_id p job c none m = ground arith
countered-Matches agent_id p job c (some e) m = ground arith

create-links :
    (job_id : ℕ) (job : Job) (d u : Db)
    → IsLinked d
    → CreatesAs d is_proposed job_id job u
    → IsLinked u
create-links job_id job d u links c k = ground (arith, links k, lookup-insert k job_id job d.jobs)

-- A step keeps the links.
pub Step-IsLinked : (cfg : Settings) (d u : Db) → Step cfg d u → IsLinked d → IsLinked u
unfolding countered
Step-IsLinked cfg d u (create job_id job c) links = create-links job_id job d u links c
Step-IsLinked cfg d u (counter job_id agent_id p job found c r e) links =
    edit-links job_id (countered agent_id p) job d u links found
      (countered-Matches agent_id p job c) e
Step-IsLinked cfg d u (edit job_id f job found h e) links =
    edit-links job_id f job d u links found (keeps-terms job (f job) h) e
Step-IsLinked cfg d u (fund escrow_id job_id job amount found priced f) links =
    fund-links job_id d links escrow_id job amount u found priced f
Step-IsLinked cfg d u (release job_id job e found held r) links =
    release-links job_id d links cfg job e u found held r
Step-IsLinked cfg d u (abort job_id aborter is_deadline job e found held a) links =
    abort-links job_id d links aborter is_deadline job e u found held a
Step-IsLinked cfg d u (refund job_id job e found held r) links =
    refund-links job_id d links job e u found held r
Step-IsLinked cfg d u (charge agent_id fee a found p c) links = λ k. rw (c.1, c.2) (links k)
Step-IsLinked cfg d u (give agent_id fee a found c) links = λ k. rw (c.1, c.2) (links k)

-- So does any number of steps.
pub Steps-IsLinked : (cfg : Settings) (d : Db) {u : Db} → Steps cfg d u → IsLinked d → IsLinked u
Steps-IsLinked cfg d here links = links
Steps-IsLinked cfg d (same {u} {v} h b) links = λ k. rw (b.0, b.1) (Steps-IsLinked cfg d h links k)
Steps-IsLinked cfg d (next {u} {v} h s) links =
    Step-IsLinked cfg u v s (Steps-IsLinked cfg d h links)
