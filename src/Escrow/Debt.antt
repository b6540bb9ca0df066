-- ===== src/Escrow/Debt.antt =====
-- What a client pays for an abort when the penalty is more than the escrow and the balance hold.
use agent_repository.Common.{
  ap, ◌∙◌, Dict, map_some, adjust, ℕ, ℤ, pos, ◌+ℤ◌, ◌-ℤ◌, ◌<ℤ◌, ◌≡◌, ◌≢◌, false, some, lookup,
  lookup-adjust, arith,
}
use agent_repository.Models.{Agent, Job, Escrow, EscrowStatus}
use agent_repository.Session.{Session, ok}
use agent_repository.Escrow.{abort_job, credit}

negative : (a b p : ℤ) → a +ℤ b <ℤ p → a +ℤ (b -ℤ p) <ℤ pos 0
unfolding ◌+ℤ◌ ◌-ℤ◌
negative a b p h = ground arith

-- The abort succeeds, and leaves the client with a negative balance.
client_row :
    (client_id seller_id : ℕ) (x y : ℤ) (a : Agent) (agents : Dict Agent)
    → lookup client_id agents ≡ some a
    → client_id ≢ seller_id
    → lookup client_id (adjust seller_id (credit y) (adjust client_id (credit x) agents))
      ≡ some (credit x a)
client_row client_id seller_id x y a agents found two = ground (
  arith,
  lookup-adjust client_id seller_id (credit y) (adjust client_id (credit x) agents),
  lookup-adjust client_id client_id (credit x) agents,
)

abort_job-pays :
    (job_id : ℕ) (s : Session) (job : Job) (e : Escrow) (client seller : Agent)
    → lookup job_id s.db.jobs ≡ some job
    → lookup job_id s.db.escrows ≡ some e
    → lookup e.client_agent_id s.db.agents ≡ some client
    → lookup e.seller_agent_id s.db.agents ≡ some seller
    → e.status ≡ EscrowStatus.funded
    → let p = abort_job job_id e.client_agent_id false s in
      (p.0 ≡ ok tt)
      × (p.1.committed.agents
          ≡ adjust e.seller_agent_id (credit (job.client_abort_penalty +ℤ e.seller_bond_amount)) (
              adjust e.client_agent_id (credit (e.amount -ℤ job.client_abort_penalty)) s.db.agents))
unfolding abort_job
abort_job-pays job_id s job e client seller found held c c2 funded = ground arith

-- If the client's penalty is more than its balance and the escrow's amount together, an abort of
-- the funded job by the client succeeds and commits a negative balance of the client. Client and
-- seller are two agents.
pub abort_job-debt :
    (job_id : ℕ) (s : Session) (job : Job) (e : Escrow) (client seller : Agent)
    → lookup job_id s.db.jobs ≡ some job
    → lookup job_id s.db.escrows ≡ some e
    → lookup e.client_agent_id s.db.agents ≡ some client
    → lookup e.seller_agent_id s.db.agents ≡ some seller
    → e.status ≡ EscrowStatus.funded
    → e.client_agent_id ≢ e.seller_agent_id
    → client.balance +ℤ e.amount <ℤ job.client_abort_penalty
    → let p = abort_job job_id e.client_agent_id false s in
      (p.0 ≡ ok tt)
      × (map_some Agent.balance (lookup e.client_agent_id p.1.committed.agents)
          ≡ some (client.balance +ℤ (e.amount -ℤ job.client_abort_penalty)))
      × (client.balance +ℤ (e.amount -ℤ job.client_abort_penalty) <ℤ pos 0)
abort_job-debt job_id s job e client seller found held c c2 funded two over =
    let paid = abort_job-pays job_id s job e client seller found held c c2 funded in
    (
      paid.0,
      ap (λ agents. map_some Agent.balance (lookup e.client_agent_id agents)) paid.1
          ∙ ap (map_some Agent.balance) (
              client_row e.client_agent_id e.seller_agent_id (e.amount -ℤ job.client_abort_penalty)
                (job.client_abort_penalty +ℤ e.seller_bond_amount) client s.db.agents c two),
      negative client.balance e.amount job.client_abort_penalty over,
    )
