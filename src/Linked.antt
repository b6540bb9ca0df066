-- ===== src/Linked.antt =====
-- How a job and its escrow agree: the invariant of the marketplace.
use agent_repository.Common.{ℕ, pos, ◌<ℤ◌, ◌≡◌, Option, none, some, lookup}
use agent_repository.Models.{Db, Job, Escrow, JobStatus, EscrowStatus}

-- A funded escrow that holds the price and the bond which the job names, for the job's parties.
abbrev pub Holds : Job → Escrow → Type 0
Holds j e =
    (e.status ≡ EscrowStatus.funded)
    × (e.client_agent_id ≡ j.client_agent_id)
    × (e.seller_agent_id ≡ j.seller_agent_id)
    × (j.agreed_price ≡ some e.amount)
    × (e.seller_bond_amount ≡ j.seller_abort_penalty)
    × (pos 0 <ℤ e.amount)

-- What the status of a job says of its escrow.
abbrev pub Matches : JobStatus → Job → Option Escrow → Type 0
Matches JobStatus.proposed j none = Unit
Matches JobStatus.negotiating j none = Unit
Matches JobStatus.agreed j none = Unit
Matches JobStatus.cancelled j none = Unit
Matches JobStatus.cancelled j (some e) = e.status ≡ EscrowStatus.refunded
Matches JobStatus.failed j (some e) = e.status ≡ EscrowStatus.refunded
Matches JobStatus.completed j (some e) = e.status ≡ EscrowStatus.released
Matches JobStatus.funded j (some e) = Holds j e
Matches JobStatus.in_progress j (some e) = Holds j e
Matches JobStatus.delivered j (some e) = Holds j e
Matches _ _ _ = ⊥

-- A row of `jobs` and the row of `escrow_accounts` with the same `job_id`.
abbrev pub Linked : Option Job → Option Escrow → Type 0
Linked none none = Unit
Linked none (some e) = ⊥
Linked (some j) o = Matches j.status j o

abbrev pub LinkedAt : ℕ → Db → Type 0
LinkedAt k d = Linked (lookup k d.jobs) (lookup k d.escrows)

abbrev pub IsLinked : Db → Type 0
IsLinked d = (k : ℕ) → LinkedAt k d
