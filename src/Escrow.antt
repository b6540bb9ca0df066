-- ===== src/Escrow.antt =====
-- app/services/escrow.py, function by function. A row that is read twice is the same object, so
-- `client.balance = client.balance - amount` is a write on the current row.
pub mod Specs
pub mod Links
pub mod Debt
pub mod Money
pub mod Conserved
use agent_repository.Common.{
  ℕ, ℤ, pos, ◌+ℤ◌, ◌-ℤ◌, Bool, true, false, not, ◌&&◌, Option, none, some, [], ◌∷◌, ◌++◌, lookup,
  insert, erase, is_some, ltb_ℤ, leb_ℤ, ◌==◌, if◌then◌else◌,
}
use agent_repository.Models.{Agent, Job, Escrow, JobStatus, EscrowStatus, EscrowAction}
use agent_repository.Session.{
  ◌>>=◌, ◌>>◌, ⊤, Action, agent_not_found, escrow_not_found, wrong_status, only_client,
  no_agreed_price, escrow_exists, insufficient_balance, insufficient_bond, escrow_not_funded,
  no_result, pure, gets, or_raise, raise_if, when, modify_db, modify_redis, commit, get_job,
  find_agent, find_escrow, write_agent, write_job, write_escrow,
}
use agent_repository.Fees.{calculate_base_fee}

unfoldable pub is_agreed : JobStatus → Bool
is_agreed JobStatus.agreed = true
is_agreed _ = false

unfoldable pub is_deliverable : JobStatus → Bool
is_deliverable JobStatus.delivered = true
is_deliverable JobStatus.verifying = true
is_deliverable _ = false

unfoldable pub is_funded : EscrowStatus → Bool
is_funded EscrowStatus.funded = true
is_funded _ = false

unfoldable pub log_audit : ℕ → EscrowAction → ℤ → Option ℕ → Action ⊤
log_audit escrow_id action amount actor = modify_db λ d. record d {
  audit =
      d.audit
      ++ record { escrow_id = escrow_id; action = action; actor_agent_id = actor; amount = amount }
        ∷ [];
}

abbrev pub credit : ℤ → Agent → Agent
credit x a = record a { balance = a.balance +ℤ x }

abbrev pub debit : ℤ → Agent → Agent
debit x a = record a { balance = a.balance -ℤ x }

abbrev pub set_job_status : JobStatus → Job → Job
set_job_status st j = record j { status = st }

abbrev pub set_escrow_status : EscrowStatus → Escrow → Escrow
set_escrow_status st e = record e { status = st }

-- `enqueue_deadline` and `cancel_deadline`: ZADD and ZREM, best effort when Redis is down.
unfoldable pub enqueue_deadline : ℕ → Option ℕ → Action ⊤
enqueue_deadline job_id none = pure tt
enqueue_deadline job_id (some deadline) = do
  up ← gets (λ s. s.env.redis_up)
  when up (modify_redis λ r. record r { deadlines = insert job_id deadline r.deadlines })

unfoldable pub cancel_deadline : ℕ → Action ⊤
cancel_deadline job_id = do
  up ← gets (λ s. s.env.redis_up)
  when up (modify_redis λ r. record r { deadlines = erase job_id r.deadlines })

-- Locks and debits the seller's bond, if there is one.
unfoldable pub take_bond : ℕ → ℤ → Action ⊤
take_bond seller_id bond = when (ltb_ℤ (pos 0) bond) do
  seller ← or_raise (← find_agent seller_id) agent_not_found
  raise_if (ltb_ℤ seller.balance bond) insufficient_bond
  write_agent seller_id (debit bond)

unfoldable pub new_escrow : ℕ → Job → ℤ → Escrow
new_escrow escrow_id job amount = record {
  escrow_id = escrow_id;
  client_agent_id = job.client_agent_id;
  seller_agent_id = job.seller_agent_id;
  amount = amount;
  seller_bond_amount = job.seller_abort_penalty;
  status = EscrowStatus.funded;
}

-- `escrow_id` is the UUID drawn for the new row.
unfoldable pub fund_job : ℕ → ℕ → ℕ → Action ⊤
unfolding is_agreed take_bond new_escrow log_audit enqueue_deadline
fund_job escrow_id job_id client_id = do
  job ← get_job job_id
  raise_if (not (is_agreed job.status)) wrong_status
  raise_if (not (job.client_agent_id == client_id)) only_client
  amount ← or_raise job.agreed_price no_agreed_price
  raise_if (leb_ℤ amount (pos 0)) no_agreed_price
  existing ← find_escrow job_id
  raise_if (is_some existing) escrow_exists
  client ← or_raise (← find_agent client_id) agent_not_found
  raise_if (ltb_ℤ client.balance amount) insufficient_balance
  take_bond job.seller_agent_id job.seller_abort_penalty
  write_agent client_id (debit amount)
  modify_db λ d. record d { escrows = insert job_id (new_escrow escrow_id job amount) d.escrows }
  write_job job_id (set_job_status JobStatus.funded)
  log_audit escrow_id EscrowAction.created amount (some client_id)
  log_audit escrow_id EscrowAction.funded amount (some client_id)
  when (ltb_ℤ (pos 0) job.seller_abort_penalty) (
      log_audit escrow_id EscrowAction.seller_bond_funded job.seller_abort_penalty
        (some job.seller_agent_id))
  commit
  enqueue_deadline job_id job.delivery_deadline

-- The escrow of a job, which must be funded: the start of a release, an abort and a refund.
unfoldable pub funded_escrow : ℕ → Action Escrow
unfolding is_funded
funded_escrow job_id = do
  escrow ← or_raise (← find_escrow job_id) escrow_not_found
  raise_if (not (is_funded escrow.status)) escrow_not_funded
  pure escrow

abbrev pub can_pay : ℤ → Option Agent → Bool
can_pay x none = false
can_pay x (some a) = leb_ℤ x a.balance

-- A bond that goes back to the seller, or is lost, is logged only if there is one.
unfoldable pub log_bond : Escrow → EscrowAction → Action ⊤
unfolding log_audit
log_bond escrow action =
    when (ltb_ℤ (pos 0) escrow.seller_bond_amount)
      (log_audit escrow.escrow_id action escrow.seller_bond_amount (some escrow.seller_agent_id))

unfoldable pub release_escrow : ℕ → Action ⊤
unfolding funded_escrow is_deliverable log_audit log_bond cancel_deadline
release_escrow job_id = do
  escrow ← funded_escrow job_id
  cfg ← gets (λ s. s.env.settings)
  let client_fee = (calculate_base_fee cfg escrow.amount).0
  let seller_payout = escrow.amount -ℤ (calculate_base_fee cfg escrow.amount).1
  client ← find_agent escrow.client_agent_id
  when (can_pay client_fee client) (write_agent escrow.client_agent_id (debit client_fee))
  or_raise (← find_agent escrow.seller_agent_id) agent_not_found
  write_agent escrow.seller_agent_id (credit (seller_payout +ℤ escrow.seller_bond_amount))
  write_escrow job_id (set_escrow_status EscrowStatus.released)
  job ← or_raise (← gets (λ s. lookup job_id s.db.jobs)) no_result
  raise_if (not (is_deliverable job.status)) wrong_status
  write_job job_id (set_job_status JobStatus.completed)
  log_audit escrow.escrow_id EscrowAction.released seller_payout none
  log_bond escrow EscrowAction.bond_returned
  commit
  cancel_deadline job_id

-- The two ways in which an abort divides the escrow.
unfoldable pub pay_client_abort : Escrow → ℤ → ℕ → Action ⊤
unfolding log_audit log_bond
pay_client_abort escrow penalty aborter = do
  write_agent escrow.client_agent_id (credit (escrow.amount -ℤ penalty))
  write_agent escrow.seller_agent_id (credit (penalty +ℤ escrow.seller_bond_amount))
  log_audit escrow.escrow_id EscrowAction.abort_client penalty (some aborter)
  log_bond escrow EscrowAction.bond_returned

unfoldable pub pay_seller_abort : Escrow → ℕ → Action ⊤
unfolding log_audit log_bond
pay_seller_abort escrow aborter = do
  write_agent escrow.client_agent_id (credit (escrow.amount +ℤ escrow.seller_bond_amount))
  log_audit escrow.escrow_id EscrowAction.abort_seller escrow.seller_bond_amount (some aborter)
  log_bond escrow EscrowAction.bond_forfeited

unfoldable pub abort_job : ℕ → ℕ → Bool → Action ⊤
unfolding funded_escrow pay_client_abort pay_seller_abort cancel_deadline
abort_job job_id aborter is_deadline = do
  escrow ← funded_escrow job_id
  job ← or_raise (← gets (λ s. lookup job_id s.db.jobs)) no_result
  or_raise (← find_agent escrow.client_agent_id) no_result
  or_raise (← find_agent escrow.seller_agent_id) no_result
  let is_client_abort = aborter == escrow.client_agent_id && not is_deadline
  if is_client_abort
      then pay_client_abort escrow job.client_abort_penalty aborter
      else pay_seller_abort escrow aborter
  write_escrow job_id (set_escrow_status EscrowStatus.refunded)
  write_job job_id (set_job_status (if is_deadline then JobStatus.failed else JobStatus.cancelled))
  commit
  cancel_deadline job_id

unfoldable pub refund_escrow : ℕ → Action ⊤
unfolding funded_escrow log_audit log_bond cancel_deadline
refund_escrow job_id = do
  escrow ← funded_escrow job_id
  or_raise (← find_agent escrow.client_agent_id) agent_not_found
  write_agent escrow.client_agent_id (credit escrow.amount)
  when (ltb_ℤ (pos 0) escrow.seller_bond_amount)
      (write_agent escrow.seller_agent_id (credit escrow.seller_bond_amount))
  write_escrow job_id (set_escrow_status EscrowStatus.refunded)
  or_raise (← gets (λ s. lookup job_id s.db.jobs)) no_result
  write_job job_id (set_job_status JobStatus.failed)
  log_audit escrow.escrow_id EscrowAction.refunded escrow.amount none
  log_bond escrow EscrowAction.bond_returned
  commit
  cancel_deadline job_id
