-- ===== src/Wallet.antt =====
-- app/services/wallet.py: deposit addresses, withdrawals and deposits. The chain, the secrets and
-- the database's rounding of an amount to two places are outside; what they answer is a `Chain`.
pub mod Books
pub mod Processing
pub mod Deposits
pub mod Twice
use agent_repository.Common.{
  ℕ, zero, suc, ◌+◌, ◌-◌, ◌*◌, ℤ, pos, negsuc, ◌-ℤ◌, Bool, true, false, not, ◌&&◌, Option, none,
  some, List, [], ◌∷◌, Dict, lookup, contains, insert, adjust, sum_by, max, leb, ltb_ℤ, leb_ℤ, ◌==◌,
  if◌then◌else◌,
}
use agent_repository.Models.{
  DepositAddress, DepositTransaction, DepositStatus, WithdrawalRequest, WithdrawalStatus,
}
use agent_repository.Session.{
  ok, ◌>>=◌, ◌>>◌, ⊤, Action, agent_not_found, deposit_not_found, insufficient_balance,
  invalid_input, not_configured, no_result, integrity_error, transaction_not_found,
  transaction_invalid, pure, gets, or_raise, raise_if, rescue, modify_db, commit, find_agent,
  write_agent, close,
}
use agent_repository.Escrow.{credit, debit}

-- What `_check_existing_tx` says of a transaction; `pending` is its None.
pub data TxStatus : Type 0 where
  completed failed pending : TxStatus

-- A receipt, with its decoded USDC transfers: the recipient in lower case, and the raw value.
pub record Receipt : Type 0 where
  pub succeeded : Bool
  pub transfers : List (ℕ × ℕ)
  pub block_number : ℕ

pub record Chain : Type 0 where
  pub has_seed : Bool
  pub derive_address : ℕ → ℕ
  pub has_treasury : Bool
  pub check_existing_tx : ℕ → ℕ → TxStatus  -- by the number of the attempt and the hash
  pub send : ℕ → ℤ → Option ℕ  -- the hash of a transfer to an address; `none` is an exception
  pub wait_for_receipt : ℕ → Option Bool  -- whether it succeeded; `none` is an exception
  pub get_receipt : ℕ → Option Receipt
  pub to_cents : ℕ → ℕ  -- a raw USDC amount in a Numeric(12, 2) column, in cents

-- 1 + the largest derivation index, with -1 for an empty table.
unfoldable pub next_index : Dict DepositAddress → ℕ
next_index [] = 0
next_index ((k, a) ∷ d) = max (suc a.derivation_index) (next_index d)

abbrev pub new_address : Chain → ℕ → DepositAddress
new_address chain index = record { address = chain.derive_address index; derivation_index = index }

unfoldable pub get_or_create_deposit_address : Chain → ℕ → Action DepositAddress
unfolding next_index
get_or_create_deposit_address chain agent_id s = elim (lookup agent_id s.db.addresses) [
  | some existing ↦ pure existing s
  | none ↦
      (do
        raise_if (not chain.has_seed) not_configured
        index ← gets (λ t. next_index t.db.addresses)
        modify_db
            (λ d. record d { addresses = insert agent_id (new_address chain index) d.addresses })
        commit
        pure (new_address chain index))
        s
]

unfoldable pub is_in_flight : WithdrawalStatus → Bool
is_in_flight WithdrawalStatus.pending = true
is_in_flight WithdrawalStatus.processing = true
is_in_flight _ = false

unfoldable pub get_pending_withdrawal_total : ℕ → Dict WithdrawalRequest → ℤ
unfolding is_in_flight
get_pending_withdrawal_total agent_id =
    sum_by λ w. if is_in_flight w.status && (w.agent_id == agent_id) then w.amount else pos 0

-- (total_balance, available_balance, pending_withdrawals)
unfoldable pub get_available_balance : ℕ → Action (ℤ × ℤ × ℤ)
get_available_balance agent_id = do
  agent ← or_raise (← find_agent agent_id) agent_not_found
  in_flight ← gets (λ s. get_pending_withdrawal_total agent_id s.db.withdrawals)
  pure (agent.balance, agent.balance, in_flight)

unfoldable pub new_withdrawal : ℕ → ℤ → ℤ → ℕ → WithdrawalRequest
new_withdrawal agent_id amount fee destination = record {
  agent_id = agent_id;
  amount = amount;
  fee = fee;
  net_payout = amount -ℤ fee;
  destination_address = destination;
  status = WithdrawalStatus.pending;
  tx_hash = none;
}

-- `withdrawal_id` is the UUID drawn for the new row. The task that it starts is
-- `process_withdrawal`, in a session of its own.
unfoldable pub request_withdrawal : ℕ → ℕ → ℤ → ℕ → Action ⊤
unfolding new_withdrawal
request_withdrawal withdrawal_id agent_id amount destination = do
  cfg ← gets (λ s. s.env.settings)
  raise_if (leb_ℤ (amount -ℤ cfg.withdrawal_flat_fee) (pos 0)) invalid_input
  raise_if (ltb_ℤ amount cfg.min_withdrawal_amount) invalid_input
  raise_if (ltb_ℤ cfg.max_withdrawal_amount amount) invalid_input
  agent ← or_raise (← find_agent agent_id) agent_not_found
  raise_if (ltb_ℤ agent.balance amount) insufficient_balance
  write_agent agent_id (debit amount)
  taken ← gets (λ s. contains withdrawal_id s.db.withdrawals)
  raise_if taken integrity_error
  let row = new_withdrawal agent_id amount cfg.withdrawal_flat_fee destination
  modify_db (λ d. record d { withdrawals = insert withdrawal_id row d.withdrawals })
  commit

-- USDC has six decimals, a credit has two.
unfoldable pub credits_to_usdc_raw : ℤ → ℤ
credits_to_usdc_raw (pos n) = pos (n * 10000)
credits_to_usdc_raw (negsuc n) = negsuc (suc n * 10000 - 1)

abbrev pub set_withdrawal_status : WithdrawalStatus → WithdrawalRequest → WithdrawalRequest
set_withdrawal_status st w = record w { status = st }

abbrev pub write_withdrawal : ℕ → (WithdrawalRequest → WithdrawalRequest) → Action ⊤
write_withdrawal k f = modify_db (λ d. record d { withdrawals = adjust k f d.withdrawals })

unfoldable pub complete_withdrawal : ℕ → Action ⊤
complete_withdrawal withdrawal_id = do
  write_withdrawal withdrawal_id (set_withdrawal_status WithdrawalStatus.completed)
  commit

-- The withdrawal has failed: its amount goes back to the agent.
unfoldable pub refund_withdrawal : ℕ → WithdrawalRequest → Action ⊤
refund_withdrawal withdrawal_id w = do
  write_withdrawal withdrawal_id (set_withdrawal_status WithdrawalStatus.failed)
  or_raise (← find_agent w.agent_id) no_result
  write_agent w.agent_id (credit w.amount)
  commit

-- The first answer that settles a transaction, of `n` attempts from the i-th on.
unfoldable pub poll : (ℕ → TxStatus) → ℕ → ℕ → TxStatus
poll check i zero = TxStatus.pending
poll check i (suc n) = elim (check i) [ TxStatus.pending ↦ poll check (suc i) n | answer ↦ answer ]

-- A transaction that was sent before: it is looked up at once and then thirty times.
unfoldable pub settle_existing : ℕ → WithdrawalRequest → TxStatus → Action ⊤
unfolding complete_withdrawal refund_withdrawal
settle_existing withdrawal_id w TxStatus.completed = complete_withdrawal withdrawal_id
settle_existing withdrawal_id w TxStatus.failed = refund_withdrawal withdrawal_id w
settle_existing withdrawal_id w TxStatus.pending = pure tt

unfoldable pub settle_receipt : ℕ → WithdrawalRequest → Option Bool → Action ⊤
unfolding complete_withdrawal refund_withdrawal
settle_receipt withdrawal_id w none = pure tt
settle_receipt withdrawal_id w (some true) = complete_withdrawal withdrawal_id
settle_receipt withdrawal_id w (some false) = refund_withdrawal withdrawal_id w

-- The body of the `try`: the hash is committed before the wait for the receipt.
unfoldable pub send_withdrawal : Chain → ℕ → WithdrawalRequest → Action ⊤
unfolding settle_receipt credits_to_usdc_raw
send_withdrawal chain withdrawal_id w = do
  tx ← or_raise (chain.send w.destination_address (credits_to_usdc_raw w.net_payout)) no_result
  write_withdrawal withdrawal_id (λ v. record v { tx_hash = some tx })
  commit
  settle_receipt withdrawal_id w (chain.wait_for_receipt tx)

-- The commit ends the lock on the row.
unfoldable pub claim_withdrawal : ℕ → Action ⊤
claim_withdrawal withdrawal_id = do
  write_withdrawal withdrawal_id (set_withdrawal_status WithdrawalStatus.processing)
  commit

unfoldable pub pay_claimed : Chain → ℕ → WithdrawalRequest → Action ⊤
unfolding send_withdrawal refund_withdrawal
pay_claimed chain withdrawal_id w =
    rescue (send_withdrawal chain withdrawal_id w) (refund_withdrawal withdrawal_id w)

unfoldable pub send_fresh : Chain → ℕ → WithdrawalRequest → Action ⊤
unfolding claim_withdrawal pay_claimed
send_fresh chain withdrawal_id w = do
  claim_withdrawal withdrawal_id
  pay_claimed chain withdrawal_id w

unfoldable pub process_row : Chain → ℕ → Option WithdrawalRequest → Action ⊤
unfolding is_in_flight settle_existing send_fresh
process_row chain withdrawal_id none = pure tt
process_row chain withdrawal_id (some w) =
    if is_in_flight w.status
    then elim w.tx_hash [
      | some tx ↦ settle_existing withdrawal_id w (poll (λ i. chain.check_existing_tx i tx) 0 31)
      | none ↦ send_fresh chain withdrawal_id w
    ]
    else pure tt

unfoldable pub process_withdrawal : Chain → ℕ → Action ⊤
unfolding process_row
process_withdrawal chain withdrawal_id s =
    if chain.has_treasury
    then process_row chain withdrawal_id (lookup withdrawal_id s.db.withdrawals) s
    else (ok tt, s)

unfoldable pub is_credited : DepositStatus → Bool
is_credited DepositStatus.credited = true
is_credited _ = false

abbrev pub set_deposit_status : DepositStatus → DepositTransaction → DepositTransaction
set_deposit_status st x = record x { status = st }

abbrev pub write_deposit : ℕ → (DepositTransaction → DepositTransaction) → Action ⊤
write_deposit k f = modify_db (λ d. record d { deposits = adjust k f d.deposits })

unfoldable pub credit_deposit : ℕ → Action ⊤
unfolding is_credited
credit_deposit deposit_tx_id = do
  deposit ← or_raise (← gets (λ s. lookup deposit_tx_id s.db.deposits)) deposit_not_found
  cfg ← gets (λ s. s.env.settings)
  if is_credited deposit.status
      then pure tt
      else if ltb_ℤ deposit.amount_credits cfg.min_deposit_amount
      then (do write_deposit deposit_tx_id (set_deposit_status DepositStatus.failed); commit)
      else (do
        or_raise (← find_agent deposit.agent_id) no_result
        write_agent deposit.agent_id (credit deposit.amount_credits)
        write_deposit deposit_tx_id (set_deposit_status DepositStatus.credited)
        commit)

unfoldable pub find_deposit : ℕ → Dict DepositTransaction → Option DepositTransaction
find_deposit tx_hash [] = none
find_deposit tx_hash ((k, x) ∷ d) = if x.tx_hash == tx_hash then some x else find_deposit tx_hash d

-- The value of the first transfer to the address.
unfoldable pub find_transfer : ℕ → List (ℕ × ℕ) → Option ℕ
find_transfer address [] = none
find_transfer address ((recipient, value) ∷ ts) =
    if recipient == address then some value else find_transfer address ts

unfoldable pub new_deposit : ℕ → ℕ → ℤ → ℕ → DepositTransaction
new_deposit agent_id tx_hash credits block = record {
  agent_id = agent_id;
  tx_hash = tx_hash;
  amount_credits = credits;
  block_number = block;
  status = DepositStatus.confirming;
}

-- `deposit_tx_id` is the UUID drawn for the new row. The minimum is compared with the exact amount.
unfoldable pub register_deposit : Chain → ℕ → ℕ → ℕ → Action DepositTransaction
unfolding find_transfer new_deposit
register_deposit chain deposit_tx_id agent_id tx_hash = do
  addr ← or_raise (← gets (λ s. lookup agent_id s.db.addresses)) deposit_not_found
  receipt ← or_raise (chain.get_receipt tx_hash) transaction_not_found
  raise_if (not receipt.succeeded) transaction_invalid
  raw ← or_raise (find_transfer addr.address receipt.transfers) transaction_invalid
  cfg ← gets (λ s. s.env.settings)
  raise_if (ltb_ℤ (pos raw) (credits_to_usdc_raw cfg.min_deposit_amount)) transaction_invalid
  let row = new_deposit agent_id tx_hash (pos (chain.to_cents raw)) receipt.block_number
  taken ← gets (λ s. contains deposit_tx_id s.db.deposits)
  raise_if taken integrity_error
  modify_db (λ d. record d { deposits = insert deposit_tx_id row d.deposits })
  commit
  pure row

unfoldable pub verify_deposit_tx : Chain → ℕ → ℕ → ℕ → Action DepositTransaction
unfolding register_deposit find_deposit
verify_deposit_tx chain deposit_tx_id agent_id tx_hash s =
    elim (find_deposit tx_hash s.db.deposits) [
      | some existing ↦ pure existing s
      | none ↦ register_deposit chain deposit_tx_id agent_id tx_hash s
    ]

-- The block numbers that the polls of the confirmation watcher see; `none` is a failed call. What
-- raises is logged, and the loop goes on.
unfoldable pub wait_and_credit_deposit : ℕ → ℕ → List (Option ℕ) → Action ⊤
unfolding credit_deposit
wait_and_credit_deposit deposit_tx_id block_number [] s = (ok tt, s)
wait_and_credit_deposit deposit_tx_id block_number (none ∷ seen) s =
    wait_and_credit_deposit deposit_tx_id block_number seen s
wait_and_credit_deposit deposit_tx_id block_number (some current ∷ seen) s =
    if leb (block_number + s.env.settings.deposit_confirmations_required) current
    then rescue (credit_deposit deposit_tx_id)
        (λ t. wait_and_credit_deposit deposit_tx_id block_number seen (close t)) s
    else wait_and_credit_deposit deposit_tx_id block_number seen s
