-- ===== src/Tests/Wallets.antt =====
-- Examples of the results on deposits and withdrawals.
use agent_repository.Common.{
  ◌+◌, ◌/◌, sum_by, ◌+ℤ◌, pos, ◌≡◌, refl, true, false, none, some, [], ◌∷◌, lookup,
}
use agent_repository.Models.{
  Db, DepositStatus, DepositTransaction, WithdrawalRequest, WithdrawalStatus,
}
use agent_repository.Wallet.{
  is_in_flight, process_withdrawal, request_withdrawal, TxStatus, credit_deposit, Chain,
}
use agent_repository.Wallet.Processing.{process_withdrawal-holdings}
use agent_repository.Wallet.Twice.{interleaved, pay_claimed-twice}
use agent_repository.Wallet.Books.{
  credit_deposit-balances, request_withdrawal-holdings, balances, credited_amount, holdings,
}
use agent_repository.Tests.{session, agent, opened}

abbrev chain : Chain
chain = record {
  has_seed = true;
  derive_address = λ i. 100 + i;
  has_treasury = true;
  check_existing_tx = λ i tx. TxStatus.pending;
  send = λ to x. some 9;
  wait_for_receipt = λ tx. some false;
  get_receipt = λ tx. none;
  to_cents = λ raw. raw / 10000;
}

abbrev withdrawal : WithdrawalRequest
withdrawal = record {
  agent_id = 2;
  amount = pos 200;
  fee = pos 5;
  net_payout = pos 195;
  destination_address = 44;
  status = WithdrawalStatus.pending;
  tx_hash = none;
}

abbrev deposit : DepositTransaction
deposit = record {
  agent_id = 1;
  tx_hash = 5;
  amount_credits = pos 40;
  block_number = 6;
  status = DepositStatus.confirming;
}

abbrev wallet : Db
wallet = record opened { withdrawals = (3, withdrawal) ∷ []; deposits = (8, deposit) ∷ [] }

request_withdrawal-holdings_example :
    holdings (request_withdrawal 4 1 (pos 100) 44 (session wallet)).1.committed ≡ holdings wallet
request_withdrawal-holdings_example =
    request_withdrawal-holdings 4 1 (pos 100) 44 (session wallet) refl

process_withdrawal-holdings_example :
    holdings (process_withdrawal chain 3 (session wallet)).1.committed ≡ holdings wallet
process_withdrawal-holdings_example = process_withdrawal-holdings chain 3 (session wallet) refl

-- The transaction of the second run is confirmed.
abbrev confirming : Chain
confirming = record chain { wait_for_receipt = λ tx. some true }

-- The first run can not send.
abbrev cut_off : Chain
cut_off = record chain { send = λ to x. none }

pay_claimed-twice_example :
    (lookup 3 (interleaved cut_off confirming 3 withdrawal (session wallet)).committed.withdrawals
      ≡ some (record withdrawal { status = WithdrawalStatus.failed; tx_hash = some 9 }))
    × (lookup 2 (interleaved cut_off confirming 3 withdrawal (session wallet)).committed.agents
        ≡ some (agent (pos 700)))
unfolding lookup is_in_flight ◌+ℤ◌
pay_claimed-twice_example =
    pay_claimed-twice cut_off confirming 3 withdrawal (agent (pos 500)) 9 (session wallet) refl refl
      refl refl refl refl refl refl

credit_deposit-balances_example :
    let u = (credit_deposit 8 (session wallet)).1.committed in
    balances u +ℤ sum_by credited_amount wallet.deposits
    ≡ balances wallet +ℤ sum_by credited_amount u.deposits
credit_deposit-balances_example = credit_deposit-balances 8 (session wallet) refl
