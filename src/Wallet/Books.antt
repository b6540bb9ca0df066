-- ===== src/Wallet/Books.antt =====
-- The money of the wallet: what agents hold, what is on its way out or paid out, what came in.
use agent_repository.Common.{
  refl, ℕ, ℤ, pos, ◌+ℤ◌, ◌≡◌, false, some, none, inl, inr, Option-cases, Dict, lookup, insert,
  adjust, sum_by, sum_by-insert, sum_by-adjust, int_laws, arith,
}
use agent_repository.Models.{
  Db, Agent, WithdrawalRequest, WithdrawalStatus, DepositTransaction, DepositStatus,
}
use agent_repository.Session.{Session}
use agent_repository.Wallet.{
  request_withdrawal, credit_deposit, is_credited, new_withdrawal, set_deposit_status,
}
use agent_repository.Escrow.{credit, debit}

abbrev pub balances : Db → ℤ
balances d = sum_by Agent.balance d.agents

-- The amount of a withdrawal that has not failed.
abbrev pub claim : WithdrawalRequest → ℤ
claim w = elim w.status [ WithdrawalStatus.failed ↦ pos 0 | _ ↦ w.amount ]

abbrev pub credited_amount : DepositTransaction → ℤ
credited_amount x = elim x.status [ DepositStatus.credited ↦ x.amount_credits | _ ↦ pos 0 ]

-- What agents hold, and what they withdraw or have withdrawn.
abbrev pub holdings : Db → ℤ
holdings d = balances d +ℤ sum_by claim d.withdrawals

pub sum_credit :
    (k : ℕ) (x : ℤ) (a : Agent) (agents : Dict Agent)
    → lookup k agents ≡ some a
    → sum_by Agent.balance (adjust k (credit x) agents) ≡ sum_by Agent.balance agents +ℤ x
sum_credit k x a agents found =
    grind (int_laws, sum_by-adjust Agent.balance k (credit x) a agents found)

sum_debit :
    (k : ℕ) (x : ℤ) (a : Agent) (agents : Dict Agent)
    → lookup k agents ≡ some a
    → sum_by Agent.balance (adjust k (debit x) agents) +ℤ x ≡ sum_by Agent.balance agents
sum_debit k x a agents found =
    grind (int_laws, sum_by-adjust Agent.balance k (debit x) a agents found)

-- A new withdrawal takes its amount from the agent.
withdrawn_holdings :
    (k agent_id : ℕ) (w : WithdrawalRequest) (a : Agent) (d : Db)
    → lookup k d.withdrawals ≡ none
    → lookup agent_id d.agents ≡ some a
    → claim w ≡ w.amount
    → sum_by Agent.balance (adjust agent_id (debit w.amount) d.agents)
        +ℤ sum_by claim (insert k w d.withdrawals)
      ≡ holdings d
withdrawn_holdings k agent_id w a d free found live = grind (
  int_laws,
  sum_debit agent_id w.amount a d.agents found,
  sum_by-insert claim k w d.withdrawals free,
)

-- In a session with nothing pending, a withdrawal request commits tables with the same holdings,
-- whether it succeeds or raises.
pub request_withdrawal-holdings :
    (withdrawal_id agent_id : ℕ) (amount : ℤ) (destination : ℕ) (s : Session)
    → s.committed ≡ s.db
    → holdings (request_withdrawal withdrawal_id agent_id amount destination s).1.committed
      ≡ holdings s.db
unfolding request_withdrawal new_withdrawal
request_withdrawal-holdings withdrawal_id agent_id amount destination s fresh =
    elim (Option-cases (lookup withdrawal_id s.db.withdrawals)) [
      | inl free ↦ elim (Option-cases (lookup agent_id s.db.agents)) [
        | inl gone ↦ ground arith
        | inr (a, found) ↦ ground (
          arith,
          withdrawn_holdings withdrawal_id agent_id
              (new_withdrawal agent_id amount s.env.settings.withdrawal_flat_fee destination) a s.db
              free found refl,
        )
      ]
      | inr (w, taken) ↦ ground arith
    ]

-- Crediting a deposit, and failing one that is too small.
credited_balances :
    (k : ℕ) (x : DepositTransaction) (a : Agent) (d : Db)
    → lookup k d.deposits ≡ some x
    → lookup x.agent_id d.agents ≡ some a
    → is_credited x.status ≡ false
    → sum_by Agent.balance (adjust x.agent_id (credit x.amount_credits) d.agents)
        +ℤ sum_by credited_amount d.deposits
      ≡ balances d
        +ℤ sum_by credited_amount (adjust k (set_deposit_status DepositStatus.credited) d.deposits)
unfolding is_credited
credited_balances k x a d row found open_row =
    let zero_now : credited_amount x ≡ pos 0 = ground arith in
    grind (
      int_laws,
      sum_credit x.agent_id x.amount_credits a d.agents found,
      sum_by-adjust credited_amount k (set_deposit_status DepositStatus.credited) x d.deposits row,
    )

failed_balances :
    (k : ℕ) (x : DepositTransaction) (d : Db)
    → lookup k d.deposits ≡ some x
    → is_credited x.status ≡ false
    → sum_by credited_amount (adjust k (set_deposit_status DepositStatus.failed) d.deposits)
      ≡ sum_by credited_amount d.deposits
unfolding is_credited
failed_balances k x d row open_row =
    let zero_now : credited_amount x ≡ pos 0 = ground arith in
    grind (
      int_laws,
      sum_by-adjust credited_amount k (set_deposit_status DepositStatus.failed) x d.deposits row,
    )

-- In a session with nothing pending, crediting a deposit commits tables in which the balances
-- have grown by as much as the credited deposits, whether it succeeds or raises.
pub credit_deposit-balances :
    (deposit_tx_id : ℕ) (s : Session)
    → s.committed ≡ s.db
    → let u = (credit_deposit deposit_tx_id s).1.committed in
      balances u +ℤ sum_by credited_amount s.db.deposits
      ≡ balances s.db +ℤ sum_by credited_amount u.deposits
unfolding credit_deposit is_credited
credit_deposit-balances deposit_tx_id s fresh =
    elim (Option-cases (lookup deposit_tx_id s.db.deposits)) [
      | inl gone ↦ ground arith
      | inr (x, row) ↦ elim (Option-cases (lookup x.agent_id s.db.agents)) [
        | inl gone ↦ ground (arith, failed_balances deposit_tx_id x s.db row)
        | inr (a, found) ↦ ground (
          arith,
          failed_balances deposit_tx_id x s.db row,
          credited_balances deposit_tx_id x a s.db row found,
        )
      ]
    ]
