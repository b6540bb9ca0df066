-- ===== src/Wallet/Processing.antt =====
-- A run of the withdrawal task of app/services/wallet.py keeps the books.
use agent_repository.Common.{
  refl, ◌∙◌, ℕ, ◌≡◌, Bool, true, false, some, none, Option, inl, inr, Bool-cases, Option-cases,
  lookup, adjust, sum_by-adjust, lookup-adjust, int_laws, arith,
}
use agent_repository.Models.{Db, Agent, WithdrawalRequest, WithdrawalStatus}
use agent_repository.Session.{Session, rescue}
use agent_repository.Wallet.{
  Chain, process_withdrawal, is_in_flight, set_withdrawal_status, TxStatus, settle_existing,
  claim_withdrawal, pay_claimed, send_fresh, poll, complete_withdrawal, refund_withdrawal,
  settle_receipt, send_withdrawal, process_row, credits_to_usdc_raw,
}
use agent_repository.Escrow.{credit}
use agent_repository.Wallet.Books.{claim, holdings, sum_credit}

-- The row of the withdrawal that is being processed is in flight, with its amount.
abbrev IsLive : ℕ → WithdrawalRequest → Db → Type 0
IsLive k w d =
    (v : WithdrawalRequest) × (lookup k d.withdrawals ≡ some v)
    × (v.amount ≡ w.amount)
    × (is_in_flight v.status ≡ true)

-- The tables after a write to the row.
abbrev amended : ℕ → (WithdrawalRequest → WithdrawalRequest) → Db → Db
amended k f d = record d { withdrawals = adjust k f d.withdrawals }

abbrev refunded : ℕ → WithdrawalRequest → Db → Db
refunded k w d = record d {
  withdrawals = adjust k (set_withdrawal_status WithdrawalStatus.failed) d.withdrawals;
  agents = adjust w.agent_id (credit w.amount) d.agents;
}

abbrev set_tx_hash : ℕ → WithdrawalRequest → WithdrawalRequest
set_tx_hash tx w = record w { tx_hash = some tx }

live_claim : (v : WithdrawalRequest) → is_in_flight v.status ≡ true → claim v ≡ v.amount
unfolding is_in_flight
live_claim v live = ground arith

module _ (k : ℕ) (w : WithdrawalRequest) (d : Db) (live : IsLive k w d) where
  holdings-amended :
      (f : WithdrawalRequest → WithdrawalRequest)
      → claim (f live.0) ≡ w.amount
      → holdings (amended k f d) ≡ holdings d
  holdings-amended f keeps = grind (
    int_laws,
    live_claim live.0 live.3,
    live.2,
    sum_by-adjust claim k f live.0 d.withdrawals live.1,
  )

  holdings-refunded :
      (a : Agent) → lookup w.agent_id d.agents ≡ some a → holdings (refunded k w d) ≡ holdings d
  holdings-refunded a found = grind (
    int_laws,
    sum_credit w.agent_id w.amount a d.agents found,
    live_claim live.0 live.3,
    live.2,
    sum_by-adjust claim k (set_withdrawal_status WithdrawalStatus.failed) live.0 d.withdrawals
        live.1,
  )

  processing-IsLive : IsLive k w (amended k (set_withdrawal_status WithdrawalStatus.processing) d)
  unfolding is_in_flight
  processing-IsLive = (
    set_withdrawal_status WithdrawalStatus.processing live.0,
    ground (
      arith,
      lookup-adjust k k (set_withdrawal_status WithdrawalStatus.processing) d.withdrawals,
      live.1,
    ),
    live.2,
    refl,
  )

  hash-IsLive : (tx : ℕ) → IsLive k w (amended k (set_tx_hash tx) d)
  hash-IsLive tx = (
    set_tx_hash tx live.0,
    ground (arith, lookup-adjust k k (set_tx_hash tx) d.withdrawals, live.1),
    live.2,
    live.3,
  )

-- Processing commits no change of the holdings.
module _ (k : ℕ) (w : WithdrawalRequest) where
  complete_withdrawal-holdings :
      (s : Session)
      → IsLive k w s.db
      → holdings (complete_withdrawal k s).1.committed ≡ holdings s.db
  unfolding complete_withdrawal
  complete_withdrawal-holdings s live =
      holdings-amended k w s.db live (set_withdrawal_status WithdrawalStatus.completed) live.2

  refund_withdrawal-holdings :
      (s : Session)
      → s.committed ≡ s.db
      → IsLive k w s.db
      → holdings (refund_withdrawal k w s).1.committed ≡ holdings s.db
  unfolding refund_withdrawal
  refund_withdrawal-holdings s fresh live = elim (Option-cases (lookup w.agent_id s.db.agents)) [
    | inl gone ↦ ground arith
    | inr (a, found) ↦ ground (arith, holdings-refunded k w s.db live a found)
  ]

  settle_existing-holdings :
      (answer : TxStatus) (s : Session)
      → s.committed ≡ s.db
      → IsLive k w s.db
      → holdings (settle_existing k w answer s).1.committed ≡ holdings s.db
  unfolding settle_existing
  settle_existing-holdings TxStatus.completed s fresh live = complete_withdrawal-holdings s live
  settle_existing-holdings TxStatus.failed s fresh live = refund_withdrawal-holdings s fresh live
  settle_existing-holdings TxStatus.pending s fresh live = rw fresh

  -- A refund that raises has committed nothing, and raises again.
  retried-holdings :
      (s : Session)
      → s.committed ≡ s.db
      → IsLive k w s.db
      → holdings (rescue (refund_withdrawal k w) (refund_withdrawal k w) s).1.committed
        ≡ holdings s.db
  unfolding refund_withdrawal
  retried-holdings s fresh live = elim (Option-cases (lookup w.agent_id s.db.agents)) [
    | inl gone ↦ ground arith
    | inr (a, found) ↦ ground (arith, holdings-refunded k w s.db live a found)
  ]

  sent-holdings :
      (receipt : Option Bool) (s : Session)
      → s.committed ≡ s.db
      → IsLive k w s.db
      → holdings (rescue (settle_receipt k w receipt) (refund_withdrawal k w) s).1.committed
        ≡ holdings s.db
  unfolding settle_receipt
  sent-holdings none s fresh live = rw fresh
  sent-holdings (some true) s fresh live =
      holdings-amended k w s.db live (set_withdrawal_status WithdrawalStatus.completed) live.2
  sent-holdings (some false) s fresh live = retried-holdings s fresh live

  -- The session once the withdrawal is being processed, and once its hash is known.
  abbrev after : Session → Db → Session
  after s d = record s { db = d; committed = d }

  send_fresh-holdings :
      (chain : Chain) (s : Session)
      → IsLive k w s.db
      → holdings (send_fresh chain k w s).1.committed ≡ holdings s.db
  unfolding send_fresh claim_withdrawal pay_claimed send_withdrawal
  send_fresh-holdings chain s live =
      let d1 = amended k (set_withdrawal_status WithdrawalStatus.processing) s.db in
      let live1 : IsLive k w d1 = processing-IsLive k w s.db live in
      let kept1 : holdings d1 ≡ holdings s.db =
        holdings-amended k w s.db live (set_withdrawal_status WithdrawalStatus.processing) live.2 in
      elim (Option-cases (chain.send w.destination_address (credits_to_usdc_raw w.net_payout))) [
        | inl broken ↦ rw broken (refund_withdrawal-holdings (after s d1) refl live1 ∙ kept1)
        | inr (tx, sent) ↦
            let d2 = amended k (set_tx_hash tx) d1 in
            let kept2 : holdings d2 ≡ holdings d1 =
              holdings-amended k w d1 live1 (set_tx_hash tx)
                (live_claim live1.0 live1.3 ∙ live1.2) in
            rw sent (
              sent-holdings (chain.wait_for_receipt tx) (after s d2) refl
                (hash-IsLive k w d1 live1 tx)
              ∙ kept2
              ∙ kept1)
      ]

process_row-holdings :
    (chain : Chain) (k : ℕ) (row : Option WithdrawalRequest) (s : Session)
    → s.committed ≡ s.db
    → lookup k s.db.withdrawals ≡ row
    → holdings (process_row chain k row s).1.committed ≡ holdings s.db
unfolding process_row
process_row-holdings chain k none s fresh found = rw fresh
process_row-holdings chain k (some w) s fresh found = elim (Bool-cases (is_in_flight w.status)) [
  | inr done ↦ rw (done, fresh)
  | inl live ↦ elim (Option-cases w.tx_hash) [
    | inl unsent ↦ rw (live, unsent) (send_fresh-holdings k w chain s (w, found, refl, live))
    | inr (tx, sent) ↦
        rw (live, sent)
          (settle_existing-holdings k w (poll (λ i. chain.check_existing_tx i tx) 0 31) s fresh
            (w, found, refl, live))
  ]
]

-- In a session with nothing pending, a run of the withdrawal task commits tables with the same
-- holdings, whatever the chain answers: a withdrawal that fails gives its amount back once, and
-- no other gives any back.
pub process_withdrawal-holdings :
    (chain : Chain) (withdrawal_id : ℕ) (s : Session)
    → s.committed ≡ s.db
    → holdings (process_withdrawal chain withdrawal_id s).1.committed ≡ holdings s.db
unfolding process_withdrawal
process_withdrawal-holdings chain withdrawal_id s fresh = elim (Bool-cases chain.has_treasury) [
  | inl on ↦ rw on (
      process_row-holdings chain withdrawal_id (lookup withdrawal_id s.db.withdrawals) s fresh refl)
  | inr off ↦ rw (off, fresh)
]
