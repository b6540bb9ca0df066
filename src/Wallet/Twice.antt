-- ===== src/Wallet/Twice.antt =====
-- Two runs of the withdrawal task on one withdrawal.
use agent_repository.Common.{
  ℕ, ◌≡◌, refl, ap, ◌∙◌, true, none, some, lookup, adjust, lookup-adjust_own,
}
use agent_repository.Models.{Db, Agent, WithdrawalRequest, WithdrawalStatus}
use agent_repository.Session.{
  Session, Result, ok, err, Action, ⊤, ◌>>◌, or_raise, no_result, commit, close,
}
use agent_repository.Session.Preserved.{after}
use agent_repository.Escrow.{credit}
use agent_repository.Wallet.{
  Chain, credits_to_usdc_raw, is_in_flight, set_withdrawal_status, write_withdrawal,
  claim_withdrawal, pay_claimed, send_fresh, send_withdrawal, settle_receipt, complete_withdrawal,
  refund_withdrawal, process_row, process_withdrawal,
}

abbrev committed_as : Session → Db → Session
committed_as s d = record s { db = d; committed = d }

abbrev with_row : ℕ → (WithdrawalRequest → WithdrawalRequest) → Db → Db
with_row k f d = record d { withdrawals = adjust k f d.withdrawals }

abbrev processing : WithdrawalRequest → WithdrawalRequest
processing = set_withdrawal_status WithdrawalStatus.processing

abbrev sent : ℕ → WithdrawalRequest → WithdrawalRequest
sent tx w = record w { tx_hash = some tx }

abbrev completed : WithdrawalRequest → WithdrawalRequest
completed = set_withdrawal_status WithdrawalStatus.completed

abbrev failed : WithdrawalRequest → WithdrawalRequest
failed = set_withdrawal_status WithdrawalStatus.failed

-- The tables after a run that pays, and after a refund.
abbrev paid : ℕ → ℕ → Db → Db
paid k tx d = with_row k completed (with_row k (sent tx) (with_row k processing d))

abbrev given_back : ℕ → WithdrawalRequest → Db → Db
given_back k w d = record (with_row k failed d) {
  agents = adjust w.agent_id (credit w.amount) d.agents;
}

abbrev caught : Result ⊤ × Session → Action ⊤ → Result ⊤ × Session
caught (r, t) h = elim r [ ok a ↦ (ok a, t) | err e ↦ h t ]

-- The tables once the transaction is on its way.
abbrev on_its_way : ℕ → ℕ → Session → Session
on_its_way k tx s = committed_as s (with_row k (sent tx) s.db)

send_withdrawal-completed :
    (chain : Chain) (k : ℕ) (w : WithdrawalRequest) (s : Session) (tx : ℕ)
    → chain.send w.destination_address (credits_to_usdc_raw w.net_payout) ≡ some tx
    → chain.wait_for_receipt tx ≡ some true
    → send_withdrawal chain k w s
      ≡ (ok tt, committed_as s (with_row k completed (with_row k (sent tx) s.db)))
unfolding send_withdrawal settle_receipt complete_withdrawal
send_withdrawal-completed chain k w s tx sends succeeds =
    let rest : ℕ → Action ⊤ = λ x.
      write_withdrawal k (sent x) >> (commit >> settle_receipt k w (chain.wait_for_receipt x)) in
    ap (λ o. after (or_raise o no_result s) rest) sends
    ∙ ap (λ o. settle_receipt k w o (on_its_way k tx s)) succeeds

send_fresh-paid :
    (chain : Chain) (k : ℕ) (w : WithdrawalRequest) (s : Session) (tx : ℕ)
    → chain.send w.destination_address (credits_to_usdc_raw w.net_payout) ≡ some tx
    → chain.wait_for_receipt tx ≡ some true
    → send_fresh chain k w s ≡ (ok tt, committed_as s (paid k tx s.db))
unfolding send_fresh claim_withdrawal pay_claimed
send_fresh-paid chain k w s tx sends succeeds =
    ap (λ p. caught p (refund_withdrawal k w))
      (send_withdrawal-completed chain k w (committed_as s (with_row k processing s.db)) tx sends
        succeeds)

process_withdrawal-sends :
    (chain : Chain) (k : ℕ) (w : WithdrawalRequest) (s : Session)
    → chain.has_treasury ≡ true
    → lookup k s.db.withdrawals ≡ some w
    → is_in_flight w.status ≡ true
    → w.tx_hash ≡ none
    → process_withdrawal chain k s ≡ send_fresh chain k w s
unfolding process_withdrawal process_row
process_withdrawal-sends chain k w s treasury row flight unsent =
    rw treasury (rw row (rw flight (rw unsent refl)))

pay_claimed-given_back :
    (chain : Chain) (k : ℕ) (w : WithdrawalRequest) (s : Session) (a : Agent)
    → chain.send w.destination_address (credits_to_usdc_raw w.net_payout) ≡ none
    → lookup w.agent_id s.db.agents ≡ some a
    → pay_claimed chain k w s ≡ (ok tt, committed_as s (given_back k w s.db))
unfolding pay_claimed send_withdrawal refund_withdrawal
pay_claimed-given_back chain k w s a fails row = rw fails (rw row refl)

-- A run claims the withdrawal, another runs from its start to its end, and the first goes on.
abbrev pub interleaved : Chain → Chain → ℕ → WithdrawalRequest → Session → Session
interleaved first second k w s =
    let claimed = (claim_withdrawal k (close s)).1 in
    let other = (process_withdrawal second k (close claimed)).1 in
    (pay_claimed first k w (close other)).1

-- For a withdrawal that is open and has no transaction: if one run of its task claims it, then
-- another runs from its start to its end, sends the transaction and sees it confirmed, and the
-- first goes on and can not send, then the withdrawal is failed, with the confirmed transaction,
-- and the agent has its amount back.
pub pay_claimed-twice :
    (first second : Chain) (k : ℕ) (w : WithdrawalRequest) (a : Agent) (tx : ℕ) (s : Session)
    → lookup k s.committed.withdrawals ≡ some w
    → lookup w.agent_id s.committed.agents ≡ some a
    → is_in_flight w.status ≡ true
    → w.tx_hash ≡ none
    → second.has_treasury ≡ true
    → second.send w.destination_address (credits_to_usdc_raw w.net_payout) ≡ some tx
    → second.wait_for_receipt tx ≡ some true
    → first.send w.destination_address (credits_to_usdc_raw w.net_payout) ≡ none
    → let t = (interleaved first second k w s).committed in
      (lookup k t.withdrawals
        ≡ some (record w { status = WithdrawalStatus.failed; tx_hash = some tx }))
      × (lookup w.agent_id t.agents ≡ some (credit w.amount a))
unfolding claim_withdrawal is_in_flight
pay_claimed-twice first second k w a tx s row agent flight unsent treasury sends succeeds fails =
    let d1 = with_row k processing s.committed in
    let s1 = committed_as s d1 in
    let row1 = lookup-adjust_own k w processing s.committed.withdrawals row in
    let runs =
      process_withdrawal-sends second k (processing w) s1 treasury row1 refl unsent
      ∙ send_fresh-paid second k (processing w) s1 tx sends succeeds in
    let d2 = paid k tx d1 in
    let goes_on : interleaved first second k w s ≡ committed_as s (given_back k w d2) =
      ap (λ p. (pay_claimed first k w (close p.1)).1) runs
      ∙ ap (λ p. p.1) (pay_claimed-given_back first k w (committed_as s d2) a fails agent) in
    let row2 = lookup-adjust_own k (processing w) processing d1.withdrawals row1 in
    let row3 =
      lookup-adjust_own k (processing (processing w)) (sent tx)
        (with_row k processing d1).withdrawals row2 in
    let row4 =
      lookup-adjust_own k (sent tx (processing w)) completed
        (with_row k (sent tx) (with_row k processing d1)).withdrawals row3 in
    let row5 = lookup-adjust_own k (completed (sent tx w)) failed d2.withdrawals row4 in
    (
      ap (λ u. lookup k u.committed.withdrawals) goes_on ∙ row5,
      ap (λ u. lookup w.agent_id u.committed.agents) goes_on
          ∙ lookup-adjust_own w.agent_id a (credit w.amount) s.committed.agents agent,
    )
