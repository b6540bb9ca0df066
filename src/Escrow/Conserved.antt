-- ===== src/Escrow/Conserved.antt =====
-- Funding, release, abort and refund neither make nor lose money.
use agent_repository.Common.{
  ℕ, ℤ, pos, ◌+ℤ◌, ◌≤ℤ◌, ◌≡◌, refl, Bool, true, not, ◌&&◌, some, lookup, contains, adjust, sum_by,
  int_laws, ◌==◌,
}
use agent_repository.Models.{Job, Escrow, EscrowStatus}
use agent_repository.Session.{Session}
use agent_repository.Escrow.{credit, fund_job, release_escrow, abort_job, refund_escrow}
use agent_repository.Escrow.Specs.{
  Commits, seller_payout, fee_paid, aborted, repaid, FundsAs, ReleasesAs, AbortsAs, RefundsAs,
  fund_job-FundsAs, release_escrow-ReleasesAs, abort_job-AbortsAs, refund_escrow-RefundsAs,
}
use agent_repository.Escrow.Money.{
  held, balances, funds, revenue, Commits-map, out_of_escrow, sum_closed, sum_aborted, sum_funded,
  sum_released, sum_repaid,
}

-- For a job and its escrow: an abort, by whichever party or a deadline, commits tables with the
-- same money in balances and funded escrows together; if it raises it has committed nothing.
pub abort_job-funds :
    (job_id aborter : ℕ) (is_deadline : Bool) (s : Session) (job : Job) (e : Escrow)
    → lookup job_id s.db.jobs ≡ some job
    → lookup job_id s.db.escrows ≡ some e
    → Commits s (λ u. funds u ≡ funds s.db) (abort_job job_id aborter is_deadline s)
abort_job-funds job_id aborter is_deadline s job e found row =
    Commits-map s (AbortsAs s.db job_id aborter is_deadline job e) (λ u. funds u ≡ funds s.db)
      (abort_job job_id aborter is_deadline s)
      (λ u h.
        rw (h.2, h.3)
          (out_of_escrow
            (balances (aborted s.db job e (aborter == e.client_agent_id && not is_deadline)))
            (balances s.db.agents) (e.amount +ℤ e.seller_bond_amount) _ (sum_by held s.db.escrows)
            (sum_aborted s.db job e (aborter == e.client_agent_id && not is_deadline) h.4 h.5)
            (sum_closed job_id EscrowStatus.refunded e s.db.escrows row h.0 refl)))
      (abort_job-AbortsAs job_id aborter is_deadline s job e found row)

-- For a job with an agreed price and a bond that is not negative: funding commits tables with
-- the same money in balances and funded escrows together; if it raises it has committed nothing.
pub fund_job-funds :
    (escrow_id job_id client_id : ℕ) (s : Session) (job : Job) (amount : ℤ)
    → lookup job_id s.db.jobs ≡ some job
    → job.agreed_price ≡ some amount
    → pos 0 ≤ℤ job.seller_abort_penalty
    → Commits s (λ u. funds u ≡ funds s.db) (fund_job escrow_id job_id client_id s)
fund_job-funds escrow_id job_id client_id s job amount found priced sign =
    Commits-map s (FundsAs s.db escrow_id job_id job amount) (λ u. funds u ≡ funds s.db)
      (fund_job escrow_id job_id client_id s)
      (λ u h. sum_funded s.db escrow_id job_id job amount u sign h)
      (fund_job-FundsAs escrow_id job_id client_id s job amount found priced)

-- For a job and its escrow: a release commits tables in which balances and funded escrows
-- together are lower by exactly what the platform keeps, the seller's share of the fee and the
-- client's if it could pay; one that raises has committed nothing.
pub release_escrow-funds :
    (job_id : ℕ) (s : Session) (job : Job) (e : Escrow)
    → lookup job_id s.db.jobs ≡ some job
    → lookup job_id s.db.escrows ≡ some e
    → Commits s
        (λ u. funds u +ℤ revenue s.db s.env.settings e ≡ funds s.db)
        (release_escrow job_id s)
release_escrow-funds job_id s job e found row =
    Commits-map s (ReleasesAs s.db s.env.settings job_id job e)
      (λ u. funds u +ℤ revenue s.db s.env.settings e ≡ funds s.db) (release_escrow job_id s)
      (λ u h.
        rw (h.4, h.3)
          (kept
            (balances (
              adjust e.seller_agent_id (credit (seller_payout s.env.settings e))
                (fee_paid s.db s.env.settings e)))
            (revenue s.db s.env.settings e) (balances s.db.agents)
            (e.amount +ℤ e.seller_bond_amount) _ (sum_by held s.db.escrows)
            (sum_released s.db s.env.settings e h.5)
            (sum_closed job_id EscrowStatus.released e s.db.escrows row h.0 refl)))
      (release_escrow-ReleasesAs job_id s job e found row)
  where
    kept : (a r b x m n : ℤ) → a +ℤ r ≡ b +ℤ x → m +ℤ x ≡ n → a +ℤ m +ℤ r ≡ b +ℤ n
    kept a r b x m n p q = grind int_laws

-- For a job and its escrow, with a bond that is not negative and a seller that exists: a refund
-- commits tables with the same money in balances and funded escrows together; if it raises it
-- has committed nothing.
pub refund_escrow-funds :
    (job_id : ℕ) (s : Session) (job : Job) (e : Escrow)
    → lookup job_id s.db.jobs ≡ some job
    → lookup job_id s.db.escrows ≡ some e
    → contains e.seller_agent_id s.db.agents ≡ true
    → pos 0 ≤ℤ e.seller_bond_amount
    → Commits s (λ u. funds u ≡ funds s.db) (refund_escrow job_id s)
refund_escrow-funds job_id s job e found row there sign =
    Commits-map s (RefundsAs s.db job_id e) (λ u. funds u ≡ funds s.db) (refund_escrow job_id s)
      (λ u h.
        rw (h.3, h.2)
          (out_of_escrow (balances (repaid s.db e)) (balances s.db.agents)
            (e.amount +ℤ e.seller_bond_amount) _ (sum_by held s.db.escrows)
            (sum_repaid s.db e h.4 there sign)
            (sum_closed job_id EscrowStatus.refunded e s.db.escrows row h.0 refl)))
      (refund_escrow-RefundsAs job_id s job e found row)
