-- ===== src/Tests/Escrows.antt =====
-- Examples of the results on escrows.
use agent_repository.Common.{
  map_some, ◌<ℤ◌, ◌+ℤ◌, ◌-ℤ◌, pos, ◌≡◌, refl, false, some, [], ◌∷◌, lookup, arith,
}
use agent_repository.Models.{Db, Agent, JobStatus, EscrowStatus}
use agent_repository.Session.{ok, Session}
use agent_repository.Fees.{calculate_verification_fee, round_up}
use agent_repository.Api
use agent_repository.Api.Failed.{CostsSeller, verify_by_script-CostsSeller}
use agent_repository.Jobs.{new_job}
use agent_repository.Escrow.Money.{funds, revenue}
use agent_repository.Escrow.Conserved.{
  fund_job-funds, release_escrow-funds, abort_job-funds, refund_escrow-funds,
}
use agent_repository.Escrow
use agent_repository.Escrow.Specs.{
  abort_job-AbortsAs, refund_escrow-RefundsAs, ReleasesAs, Commits, release_escrow-ReleasesAs,
  AbortsAs, fund_job-FundsAs, FundsAs, RefundsAs,
}
use agent_repository.Escrow.Debt.{abort_job-debt}
use agent_repository.Tests.{session, env, settings, agent, job, escrow, with_escrow, with_job}

fund_job-FundsAs_example :
    let s = session (with_job JobStatus.agreed) in
    Commits s (FundsAs s.db 70 7 (job JobStatus.agreed) (pos 600)) (Escrow.fund_job 70 7 1 s)
unfolding lookup new_job
fund_job-FundsAs_example =
    fund_job-FundsAs 70 7 1 (session (with_job JobStatus.agreed)) (job JobStatus.agreed) (pos 600)
      refl refl

release_escrow-ReleasesAs_example :
    let s = session (with_escrow JobStatus.delivered EscrowStatus.funded) in
    Commits s
      (ReleasesAs s.db settings 7 (job JobStatus.delivered) (escrow EscrowStatus.funded))
      (Escrow.release_escrow 7 s)
unfolding lookup
release_escrow-ReleasesAs_example =
    release_escrow-ReleasesAs 7 (session (with_escrow JobStatus.delivered EscrowStatus.funded))
      (job JobStatus.delivered) (escrow EscrowStatus.funded) refl refl

abort_job-AbortsAs_example :
    let s = session (with_escrow JobStatus.funded EscrowStatus.funded) in
    Commits s
      (AbortsAs s.db 7 2 false (job JobStatus.funded) (escrow EscrowStatus.funded))
      (Escrow.abort_job 7 2 false s)
unfolding lookup
abort_job-AbortsAs_example =
    abort_job-AbortsAs 7 2 false (session (with_escrow JobStatus.funded EscrowStatus.funded))
      (job JobStatus.funded) (escrow EscrowStatus.funded) refl refl

refund_escrow-RefundsAs_example :
    let s = session (with_escrow JobStatus.in_progress EscrowStatus.funded) in
    Commits s (RefundsAs s.db 7 (escrow EscrowStatus.funded)) (Escrow.refund_escrow 7 s)
unfolding lookup
refund_escrow-RefundsAs_example =
    refund_escrow-RefundsAs 7 (session (with_escrow JobStatus.in_progress EscrowStatus.funded))
      (job JobStatus.in_progress) (escrow EscrowStatus.funded) refl refl

-- A penalty of 5000 cents on a job of 600, after a counter-proposal.
abbrev indebted : Db
indebted = record (with_escrow JobStatus.funded EscrowStatus.funded) {
  jobs = (7, record (job JobStatus.funded) { client_abort_penalty = pos 5000 }) ∷ [];
}

abort_job-debt_example :
    let p = Escrow.abort_job 7 1 false (session indebted) in
    (p.0 ≡ ok tt)
    × (map_some Agent.balance (lookup 1 p.1.committed.agents)
        ≡ some (pos 1000 +ℤ (pos 600 -ℤ pos 5000)))
    × (pos 1000 +ℤ (pos 600 -ℤ pos 5000) <ℤ pos 0)
unfolding lookup ◌+ℤ◌
abort_job-debt_example =
    abort_job-debt 7 (session indebted)
      (record (job JobStatus.funded) { client_abort_penalty = pos 5000 })
      (escrow EscrowStatus.funded) (agent (pos 1000)) (agent (pos 500)) refl refl refl refl refl
      (ground arith) (omega arith)

fund_job-funds_example :
    let s = session (with_job JobStatus.agreed) in
    Commits s (λ u. funds u ≡ funds s.db) (Escrow.fund_job 70 7 1 s)
unfolding lookup new_job
fund_job-funds_example =
    fund_job-funds 70 7 1 (session (with_job JobStatus.agreed)) (job JobStatus.agreed) (pos 600)
      refl refl (omega arith)

release_escrow-funds_example :
    let s = session (with_escrow JobStatus.delivered EscrowStatus.funded) in
    Commits s
      (λ u. funds u +ℤ revenue s.db settings (escrow EscrowStatus.funded) ≡ funds s.db)
      (Escrow.release_escrow 7 s)
unfolding lookup
release_escrow-funds_example =
    release_escrow-funds 7 (session (with_escrow JobStatus.delivered EscrowStatus.funded))
      (job JobStatus.delivered) (escrow EscrowStatus.funded) refl refl

abort_job-funds_example :
    let s = session (with_escrow JobStatus.funded EscrowStatus.funded) in
    Commits s (λ u. funds u ≡ funds s.db) (Escrow.abort_job 7 1 false s)
unfolding lookup
abort_job-funds_example =
    abort_job-funds 7 1 false (session (with_escrow JobStatus.funded EscrowStatus.funded))
      (job JobStatus.funded) (escrow EscrowStatus.funded) refl refl

refund_escrow-funds_example :
    let s = session (with_escrow JobStatus.in_progress EscrowStatus.funded) in
    Commits s (λ u. funds u ≡ funds s.db) (Escrow.refund_escrow 7 s)
unfolding lookup new_job
refund_escrow-funds_example =
    refund_escrow-funds 7 (session (with_escrow JobStatus.in_progress EscrowStatus.funded))
      (job JobStatus.in_progress) (escrow EscrowStatus.funded) refl refl refl (omega arith)

-- A script that runs for two seconds and fails.
abbrev failing : Session
failing = record (session (with_escrow JobStatus.delivered EscrowStatus.funded)) {
  env = record env {
    run_script = λ n r. some (record { passed = false; elapsed = record { num = 2; scale = 1 } });
  };
}

verify_by_script-CostsSeller_example :
    let fee = calculate_verification_fee settings (record { num = 2; scale = 1 }) in
    let p = Api.verify_by_script 7 (job JobStatus.delivered) 1 4 failing in
    (p.0 ≡ ok tt)
    × CostsSeller failing.db 7 1 2 fee (agent (pos 1000)) (agent (pos 500)) p.1.committed
unfolding lookup new_job calculate_verification_fee round_up
verify_by_script-CostsSeller_example =
    verify_by_script-CostsSeller 7 (job JobStatus.delivered) 1 4 failing
      (record { passed = false; elapsed = record { num = 2; scale = 1 } }) (agent (pos 1000))
      (agent (pos 500)) refl refl refl refl refl (omega arith)
