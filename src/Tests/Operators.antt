-- ===== src/Tests/Operators.antt =====
-- Examples of the results on deactivation, the operator's endpoints, recovery and start-up.
use agent_repository.Common.{◌≡◌, refl, true, none, some, [], ◌∷◌, lookup, find_row, arith}
use agent_repository.Models.{
  JobStatus, EscrowStatus, EmailVerification, VerificationPurpose, Account,
}
use agent_repository.Session.{Session, ok, err, invalid_token}
use agent_repository.Linked.{IsLinked}
use agent_repository.Tests.{session, escrow, with_escrow, opened}
use agent_repository.Jobs.{new_job}
use agent_repository.Escrow.Specs.{Commits}
use agent_repository.Escrow.Money.{funds}
use agent_repository.Agents.{deactivate_agent}
use agent_repository.Agents.Deactivated.{deactivate_agent-IsLinked}
use agent_repository.Accounts.{rotate_key, is_recovery}
use agent_repository.Accounts.Tokens.{rotate_key-once}
use agent_repository.Admin
use agent_repository.Admin.Forced.{force_refund_escrow-funds}

abbrev busy : Session
busy = session (with_escrow JobStatus.in_progress EscrowStatus.funded)

deactivate_agent-IsLinked_example :
    ((deactivate_agent 1 busy).0 ≡ ok tt) × IsLinked (deactivate_agent 1 busy).1.committed
unfolding lookup new_job
deactivate_agent-IsLinked_example =
    deactivate_agent-IsLinked 1 busy (λ k j at. ground arith) (λ k. ground arith) refl

force_refund_escrow-funds_example :
    Commits busy
      (λ u. (funds u ≡ funds busy.db) × (u.jobs ≡ busy.db.jobs))
      (Admin.force_refund_escrow 70 busy)
unfolding lookup find_row
force_refund_escrow-funds_example =
    force_refund_escrow-funds 70 7 busy (escrow EscrowStatus.funded) (refl, tt) refl refl refl
      (omega arith)

abbrev lost_key : EmailVerification
lost_key = record {
  email = 5;
  purpose = VerificationPurpose.recovery;
  token = 11;
  registration_token = some 12;
  registration_token_expires_at = 900;
  expires_at = 800;
  used = true;
}

abbrev account : Account
account = record {
  email_verified = true;
  agent_id = some 1;
  dashboard_token = none;
  dashboard_token_expires_at = none;
}

abbrev recovering : Session
recovering =
    session (record opened { accounts = (5, account) ∷ []; verifications = (3, lost_key) ∷ [] })

rotate_key-once_example :
    (rotate_key 860 12 78 (rotate_key 850 12 77 recovering).1).0 ≡ err invalid_token
unfolding lookup find_row is_recovery rotate_key
rotate_key-once_example =
    rotate_key-once 850 860 12 77 78 recovering (refl, tt) ((λ e. tt), tt) refl
