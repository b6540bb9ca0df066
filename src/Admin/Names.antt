-- ===== src/Admin/Names.antt =====
-- The values of the enumerations of app/models, which the admin endpoints take and show.
use agent_repository.Common.{Option, none, some, List, [], ◌∷◌, if◌then◌else◌}
use agent_repository.Common.Text.{Text, eq_text}
use agent_repository.Models.{
  AgentStatus, JobStatus, EscrowStatus, DepositStatus, WithdrawalStatus, WebhookStatus,
}

abbrev text_active : Text
text_active = b'a' ∷ b'c' ∷ b't' ∷ b'i' ∷ b'v' ∷ b'e' ∷ []

abbrev text_agreed : Text
text_agreed = b'a' ∷ b'g' ∷ b'r' ∷ b'e' ∷ b'e' ∷ b'd' ∷ []

abbrev text_cancelled : Text
text_cancelled = b'c' ∷ b'a' ∷ b'n' ∷ b'c' ∷ b'e' ∷ b'l' ∷ b'l' ∷ b'e' ∷ b'd' ∷ []

abbrev text_completed : Text
text_completed = b'c' ∷ b'o' ∷ b'm' ∷ b'p' ∷ b'l' ∷ b'e' ∷ b't' ∷ b'e' ∷ b'd' ∷ []

abbrev text_confirming : Text
text_confirming = b'c' ∷ b'o' ∷ b'n' ∷ b'f' ∷ b'i' ∷ b'r' ∷ b'm' ∷ b'i' ∷ b'n' ∷ b'g' ∷ []

abbrev text_credited : Text
text_credited = b'c' ∷ b'r' ∷ b'e' ∷ b'd' ∷ b'i' ∷ b't' ∷ b'e' ∷ b'd' ∷ []

abbrev text_deactivated : Text
text_deactivated = b'd' ∷ b'e' ∷ b'a' ∷ b'c' ∷ b't' ∷ b'i' ∷ b'v' ∷ b'a' ∷ b't' ∷ b'e' ∷ b'd' ∷ []

abbrev text_delivered : Text
text_delivered = b'd' ∷ b'e' ∷ b'l' ∷ b'i' ∷ b'v' ∷ b'e' ∷ b'r' ∷ b'e' ∷ b'd' ∷ []

abbrev text_disputed : Text
text_disputed = b'd' ∷ b'i' ∷ b's' ∷ b'p' ∷ b'u' ∷ b't' ∷ b'e' ∷ b'd' ∷ []

abbrev text_failed : Text
text_failed = b'f' ∷ b'a' ∷ b'i' ∷ b'l' ∷ b'e' ∷ b'd' ∷ []

abbrev text_funded : Text
text_funded = b'f' ∷ b'u' ∷ b'n' ∷ b'd' ∷ b'e' ∷ b'd' ∷ []

abbrev text_in_progress : Text
text_in_progress = b'i' ∷ b'n' ∷ b'_' ∷ b'p' ∷ b'r' ∷ b'o' ∷ b'g' ∷ b'r' ∷ b'e' ∷ b's' ∷ b's' ∷ []

abbrev text_negotiating : Text
text_negotiating = b'n' ∷ b'e' ∷ b'g' ∷ b'o' ∷ b't' ∷ b'i' ∷ b'a' ∷ b't' ∷ b'i' ∷ b'n' ∷ b'g' ∷ []

abbrev text_pending : Text
text_pending = b'p' ∷ b'e' ∷ b'n' ∷ b'd' ∷ b'i' ∷ b'n' ∷ b'g' ∷ []

abbrev text_processing : Text
text_processing = b'p' ∷ b'r' ∷ b'o' ∷ b'c' ∷ b'e' ∷ b's' ∷ b's' ∷ b'i' ∷ b'n' ∷ b'g' ∷ []

abbrev text_proposed : Text
text_proposed = b'p' ∷ b'r' ∷ b'o' ∷ b'p' ∷ b'o' ∷ b's' ∷ b'e' ∷ b'd' ∷ []

abbrev text_refunded : Text
text_refunded = b'r' ∷ b'e' ∷ b'f' ∷ b'u' ∷ b'n' ∷ b'd' ∷ b'e' ∷ b'd' ∷ []

abbrev text_released : Text
text_released = b'r' ∷ b'e' ∷ b'l' ∷ b'e' ∷ b'a' ∷ b's' ∷ b'e' ∷ b'd' ∷ []

abbrev text_resolved : Text
text_resolved = b'r' ∷ b'e' ∷ b's' ∷ b'o' ∷ b'l' ∷ b'v' ∷ b'e' ∷ b'd' ∷ []

abbrev text_suspended : Text
text_suspended = b's' ∷ b'u' ∷ b's' ∷ b'p' ∷ b'e' ∷ b'n' ∷ b'd' ∷ b'e' ∷ b'd' ∷ []

abbrev text_verifying : Text
text_verifying = b'v' ∷ b'e' ∷ b'r' ∷ b'i' ∷ b'f' ∷ b'y' ∷ b'i' ∷ b'n' ∷ b'g' ∷ []

unfoldable pub agent_status_value : AgentStatus → Text
agent_status_value AgentStatus.active = text_active
agent_status_value AgentStatus.suspended = text_suspended
agent_status_value AgentStatus.deactivated = text_deactivated

abbrev pub agent_status_all : List AgentStatus
agent_status_all = AgentStatus.active ∷ AgentStatus.suspended ∷ AgentStatus.deactivated ∷ []

unfoldable pub job_status_value : JobStatus → Text
job_status_value JobStatus.proposed = text_proposed
job_status_value JobStatus.negotiating = text_negotiating
job_status_value JobStatus.agreed = text_agreed
job_status_value JobStatus.funded = text_funded
job_status_value JobStatus.in_progress = text_in_progress
job_status_value JobStatus.delivered = text_delivered
job_status_value JobStatus.verifying = text_verifying
job_status_value JobStatus.completed = text_completed
job_status_value JobStatus.failed = text_failed
job_status_value JobStatus.disputed = text_disputed
job_status_value JobStatus.resolved = text_resolved
job_status_value JobStatus.cancelled = text_cancelled

abbrev pub job_status_all : List JobStatus
job_status_all =
    JobStatus.proposed ∷ JobStatus.negotiating ∷ JobStatus.agreed ∷ JobStatus.funded
    ∷ JobStatus.in_progress ∷ JobStatus.delivered ∷ JobStatus.verifying ∷ JobStatus.completed
    ∷ JobStatus.failed ∷ JobStatus.disputed ∷ JobStatus.resolved ∷ JobStatus.cancelled ∷ []

unfoldable pub escrow_status_value : EscrowStatus → Text
escrow_status_value EscrowStatus.pending = text_pending
escrow_status_value EscrowStatus.funded = text_funded
escrow_status_value EscrowStatus.released = text_released
escrow_status_value EscrowStatus.refunded = text_refunded
escrow_status_value EscrowStatus.disputed = text_disputed

abbrev pub escrow_status_all : List EscrowStatus
escrow_status_all =
    EscrowStatus.pending ∷ EscrowStatus.funded ∷ EscrowStatus.released ∷ EscrowStatus.refunded
    ∷ EscrowStatus.disputed ∷ []

unfoldable pub deposit_status_value : DepositStatus → Text
deposit_status_value DepositStatus.pending = text_pending
deposit_status_value DepositStatus.confirming = text_confirming
deposit_status_value DepositStatus.credited = text_credited
deposit_status_value DepositStatus.failed = text_failed

abbrev pub deposit_status_all : List DepositStatus
deposit_status_all =
    DepositStatus.pending ∷ DepositStatus.confirming ∷ DepositStatus.credited ∷ DepositStatus.failed
    ∷ []

unfoldable pub withdrawal_status_value : WithdrawalStatus → Text
withdrawal_status_value WithdrawalStatus.pending = text_pending
withdrawal_status_value WithdrawalStatus.processing = text_processing
withdrawal_status_value WithdrawalStatus.completed = text_completed
withdrawal_status_value WithdrawalStatus.failed = text_failed

abbrev pub withdrawal_status_all : List WithdrawalStatus
withdrawal_status_all =
    WithdrawalStatus.pending ∷ WithdrawalStatus.processing ∷ WithdrawalStatus.completed
    ∷ WithdrawalStatus.failed ∷ []

unfoldable pub webhook_status_value : WebhookStatus → Text
webhook_status_value WebhookStatus.pending = text_pending
webhook_status_value WebhookStatus.delivered = text_delivered
webhook_status_value WebhookStatus.failed = text_failed

abbrev pub webhook_status_all : List WebhookStatus
webhook_status_all = WebhookStatus.pending ∷ WebhookStatus.delivered ∷ WebhookStatus.failed ∷ []

-- `Enum(text)`, where `none` is a ValueError.
unfoldable pub of_value : {A : Type 0} → (A → Text) → List A → Text → Option A
of_value value [] t = none
of_value value (a ∷ rows) t =
    let rest = of_value value rows t in if eq_text (value a) t then some a else rest

abbrev pub parse_job_status : Text → Option JobStatus
parse_job_status = of_value job_status_value job_status_all
