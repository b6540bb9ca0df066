-- ===== src/Treasury.antt =====
-- app/services/treasury.py and app/routers/wallet.py: the pause of withdrawals while the treasury is
-- low, and the endpoints that meet it. The balance of the treasury, in cents, is read from the chain;
-- `none` is a balance that is not to be had.
pub mod Paused
use agent_repository.Common.{
  ℕ, ℤ, ltb_ℤ, Bool, true, false, not, Option, none, some, ◌==◌, if◌then◌else◌,
}
use agent_repository.Models.{DepositAddress, DepositTransaction, WithdrawalRequest}
use agent_repository.Session.{
  ◌>>=◌, ◌>>◌, ⊤, Action, not_a_party, paused, redis_failure, pure, gets, raise_if, when,
  modify_redis,
}
use agent_repository.Wallet
use agent_repository.Wallet.{Chain}
use agent_repository.Pages.{Page, select_page}

-- Below the alert and above the pause, withdrawals go on; the logs are left out.
unfoldable pub update_pause : ℤ → Action ⊤
update_pause balance = do
  cfg ← gets (λ s. s.env.settings)
  currently_paused ← gets (λ s. s.redis.withdrawals_paused)
  if ltb_ℤ balance cfg.treasury_pause_threshold_usdc
      then when (not currently_paused) (modify_redis (λ r. record r { withdrawals_paused = true }))
      else when currently_paused (modify_redis (λ r. record r { withdrawals_paused = false }))

unfoldable pub check_treasury_and_update_pause : Option ℤ → Action ⊤
unfolding update_pause
check_treasury_and_update_pause none = pure tt
check_treasury_and_update_pause (some balance) = do
  up ← gets (λ s. s.env.redis_up)
  raise_if (not up) redis_failure
  update_pause balance

unfoldable pub are_withdrawals_paused : Action Bool
are_withdrawals_paused = do
  up ← gets (λ s. s.env.redis_up)
  raise_if (not up) redis_failure
  gets (λ s. s.redis.withdrawals_paused)

abbrev pub assert_own_agent : ℕ → ℕ → Action ⊤
assert_own_agent caller agent_id = raise_if (not (caller == agent_id)) not_a_party

unfoldable pub get_deposit_address : Chain → ℕ → ℕ → Action DepositAddress
get_deposit_address chain agent_id caller = do
  assert_own_agent caller agent_id
  Wallet.get_or_create_deposit_address chain agent_id

-- `withdrawal_id` is drawn.
unfoldable pub request_withdrawal : ℕ → ℕ → ℕ → ℤ → ℕ → Action ⊤
unfolding are_withdrawals_paused
request_withdrawal withdrawal_id agent_id caller amount destination = do
  assert_own_agent caller agent_id
  stopped ← are_withdrawals_paused
  raise_if stopped paused
  Wallet.request_withdrawal withdrawal_id agent_id amount destination

-- The two histories.
unfoldable pub get_transactions :
    ℕ → ℕ → ℕ → ℕ → Action (Page (ℕ × DepositTransaction) × Page (ℕ × WithdrawalRequest))
unfolding select_page
get_transactions agent_id caller limit offset = do
  assert_own_agent caller agent_id
  gets (λ s. (
    select_page (λ r. r.1.agent_id == agent_id) limit offset s.db.deposits,
    select_page (λ r. r.1.agent_id == agent_id) limit offset s.db.withdrawals,
  ))

unfoldable pub get_available_balance : ℕ → ℕ → Action (ℤ × ℤ × ℤ)
get_available_balance agent_id caller = do
  assert_own_agent caller agent_id
  Wallet.get_available_balance agent_id
