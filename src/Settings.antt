-- ===== src/Settings.antt =====
-- app/config.py: the settings that the modelled services read, and the values they have by default.
use agent_repository.Common.{ℕ, ℤ, pos, Bool, true, false, []}
use agent_repository.Common.Text.{Text}

-- A Decimal that is not negative, `num / scale`; `scale` is a power of ten.
pub record Rate : Type 0 where
  pub num : ℕ
  pub scale : ℕ

pub record Settings : Type 0 where
  pub fee_base_percent : Rate
  pub fee_verification_per_cpu_second : Rate
  pub fee_verification_minimum : ℤ
  pub fee_storage_per_kb : Rate
  pub fee_storage_minimum : ℤ
  pub min_balance_to_propose_job : ℤ
  pub min_withdrawal_amount : ℤ
  pub max_withdrawal_amount : ℤ
  pub withdrawal_flat_fee : ℤ
  pub min_deposit_amount : ℤ
  pub deposit_confirmations_required : ℕ
  pub signature_max_age_seconds : ℕ
  pub nonce_ttl_seconds : ℕ
  pub email_verification_required : Bool
  pub moltbook_required : Bool
  pub rate_limit_discovery_capacity : ℕ
  pub rate_limit_discovery_refill_per_min : ℕ
  pub rate_limit_read_capacity : ℕ
  pub rate_limit_read_refill_per_min : ℕ
  pub rate_limit_write_capacity : ℕ
  pub rate_limit_write_refill_per_min : ℕ
  pub rate_limit_registration_capacity : ℕ
  pub rate_limit_registration_refill_per_min : ℕ
  pub rate_limit_signup_capacity : ℕ
  pub rate_limit_signup_refill_per_min : ℕ
  pub admin_api_keys : Text
  pub treasury_pause_threshold_usdc : ℤ
  pub treasury_alert_threshold_usdc : ℤ

abbrev pub default_settings : Settings
default_settings = record {
  fee_base_percent = record { num = 0; scale = 100 };
  fee_verification_per_cpu_second = record { num = 0; scale = 100 };
  fee_verification_minimum = pos 0;
  fee_storage_per_kb = record { num = 0; scale = 1000 };
  fee_storage_minimum = pos 0;
  min_balance_to_propose_job = pos 100;
  min_withdrawal_amount = pos 1;
  max_withdrawal_amount = pos 10000000;
  withdrawal_flat_fee = pos 0;
  min_deposit_amount = pos 1;
  deposit_confirmations_required = 12;
  signature_max_age_seconds = 30;
  nonce_ttl_seconds = 60;
  email_verification_required = true;
  moltbook_required = false;
  rate_limit_discovery_capacity = 60;
  rate_limit_discovery_refill_per_min = 20;
  rate_limit_read_capacity = 120;
  rate_limit_read_refill_per_min = 60;
  rate_limit_write_capacity = 30;
  rate_limit_write_refill_per_min = 10;
  rate_limit_registration_capacity = 5;
  rate_limit_registration_refill_per_min = 2;
  rate_limit_signup_capacity = 1;
  rate_limit_signup_refill_per_min = 1;
  admin_api_keys = [];
  treasury_pause_threshold_usdc = pos 10000;
  treasury_alert_threshold_usdc = pos 50000;
}
