-- ===== src/Fees.antt =====
-- app/services/fees.py: the fee amounts in cents, and charging one. Decimal arithmetic is exact at
-- the sizes that the schemas admit, so a fee is a quotient of naturals rounded as the code says.
pub mod Laws
use agent_repository.Common.{
  ℕ, suc, ◌+◌, ◌-◌, ◌*◌, ◌/◌, ◌%◌, ℤ, pos, negsuc, ◌-ℤ◌, ltb_ℤ, max_ℤ, ◌==◌, if◌then◌else◌,
}
use agent_repository.Models.{Deliverable}
use agent_repository.Settings.{Rate, Settings}
use agent_repository.Session.{
  ◌>>=◌, ◌>>◌, ⊤, Action, agent_not_found, insufficient_balance, or_raise, raise_if, find_agent,
  write_agent,
}

-- `quantize(Decimal("0.01"), rounding=ROUND_UP)` of n / d cents: away from zero.
unfoldable pub round_up : ℕ → ℕ → ℕ
round_up n d = (n + d - 1) / d

unfoldable pub round_up_ℤ : ℤ → Rate → ℤ
unfolding round_up
round_up_ℤ (pos n) r = pos (round_up (n * r.num) r.scale)
round_up_ℤ (negsuc n) r = pos 0 -ℤ pos (round_up (suc n * r.num) r.scale)

-- `(total / 2).quantize(Decimal("0.01"))`: the default rounding, a half to the even neighbour.
unfoldable pub half_even : ℕ → ℕ
half_even t = if t % 4 == 3 then t / 2 + 1 else t / 2

unfoldable pub half_even_ℤ : ℤ → ℤ
unfolding half_even
half_even_ℤ (pos n) = pos (half_even n)
half_even_ℤ (negsuc n) = pos 0 -ℤ pos (half_even (suc n))

-- (client_fee, seller_fee)
unfoldable pub calculate_base_fee : Settings → ℤ → ℤ × ℤ
calculate_base_fee cfg agreed_price =
    let total = round_up_ℤ agreed_price cfg.fee_base_percent in
    let seller_share = half_even_ℤ total in (total -ℤ seller_share, seller_share)

unfoldable pub calculate_verification_fee : Settings → Rate → ℤ
calculate_verification_fee cfg cpu =
    let r = cfg.fee_verification_per_cpu_second in
    max_ℤ (pos (round_up (cpu.num * r.num * 100) (cpu.scale * r.scale)))
      cfg.fee_verification_minimum

unfoldable pub calculate_storage_fee : Settings → Deliverable → ℤ
calculate_storage_fee cfg result =
    let r = cfg.fee_storage_per_kb in
    max_ℤ (pos (round_up (result.json_size * r.num * 100) (1024 * r.scale))) cfg.fee_storage_minimum

-- Deducts without a commit.
unfoldable pub charge_fee : ℕ → ℤ → Action ⊤
charge_fee agent_id fee = do
  agent ← or_raise (← find_agent agent_id) agent_not_found
  raise_if (ltb_ℤ agent.balance fee) insufficient_balance
  write_agent agent_id (λ a. record a { balance = a.balance -ℤ fee })
