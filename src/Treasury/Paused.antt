-- ===== src/Treasury/Paused.antt =====
-- While the treasury is low no withdrawal is taken.
use agent_repository.Common.{ℕ, ℤ, ltb_ℤ, ◌≡◌, true, some, arith}
use agent_repository.Session.{Session, err, paused}
use agent_repository.Treasury.{update_pause, check_treasury_and_update_pause, request_withdrawal}

-- After a check of a balance, withdrawals are paused exactly if it is below the threshold.
check_treasury-pauses :
    (balance : ℤ) (s : Session)
    → s.env.redis_up ≡ true
    → (check_treasury_and_update_pause (some balance) s).1.redis.withdrawals_paused
      ≡ ltb_ℤ balance s.env.settings.treasury_pause_threshold_usdc
unfolding check_treasury_and_update_pause update_pause
check_treasury-pauses balance s up = ground arith

-- After a check that finds the treasury below the threshold, a withdrawal of an agent is refused.
request_withdrawal-paused :
    (balance amount : ℤ) (withdrawal_id agent_id destination : ℕ) (s : Session)
    → s.env.redis_up ≡ true
    → ltb_ℤ balance s.env.settings.treasury_pause_threshold_usdc ≡ true
    → let t = (check_treasury_and_update_pause (some balance) s).1 in
      request_withdrawal withdrawal_id agent_id agent_id amount destination t ≡ (err paused, t)
unfolding request_withdrawal check_treasury_and_update_pause update_pause
request_withdrawal-paused balance amount withdrawal_id agent_id destination s up low = ground arith
