-- ===== src/Fees/Laws.antt =====
-- The amounts of app/services/fees.py: how the base fee divides, and what charging a fee does.
use agent_repository.Common.{
  ℕ, true, false, ◌+◌, ◌*◌, ◌≤◌, ℤ, pos, ◌+ℤ◌, ◌-ℤ◌, ◌≤ℤ◌, ◌≡◌, some, lookup, lookup-adjust, arith,
  ltb_ℤ,
}
use agent_repository.Models.{Db, Agent}
use agent_repository.Settings.{Settings}
use agent_repository.Session.{⊤, Session, Result, ok, err, insufficient_balance}
use agent_repository.Fees.{
  round_up, round_up_ℤ, half_even, half_even_ℤ, calculate_base_fee, charge_fee,
}

-- Half of an amount, within a cent.
half_even_bounds :
    (t : ℕ) → (half_even t ≤ t) × (t ≤ 2 * half_even t + 1) × (2 * half_even t ≤ t + 1)
unfolding half_even
half_even_bounds t = ground arith

-- The two shares are amounts that differ by at most a cent.
abbrev pub SplitsAs : ℤ → ℤ × ℤ → Type 0
SplitsAs total (client, seller) =
    (client +ℤ seller ≡ total)
    × (pos 0 ≤ℤ client)
    × (pos 0 ≤ℤ seller)
    × (client ≤ℤ seller +ℤ pos 1)
    × (seller ≤ℤ client +ℤ pos 1)

split : (t h : ℕ) → h ≤ t → t ≤ 2 * h + 1 → 2 * h ≤ t + 1 → SplitsAs (pos t) (pos t -ℤ pos h, pos h)
unfolding ◌+ℤ◌ ◌-ℤ◌
split t h low mid high = ground arith

-- The shares of the base fee of a price that is not negative add up to the fee, rounded up to a
-- cent; neither is negative, and they differ by at most a cent.
calculate_base_fee-SplitsAs :
    (cfg : Settings) (price : ℕ)
    → SplitsAs
        (pos (round_up (price * cfg.fee_base_percent.num) cfg.fee_base_percent.scale))
        (calculate_base_fee cfg (pos price))
unfolding calculate_base_fee round_up_ℤ half_even_ℤ
calculate_base_fee-SplitsAs cfg price =
    let t = round_up (price * cfg.fee_base_percent.num) cfg.fee_base_percent.scale in
    let h = half_even_bounds t in split t (half_even t) h.0 h.1 h.2

odd_half : (k : ℕ) → half_even (4 * k + 3) ≡ 2 * k + 2
unfolding half_even
odd_half k = ground arith

odd_cent : (k : ℕ) → pos (4 * k + 3) -ℤ pos (2 * k + 2) ≡ pos (2 * k + 1)
unfolding ◌-ℤ◌
odd_cent k = ground arith

-- If the base fee of a price is 4 k + 3 cents, the client's share is 2 k + 1 and the seller's 2
-- k + 2.
calculate_base_fee-odd :
    (cfg : Settings) (price k : ℕ)
    → round_up (price * cfg.fee_base_percent.num) cfg.fee_base_percent.scale ≡ 4 * k + 3
    → calculate_base_fee cfg (pos price) ≡ (pos (2 * k + 1), pos (2 * k + 2))
unfolding calculate_base_fee round_up_ℤ half_even_ℤ
calculate_base_fee-odd cfg price k e = rw (e, odd_half k, odd_cent k)

-- Charging takes the fee from a balance that covers it, or is refused with nothing written.
abbrev pub IsCovered : Db → ℕ → ℤ → Agent → Result ⊤ × Session → Type 0
IsCovered d agent_id fee a (ok _, t) =
    (lookup agent_id t.db.agents ≡ some (record a { balance = a.balance -ℤ fee }))
    × (pos 0 ≤ℤ a.balance -ℤ fee)
IsCovered d agent_id fee a (err e, t) =
    (e ≡ insufficient_balance) × (ltb_ℤ a.balance fee ≡ true) × (t.db ≡ d)

no_debt : (a b : ℤ) → ltb_ℤ a b ≡ false → pos 0 ≤ℤ a -ℤ b
unfolding ◌-ℤ◌
no_debt a b h = ground arith

-- For an agent: charging that succeeds has taken the fee off its balance, which is not negative
-- after it. Charging is refused only as an insufficient balance, when the balance is below the
-- fee, with nothing written.
charge_fee-IsCovered :
    (agent_id : ℕ) (fee : ℤ) (s : Session) (a : Agent)
    → lookup agent_id s.db.agents ≡ some a
    → IsCovered s.db agent_id fee a (charge_fee agent_id fee s)
unfolding charge_fee
charge_fee-IsCovered agent_id fee s a found = ground (
  arith,
  no_debt a.balance fee,
  lookup-adjust agent_id agent_id (λ b. record b { balance = b.balance -ℤ fee }) s.db.agents,
)
