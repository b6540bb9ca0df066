-- ===== src/RateLimit/Bounds.antt =====
-- How much a token bucket lets through.
use native.Mathlib.Nat.{mul-le-mul_right}
use agent_repository.Common.{
  ltb, min, ap, ◌∙◌, ℕ, ◌+◌, ◌-◌, ◌*◌, ◌≤◌, ◌<◌, ◌≡◌, refl, pos, ◌+ℤ◌, ◌-ℤ◌, Bool, true, inl, inr,
  Bool-cases, Option, none, some, List, [], ◌∷◌, leb, arith, if◌then◌else◌,
}
use agent_repository.RateLimit.{Config, Bucket, tokens_now, take_token, stored}

-- A bucket that holds `parts` parts of a token since `since`, as the script stores it.
abbrev pub Filled : ℕ → ℕ → ℕ → Bucket → Type 0
Filled minute parts since b =
    (b.tokens ≡ pos parts) × (b.last_refill ≡ since) × (b.expires_at ≡ since + 2 * minute)

-- The parts in such a bucket at a later time.
abbrev parts_now : ℕ → Config → ℕ → ℕ → ℕ → ℕ
parts_now minute cfg parts since now =
    if ltb (since + 2 * minute) now
    then cfg.capacity * minute
    else min (cfg.capacity * minute) (parts + (now * cfg.refill - since * cfg.refill))

tokens_now-parts :
    (minute parts since now : ℕ) (b : Bucket) (cfg : Config)
    → Filled minute parts since b
    → since * cfg.refill ≤ now * cfg.refill
    → tokens_now minute cfg now (some b) ≡ pos (parts_now minute cfg parts since now)
unfolding tokens_now ◌+ℤ◌ ◌-ℤ◌
tokens_now-parts minute parts since now b cfg f later = ground arith

-- No more than what it held and what has come in, if two minutes fill it: a key expires after two.
parts_now_bound :
    (minute parts since now : ℕ) (cfg : Config)
    → cfg.capacity ≤ 2 * cfg.refill
    → since ≤ now
    → parts_now minute cfg parts since now + since * cfg.refill ≤ parts + now * cfg.refill
parts_now_bound minute parts since now cfg slow later =
    let full = mul-le-mul_right minute slow in
    let past = mul-le-mul_right cfg.refill later in
    elim (Bool-cases (ltb (since + 2 * minute) now)) [
      | inl expired ↦
          let long : since + 2 * minute ≤ now = ground arith in
          let idle = mul-le-mul_right cfg.refill long in rw expired (omega arith)
      | inr kept ↦ rw kept (omega arith)
    ]

-- How many of the requests at these times are let through.
unfoldable pub count_allowed : ℕ → Config → List ℕ → Option Bucket → ℕ
unfolding take_token
count_allowed minute cfg [] b = 0
count_allowed minute cfg (now ∷ nows) b =
    let (verdict, next) = take_token minute cfg now b in
    (if verdict.allowed then 1 else 0) + count_allowed minute cfg nows (some next)

abbrev pub IsOrdered : ℕ → List ℕ → Type 0
IsOrdered since [] = Unit
IsOrdered since (now ∷ nows) = (since ≤ now) × IsOrdered now nows

abbrev pub last_time : ℕ → List ℕ → ℕ
last_time since [] = since
last_time since (now ∷ nows) = last_time now nows

-- A bucket with q parts lets a request through if that is a token, which is then gone.
take_token-Filled :
    (minute now q : ℕ) (cfg : Config) (b : Option Bucket)
    → tokens_now minute cfg now b ≡ pos q
    → ((take_token minute cfg now b).0.allowed ≡ leb minute q)
      × Filled minute (if leb minute q then q - minute else q) now (take_token minute cfg now b).1
unfolding take_token stored ◌-ℤ◌
take_token-Filled minute now q cfg b e = ground arith

let_through :
    (minute now q n last r : ℕ)
    → n * minute + now * r ≤ (if leb minute q then q - minute else q) + last * r
    → ((if leb minute q then 1 else 0) + n) * minute + now * r ≤ q + last * r
let_through minute now q n last r h = elim (Bool-cases (leb minute q)) [
  | inl enough ↦
      let have : minute ≤ q = ground arith in
      let rest : n * minute + now * r ≤ q - minute + last * r = ground (arith, h) in
      rw enough (omega arith)
  | inr empty ↦ rw empty (ground (arith, h))
]

count_allowed_from :
    (minute q now : ℕ) (cfg : Config) (nows : List ℕ) (b : Option Bucket)
    → cfg.capacity ≤ 2 * cfg.refill
    → tokens_now minute cfg now b ≡ pos q
    → IsOrdered now nows
    → count_allowed minute cfg (now ∷ nows) b * minute + now * cfg.refill
      ≤ q + last_time now nows * cfg.refill
unfolding count_allowed
count_allowed_from minute q now cfg [] b slow e order =
    let step = take_token-Filled minute now q cfg b e in
    rw step.0 (let_through minute now q 0 now cfg.refill (omega arith))
count_allowed_from minute q now cfg (later ∷ nows) b slow e order =
    let step = take_token-Filled minute now q cfg b e in
    let c = (take_token minute cfg now b).1 in
    let k = if leb minute q then q - minute else q in
    let n = count_allowed minute cfg (later ∷ nows) (some c) in
    let next = parts_now minute cfg k now later in
    let rest =
      count_allowed_from minute next later cfg nows (some c) slow
        (tokens_now-parts minute k now later c cfg step.1 (mul-le-mul_right cfg.refill order.0))
        order.1 in
    let came = parts_now_bound minute k now later cfg slow order.0 in
    rw step.0 (
      let_through minute now q n (last_time later nows) cfg.refill (
        chained (n * minute) next k (now * cfg.refill) (later * cfg.refill)
          (last_time later nows * cfg.refill) rest came))
  where
    chained : (a b c x y z : ℕ) → a + y ≤ b + z → b + x ≤ c + y → a + x ≤ c + z
    chained a b c x y z p q = omega arith

-- For a limit whose capacity is at most twice its refill, and requests in the order of time: the
-- requests that one key is let through are at most the capacity and what is refilled between the
-- first and the last.
pub count_allowed_bound :
    (minute now : ℕ) (cfg : Config) (nows : List ℕ)
    → cfg.capacity ≤ 2 * cfg.refill
    → IsOrdered now nows
    → count_allowed minute cfg (now ∷ nows) none * minute + now * cfg.refill
      ≤ cfg.capacity * minute + last_time now nows * cfg.refill
unfolding tokens_now
count_allowed_bound minute now cfg nows slow order =
    count_allowed_from minute (cfg.capacity * minute) now cfg nows none slow refl order

full_again :
    (minute parts since now : ℕ) (cfg : Config) (b : Bucket)
    → Filled minute parts since b
    → since + 2 * minute < now
    → tokens_now minute cfg now (some b) ≡ pos (cfg.capacity * minute)
unfolding tokens_now
full_again minute parts since now cfg b f idle = ground arith

-- A bucket that no request has touched for two minutes is full, whatever it held.
take_token-expired :
    (minute parts since now : ℕ) (cfg : Config) (b : Bucket)
    → 0 < cfg.capacity
    → Filled minute parts since b
    → since + 2 * minute < now
    → let (verdict, next) = take_token minute cfg now (some b) in
      (verdict.allowed ≡ true) × (next.tokens ≡ pos (cfg.capacity * minute - minute))
take_token-expired minute parts since now cfg b some_capacity f idle =
    let full = full_again minute parts since now cfg b f idle in
    let step = take_token-Filled minute now (cfg.capacity * minute) cfg (some b) full in
    let enough = mul-le-mul_right minute some_capacity in
    let token : leb minute (cfg.capacity * minute) ≡ true = ground (arith, enough) in
    (
      step.0 ∙ token,
      step.1.0
          ∙ ap
              (λ (c : Bool).
                pos (if c then cfg.capacity * minute - minute else cfg.capacity * minute))
              token,
    )
