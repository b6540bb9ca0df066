-- ===== src/Reviews/Scores.antt =====
-- How much a few reviews can make.
use agent_repository.Common.{
  ℕ, suc, ◌+◌, ◌*◌, ◌/◌, ◌%◌, ◌≤◌, ◌<◌, min, Bool, List, [], ◌∷◌, length, ltb, if◌then◌else◌, arith,
}
use native.Mathlib.Nat.{div-le_of_le-mul, div-add-mod', mul-le-mul, mul_comm, lt_of_mul-lt-mul_left}
use agent_repository.Models.{Review}
use agent_repository.Reviews.{
  recency_weight, total_weight, weighted_sum, round_ratio, reputation_score,
}

-- The check of app/models/review.py on a rating.
abbrev pub AllRated : List Review → Type 0
AllRated [] = Unit
AllRated (r ∷ rs) = (r.rating ≤ 5) × AllRated rs

weighted_sum-bound :
    (now : ℕ) (rs : List Review) → AllRated rs → weighted_sum now rs ≤ 5 * total_weight now rs
unfolding weighted_sum total_weight recency_weight
weighted_sum-bound now [] h = ground arith
weighted_sum-bound now (r ∷ rs) h = grind (arith, weighted_sum-bound now rs h.1)

-- A remainder above zero leaves room below a bound.
room : (a b q : ℕ) → a ≤ q * b → 0 < a % b → a / b + 1 ≤ q
room a b q h rest =
    let less : a / b < q =
      lt_of_mul-lt-mul_left b (grind (arith, div-add-mod' a b, mul_comm b (a / b), mul_comm b q)) in
    omega arith

rounds :
    (x r b q : ℕ) (even : Bool)
    → 0 < b
    → x ≤ q
    → (0 < r → x + 1 ≤ q)
    → (if ltb (2 * r) b then x else if ltb b (2 * r) then x + 1 else if even then x else x + 1) ≤ q
rounds x r b q even some_b low more = ground arith

-- A ratio of at most q rounds to at most q.
round_ratio-bound : (a b q : ℕ) → 0 < b → a ≤ q * b → round_ratio a b ≤ q
unfolding round_ratio
round_ratio-bound a b q some_b h =
    rounds (a / b) (a % b) b q _ some_b (div-le_of_le-mul b (rw (mul_comm b q) h)) (room a b q h)

total_weight-pos : (now : ℕ) (r : Review) (rs : List Review) → 0 < total_weight now (r ∷ rs)
unfolding total_weight recency_weight
total_weight-pos now r rs = ground arith

scaled : (x w n m : ℕ) → x ≤ 5 * w → n ≤ m → 100 * (x * n) ≤ 25 * m * (20 * w)
scaled x w n m h k = grind (arith, mul-le-mul h k)

-- For ratings of at most 5: the score is at most 0.25 for each review, and at most 5.
pub reputation_score-bound :
    (now : ℕ) (rs : List Review)
    → AllRated rs
    → (reputation_score now rs ≤ 25 * length rs) × (reputation_score now rs ≤ 500)
unfolding reputation_score
reputation_score-bound now [] h = (omega arith, omega arith)
reputation_score-bound now (r ∷ rs) h =
    let x = weighted_sum now (r ∷ rs) in
    let w = total_weight now (r ∷ rs) in
    let n = suc (length rs) in
    let few =
      round_ratio-bound (100 * (x * min n 20)) (20 * w) (25 * n)
        (grind (arith, total_weight-pos now r rs))
        (scaled x w (min n 20) n (weighted_sum-bound now (r ∷ rs) h) (omega arith)) in
    (ground (arith, few), ground arith)
