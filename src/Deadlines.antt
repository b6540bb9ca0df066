-- ===== src/Deadlines.antt =====
-- app/services/deadline_queue.py: the consumer of the queue of deadlines, round by round.
pub mod Drained
use agent_repository.Common.{
  ℕ, Bool, Option, none, some, List, [], ◌∷◌, Dict, contains, erase, leb, ltb, ◌==◌, ◌&&◌, ◌||◌,
  if◌then◌else◌,
}
use agent_repository.Session.{Session, close}
use agent_repository.Api.{fail_overdue_job}

-- Whether an entry stands before another in the sorted set: by its score, then by its member.
unfoldable pub is_before : ℕ × ℕ → ℕ × ℕ → Bool
is_before (j, s) (k, t) = ltb s t || (s == t && leb j k)

-- ZRANGEBYSCORE -inf +inf LIMIT 0 1
unfoldable pub earliest : Dict ℕ → Option (ℕ × ℕ)
unfolding is_before
earliest [] = none
earliest (x ∷ d) = elim (earliest d) [
  | none ↦ some x
  | some y ↦ some (if is_before x y then x else y)
]

-- ZREM, and then the job; each in a session of its own. Another consumer may have been first.
unfoldable pub take_entry : ℕ → Session → Session
take_entry job_id s =
    let r = record s.redis { deadlines = erase job_id s.redis.deadlines } in
    let t = record s { redis = r } in
    if contains job_id s.redis.deadlines then (fail_overdue_job job_id (close t)).1 else t

unfoldable pub handle_entry : ℕ → Option (ℕ × ℕ) → Session → Session
unfolding take_entry
handle_entry now none s = s
handle_entry now (some (job_id, deadline)) s = if ltb now deadline then s else take_entry job_id s

-- One turn of the loop at the time `now`; without Redis it raises, which is logged.
unfoldable pub consume : ℕ → Session → Session
unfolding earliest handle_entry
consume now s = if s.env.redis_up then handle_entry now (earliest s.redis.deadlines) s else s

unfoldable pub run_deadline_consumer : List ℕ → Session → Session
unfolding consume
run_deadline_consumer [] s = s
run_deadline_consumer (now ∷ nows) s = run_deadline_consumer nows (consume now s)
