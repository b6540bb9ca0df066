-- ===== src/Webhooks/Attempts.antt =====
-- A notification is attempted five times at most, and is settled once it has been attempted often.
use agent_repository.Common.{
  inr, subst, length, ℕ, suc, ◌+◌, ◌≤◌, ◌<◌, ◌≡◌, refl, true, false, ◌⊎◌, Option, none, some, List,
  [], ◌∷◌, lookup, contains, arith,
}
use agent_repository.Models.{Delivery}
use agent_repository.Session.{Session}
use agent_repository.Webhooks.Delivery.{
  is_pending, failed_attempt, is_due, deliver_row, deliver_rows, deliver_pending_http_webhooks,
  run_webhook_delivery_loop,
}

-- Five attempts at most, and fewer while the row is pending.
abbrev pub IsBounded : Delivery → Type 0
IsBounded x = (x.attempts ≤ 5) × (is_pending x.status ≡ true → x.attempts < 5)

abbrev pub AllBounded : List Delivery → Type 0
AllBounded [] = Unit
AllBounded (x ∷ xs) = IsBounded x × AllBounded xs

deliver_row-IsBounded :
    (post : Delivery → Option ℕ) (s : Session) (x : Delivery)
    → IsBounded x
    → IsBounded (deliver_row post s x)
unfolding deliver_row failed_attempt is_due is_pending
deliver_row-IsBounded post s x h = ground arith

deliver_rows-AllBounded :
    (post : Delivery → Option ℕ) (s : Session) (xs : List Delivery)
    → AllBounded xs
    → AllBounded (deliver_rows post s xs)
unfolding deliver_rows
deliver_rows-AllBounded post s [] h = tt
deliver_rows-AllBounded post s (x ∷ xs) h =
    (deliver_row-IsBounded post s x h.0, deliver_rows-AllBounded post s xs h.1)

-- The attempts stay at most five, and fewer while a row is pending.
run_webhook_delivery_loop-AllBounded :
    (posts : List (Delivery → Option ℕ)) (s : Session)
    → s.committed ≡ s.db
    → AllBounded s.db.deliveries
    → AllBounded (run_webhook_delivery_loop posts s).committed.deliveries
unfolding run_webhook_delivery_loop deliver_pending_http_webhooks
run_webhook_delivery_loop-AllBounded [] s fresh h = rw fresh h
run_webhook_delivery_loop-AllBounded (post ∷ posts) s fresh h =
    run_webhook_delivery_loop-AllBounded posts _ refl
      (deliver_rows-AllBounded post s s.db.deliveries h)

-- The agent has an endpoint and no open socket: every cycle attempts its pending rows.
abbrev pub IsOffline : Session → ℕ → Type 0
IsOffline s agent_id =
    elim (lookup agent_id s.db.agents) [ some agent ↦ agent.has_endpoint ≡ true | none ↦ ⊥ ]
    × (contains agent_id s.redis.connections ≡ false)

-- The agent's rows are settled, or have been attempted at least so often.
abbrev pub AttemptedFor : ℕ → ℕ → List Delivery → Type 0
AttemptedFor agent_id n [] = Unit
AttemptedFor agent_id n (x ∷ xs) =
    (x.target_agent_id ≡ agent_id → (is_pending x.status ≡ false) ⊎ (n ≤ x.attempts))
    × AttemptedFor agent_id n xs

deliver_row-counts :
    (post : Delivery → Option ℕ) (s : Session) (agent_id n : ℕ) (x : Delivery)
    → IsOffline s agent_id
    → (x.target_agent_id ≡ agent_id → (is_pending x.status ≡ false) ⊎ (n ≤ x.attempts))
    → (deliver_row post s x).target_agent_id ≡ agent_id
    → (is_pending (deliver_row post s x).status ≡ false) ⊎ (suc n ≤ (deliver_row post s x).attempts)
unfolding deliver_row failed_attempt is_due is_pending
deliver_row-counts post s agent_id n x off h same_target = ground arith

deliver_rows-AttemptedFor :
    (post : Delivery → Option ℕ) (s : Session) (agent_id n : ℕ) (xs : List Delivery)
    → IsOffline s agent_id
    → AttemptedFor agent_id n xs
    → AttemptedFor agent_id (suc n) (deliver_rows post s xs)
unfolding deliver_rows
deliver_rows-AttemptedFor post s agent_id n [] off h = tt
deliver_rows-AttemptedFor post s agent_id n (x ∷ xs) off h = (
  deliver_row-counts post s agent_id n x off h.0,
  deliver_rows-AttemptedFor post s agent_id n xs off h.1,
)

run_webhook_delivery_loop-AttemptedFor :
    (posts : List (Delivery → Option ℕ)) (s : Session) (agent_id n m : ℕ)
    → n + length posts ≡ m
    → s.committed ≡ s.db
    → IsOffline s agent_id
    → AttemptedFor agent_id n s.db.deliveries
    → AttemptedFor agent_id m (run_webhook_delivery_loop posts s).committed.deliveries
unfolding run_webhook_delivery_loop deliver_pending_http_webhooks
run_webhook_delivery_loop-AttemptedFor [] s agent_id n m e fresh off h =
    let e' : n ≡ m = omega arith in
    rw fresh (subst (λ k. AttemptedFor agent_id k s.db.deliveries) e' h)
run_webhook_delivery_loop-AttemptedFor (post ∷ posts) s agent_id n m e fresh off h =
    run_webhook_delivery_loop-AttemptedFor posts _ agent_id (suc n) m (omega arith) refl off
      (deliver_rows-AttemptedFor post s agent_id n s.db.deliveries off h)

abbrev pub AllSettled : ℕ → List Delivery → Type 0
AllSettled agent_id [] = Unit
AllSettled agent_id (x ∷ xs) =
    (x.target_agent_id ≡ agent_id → is_pending x.status ≡ false) × AllSettled agent_id xs

settled_row :
    (agent_id m : ℕ) (x : Delivery)
    → 5 ≤ m
    → IsBounded x
    → (x.target_agent_id ≡ agent_id → (is_pending x.status ≡ false) ⊎ (m ≤ x.attempts))
    → x.target_agent_id ≡ agent_id
    → is_pending x.status ≡ false
settled_row agent_id m x enough bound h target = ground arith

all_settled :
    (agent_id m : ℕ) (xs : List Delivery)
    → 5 ≤ m
    → AllBounded xs
    → AttemptedFor agent_id m xs
    → AllSettled agent_id xs
all_settled agent_id m [] enough b h = tt
all_settled agent_id m (x ∷ xs) enough b h =
    (settled_row agent_id m x enough b.0 h.0, all_settled agent_id m xs enough b.1 h.1)

attempted_start : (agent_id : ℕ) (xs : List Delivery) → AttemptedFor agent_id 0 xs
attempted_start agent_id [] = tt
attempted_start agent_id (x ∷ xs) = (λ e. inr (omega arith), attempted_start agent_id xs)

-- In a session with nothing pending, with at most five attempts of each row and fewer while it
-- is pending: after five cycles or more, whatever the endpoint answers, no row of an agent with
-- an endpoint and without a socket is pending.
pub run_webhook_delivery_loop-AllSettled :
    (posts : List (Delivery → Option ℕ)) (s : Session) (agent_id : ℕ)
    → 5 ≤ length posts
    → s.committed ≡ s.db
    → AllBounded s.db.deliveries
    → IsOffline s agent_id
    → AllSettled agent_id (run_webhook_delivery_loop posts s).committed.deliveries
run_webhook_delivery_loop-AllSettled posts s agent_id enough fresh bound off =
    all_settled agent_id (length posts) _ enough
      (run_webhook_delivery_loop-AllBounded posts s fresh bound)
      (run_webhook_delivery_loop-AttemptedFor posts s agent_id 0 (length posts) (omega arith) fresh
        off (attempted_start agent_id s.db.deliveries))
