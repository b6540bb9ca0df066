-- ===== src/Gateway/Flushed.antt =====
-- What a socket is let in for, and what it is sent first.
use agent_repository.Common.{Bool, true, false, ap}
use agent_repository.Common.{
  ℕ, ◌-◌, ◌==◌, ◌≡◌, refl, true, false, some, List, [], ◌∷◌, length, ltb, lookup, arith,
}
use agent_repository.Common.Text.{Text}
use agent_repository.Models.{Agent, Delivery}
use agent_repository.Session.{Session, ok, when, commit}
use agent_repository.Pages.{where_rows, drop}
use agent_repository.Jobs.{is_active}
use agent_repository.Auth.{Outside, is_timestamp_valid}
use agent_repository.Webhooks.Delivery.{is_pending}
use agent_repository.Gateway.{
  Verify, AuthMessage, claims, take_nonce, authenticate_message, waits_for, flush_rows,
  flush_pending_webhooks,
}

flush_rows-waiting :
    (k n : ℕ) (ds : List Delivery)
    → where_rows (waits_for k) (flush_rows k n ds) ≡ drop n (where_rows (waits_for k) ds)
unfolding where_rows flush_rows drop waits_for is_pending
flush_rows-waiting k n [] = refl
flush_rows-waiting k n (d ∷ ds) =
    ground (arith, flush_rows-waiting k (n - 1) ds, flush_rows-waiting k n ds)

flush_rows-others :
    (k j n : ℕ) (ds : List Delivery)
    → (j == k) ≡ false
    → where_rows (λ d. d.target_agent_id == j) (flush_rows k n ds)
      ≡ where_rows (λ d. d.target_agent_id == j) ds
unfolding where_rows flush_rows waits_for is_pending
flush_rows-others k j n [] other = refl
flush_rows-others k j n (d ∷ ds) other =
    ground (arith, other, flush_rows-others k j (n - 1) ds other, flush_rows-others k j n ds other)

flush_rows-length : (k n : ℕ) (ds : List Delivery) → length (flush_rows k n ds) ≡ length ds
unfolding flush_rows
flush_rows-length k n [] = refl
flush_rows-length k n (d ∷ ds) =
    ground (arith, flush_rows-length k (n - 1) ds, flush_rows-length k n ds)

commit_if : (c : Bool) (s : Session) → (when c commit s).1.db ≡ s.db
commit_if true s = refl
commit_if false s = refl

committed_if :
    (c : Bool) (s : Session) → c ≡ true → (when c commit s).1.committed ≡ (when c commit s).1.db
committed_if true s e = refl
committed_if false s e = ground (arith, e)

-- On a socket that takes `n` messages: of the rows that wait for the agent, the first `n` wait
-- no more and the others wait on in their order; the rows of another agent are the same, no row
-- is lost, and if any row waited, what was written is committed.
pub flush_pending_webhooks-waiting :
    (k j n : ℕ) (s : Session)
    → (j == k) ≡ false
    → let t = (flush_pending_webhooks k n s).1 in
      (where_rows (waits_for k) t.db.deliveries ≡ drop n (where_rows (waits_for k) s.db.deliveries))
      × (where_rows (λ d. d.target_agent_id == j) t.db.deliveries
          ≡ where_rows (λ d. d.target_agent_id == j) s.db.deliveries)
      × (length t.db.deliveries ≡ length s.db.deliveries)
      × (ltb 0 (length (where_rows (waits_for k) s.db.deliveries)) ≡ true → t.committed ≡ t.db)
unfolding flush_pending_webhooks
flush_pending_webhooks-waiting k j n s other =
    let u = record s { db = record s.db { deliveries = flush_rows k n s.db.deliveries } } in
    let c = ltb 0 (length (where_rows (waits_for k) s.db.deliveries)) in
    let same : (when c commit u).1.db.deliveries ≡ flush_rows k n s.db.deliveries =
      ap (λ d. d.deliveries) (commit_if c u) in
    (
      rw same (flush_rows-waiting k n s.db.deliveries),
      rw same (flush_rows-others k j n s.db.deliveries other),
      rw same (flush_rows-length k n s.db.deliveries),
      λ some_wait. committed_if c u some_wait,
    )

-- An agent that is let in over a socket: it is active, the message is signed with its key, and the
-- timestamp is recent; a nonce, if there was one, had not been used.
authenticate_message-signed :
    (lib : Outside) (verify : Verify) (now : ℕ) (msg : AuthMessage) (s : Session) (k : ℕ)
    (timestamp signature : Text) (agent : Agent)
    → (authenticate_message lib verify now msg s).0 ≡ ok k
    → claims lib msg ≡ some (k, timestamp, signature)
    → lookup k s.db.agents ≡ some agent
    → (is_active agent.status ≡ true)
      × (verify agent.public_key signature timestamp ≡ true)
      × (is_timestamp_valid lib now timestamp s.env.settings.signature_max_age_seconds ≡ true)
unfolding authenticate_message take_nonce
authenticate_message-signed lib verify now msg s k timestamp signature agent h named row =
    ground (arith, h, named, row)
