-- ===== src/Tests/Services.antt =====
-- Examples of the results on the services beside the marketplace.
use agent_repository.Common.{
  ◌+◌, ◌*◌, ◌≤◌, ◌≡◌, refl, true, false, inl, none, some, [], ◌∷◌, lookup, arith,
}
use agent_repository.Common.Text.{is_empty, strip_prefix, split_once}
use agent_repository.Models.{JobStatus, EscrowStatus, Delivery, EventType, TaskState, WebhookStatus}
use agent_repository.Session.{Session, err, name_error, close}
use agent_repository.Tests.{session, with_escrow, opened, idle}
use agent_repository.Jobs.{is_active}
use agent_repository.Auth
use agent_repository.Auth.Replay.{is_ok, verify_request-replay}
use agent_repository.RateLimit.{Config, Category, Method}
use agent_repository.RateLimit.Bounds.{count_allowed, count_allowed_bound}
use agent_repository.Deadlines.{run_deadline_consumer}
use agent_repository.Deadlines.Drained.{NoneDue, run_deadline_consumer-NoneDue}
use agent_repository.Webhooks.Delivery.{run_webhook_delivery_loop, is_pending}
use agent_repository.Webhooks.Attempts.{AllSettled, run_webhook_delivery_loop-AllSettled}
use agent_repository.Wallet.{find_deposit, credits_to_usdc_raw}
use agent_repository.Watcher
use agent_repository.Watcher.Passes.{OnlyBlock, watch-OnlyBlock, watch-stuck}

-- A signature scheme that takes any signature, names that are one character, and times that are one
-- character, too.
abbrev lib : Auth.Outside
lib = record {
  parse_uuid = λ t. elim t [ [] ↦ none | c ∷ rest ↦ some 1 ];
  parse_time = λ t. some (record { has_zone = true; seconds = 100 });
  verify_signature = λ key signature timestamp method path body. true;
}

abbrev request : Auth.Incoming
request = record {
  method = Method.post;
  path = [];
  authorization =
      b'A' ∷ b'g' ∷ b'e' ∷ b'n' ∷ b't' ∷ b'S' ∷ b'i' ∷ b'g' ∷ b' ' ∷ b'1' ∷ b':' ∷ b's' ∷ [];
  timestamp = b't' ∷ [];
  nonce = b'n' ∷ [];
  is_multipart = false;
  body = [];
}

verify_request-replay_example :
    is_ok
      (Auth.verify_request lib 120 request
        (Auth.Replay.verify_all lib [] (Auth.verify_request lib 110 request (session opened)).1)).0
    ≡ false
unfolding Auth.verify_request Auth.check_nonce Auth.use_nonce Auth.is_used Auth.credentials
    Auth.is_timestamp_valid Auth.is_signed Auth.needs_nonce is_active lookup is_empty strip_prefix
    split_once
verify_request-replay_example =
    verify_request-replay lib 110 120 request [] (session opened) (omega arith) refl refl

abbrev bucket : Config
bucket = record { capacity = 60; refill = 30; category = Category.read }

count_allowed_bound_example :
    count_allowed 60000 bucket (5 ∷ 7 ∷ 9 ∷ []) none * 60000 + 5 * 30 ≤ 60 * 60000 + 9 * 30
count_allowed_bound_example =
    count_allowed_bound 60000 5 bucket (7 ∷ 9 ∷ []) (omega arith) (omega arith, (omega arith, tt))

abbrev queued : Session
queued = record (session (with_escrow JobStatus.funded EscrowStatus.funded)) {
  redis = record idle { deadlines = (7, 3600) ∷ (8, 20) ∷ [] };
}

run_deadline_consumer-NoneDue_example :
    NoneDue 4000 (run_deadline_consumer (4000 ∷ 4001 ∷ 4002 ∷ []) queued).redis.deadlines
run_deadline_consumer-NoneDue_example =
    run_deadline_consumer-NoneDue 4000 (4000 ∷ 4001 ∷ 4002 ∷ []) queued refl
      (omega arith, (omega arith, (omega arith, tt))) (omega arith)

abbrev notice : Delivery
notice = record {
  target_agent_id = 2;
  event_type = EventType.job_funded;
  job_id = 7;
  state = TaskState.working;
  status = WebhookStatus.pending;
  attempts = 1;
}

abbrev noticed : Session
noticed = session (record opened { deliveries = notice ∷ [] })

run_webhook_delivery_loop-AllSettled_example :
    let down = λ (x : Delivery). none in
    AllSettled 2
      (run_webhook_delivery_loop
        (down ∷ down ∷ down ∷ down ∷ down ∷ [])
        noticed).committed.deliveries
unfolding lookup is_pending
run_webhook_delivery_loop-AllSettled_example =
    let down = λ (x : Delivery). none in
    run_webhook_delivery_loop-AllSettled (down ∷ down ∷ down ∷ down ∷ down ∷ []) noticed 2
      (omega arith) refl ((omega arith, λ e. omega arith), tt) (refl, refl)

abbrev watched : Session
watched = session (record opened {
  addresses = (2, record { address = 33; derivation_index = 0 }) ∷ [];
  last_scanned_block = some 40;
})

abbrev transfer : Watcher.TransferLog
transfer = record { recipient = 33; value = 5000000; tx_hash = 9; block_number = 45 }

-- The import succeeds.
abbrev importing : Watcher.Node
importing = record { refusal = none; get_logs = λ a b. some (transfer ∷ []) }

watch-OnlyBlock_example :
    OnlyBlock watched.committed (Watcher.watch importing 2000 (close watched)).1.committed
watch-OnlyBlock_example = watch-OnlyBlock importing 2000 watched

watch-stuck_example : Watcher.watch importing 50 watched ≡ (err name_error, watched)
unfolding Watcher.first_block Watcher.get_last_scanned_block Watcher.deposit_agent find_deposit
    credits_to_usdc_raw
watch-stuck_example =
    watch-stuck importing 50 watched (2, record { address = 33; derivation_index = 0 }) []
      (transfer ∷ []) refl (omega arith) refl (inl (refl, refl, refl))
