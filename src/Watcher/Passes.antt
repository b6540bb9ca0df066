-- ===== src/Watcher/Passes.antt =====
-- What a pass of the deposit watcher achieves.
use agent_repository.Common.{
  ap, ℕ, zero, suc, ◌+◌, ◌≤◌, ◌<◌, min, ◌≡◌, refl, ◌∙◌, true, false, none, some, Option-cases,
  Bool-cases, ◌⊎◌, inl, inr, List, [], ◌∷◌, Dict, is_some, ltb_ℤ, pos, leb, arith,
}
use agent_repository.Models.{Db, DepositAddress}
use agent_repository.Session.{
  ⊤, Action, Session, Result, Error, ok, err, name_error, pure, close, ◌>>=◌,
}
use agent_repository.Session.Preserved.{Preserves, bind-Preserves, reads-Preserves}
use agent_repository.Wallet.{find_deposit, credits_to_usdc_raw}
use agent_repository.Watcher.{
  TransferLog, Node, deposit_agent, scan_log, scan_logs, scan_block_range, scan_chunks, first_block,
  watch, update_last_scanned_block,
}

-- A scan of logs writes nothing.
scan_log-same :
    (addresses : Dict DepositAddress) (log : TransferLog) (s : Session)
    → (scan_log addresses log s).1 ≡ s
unfolding scan_log
scan_log-same addresses log s = ground arith

-- Two actions that write nothing, one after the other.
both_same :
    (m k : Action ℕ) (s : Session)
    → (m s).1 ≡ s
    → (k s).1 ≡ s
    → ((do one ← m; more ← k; pure (one + more)) s).1 ≡ s
both_same m k s p q = ground arith

scan_logs-same :
    (addresses : Dict DepositAddress) (logs : List TransferLog) (s : Session)
    → (scan_logs addresses logs s).1 ≡ s
unfolding scan_logs
scan_logs-same addresses [] s = refl
scan_logs-same addresses (log ∷ logs) s =
    both_same (scan_log addresses log) (scan_logs addresses logs) s (scan_log-same addresses log s)
      (scan_logs-same addresses logs s)

scan_block_range-same :
    (node : Node) (addresses : Dict DepositAddress) (a b : ℕ) (s : Session)
    → (scan_block_range node addresses a b s).1 ≡ s
unfolding scan_block_range
scan_block_range-same node addresses a b s = elim (Option-cases node.refusal) [
  | inl fine ↦ elim (Option-cases (node.get_logs a b)) [
    | inl broken ↦ ground arith
    | inr (logs, e) ↦ ground (arith, scan_logs-same addresses logs s)
  ]
  | inr (e, h) ↦ ground arith
]

list_cases : {A : Type 0} (xs : List A) → (xs ≡ []) ⊎ ((x : A) × (rest : List A) × (xs ≡ x ∷ rest))
list_cases [] = inl refl
list_cases (x ∷ rest) = inr (x, rest, refl)

-- The tables are those of `base`, but for the last block.
abbrev pub OnlyBlock : Db → Db → Type 0
OnlyBlock base d = d ≡ record base { last_scanned_block = d.last_scanned_block }

-- What is pending and what is committed.
abbrev HoldsOnlyBlock : Db → Session → Type 0
HoldsOnlyBlock base s = OnlyBlock base s.db × OnlyBlock base s.committed

update_last_scanned_block-OnlyBlock :
    (base : Db) (n : ℕ) → Preserves (HoldsOnlyBlock base) (update_last_scanned_block n)
unfolding update_last_scanned_block
update_last_scanned_block-OnlyBlock base n s (d, c) =
    let set : Db → Db = λ t. record t { last_scanned_block = some n } in (ap set d, ap set d)

scan_chunks-OnlyBlock :
    (base : Db) (fuel : ℕ) (node : Node) (addresses : Dict DepositAddress) (from current : ℕ)
    → Preserves (HoldsOnlyBlock base) (scan_chunks fuel node addresses from current)
unfolding scan_chunks
scan_chunks-OnlyBlock base zero node addresses from current s i = i
scan_chunks-OnlyBlock base (suc fuel) node addresses from current s i =
    let I = HoldsOnlyBlock base in
    let to = min (from + 999) current in
    let more = scan_chunks fuel node addresses (to + 1) current in
    let scan = scan_block_range node addresses from to in
    let next : ℕ → Action ⊤ = λ _. update_last_scanned_block to >>= λ _. more in
    let chunk : Preserves I (scan >>= next) =
      bind-Preserves I scan next
        (reads-Preserves I scan (λ t. scan_block_range-same node addresses from to t))
        (λ _.
          bind-Preserves I (update_last_scanned_block to) (λ _. more)
            (update_last_scanned_block-OnlyBlock base to)
            (λ _. scan_chunks-OnlyBlock base fuel node addresses (to + 1) current)) in
    elim (Bool-cases (leb from current)) [ inl again ↦ rw again (chunk s i) | inr over ↦ rw over i ]

-- Whatever the library and the node do, and however it ends, a pass of the watcher commits
-- nothing but the last block it scanned: no deposit is recorded, and no balance changes.
pub watch-OnlyBlock :
    (node : Node) (current : ℕ) (s : Session)
    → OnlyBlock s.committed (watch node current (close s)).1.committed
unfolding watch
watch-OnlyBlock node current s = elim (list_cases s.committed.addresses) [
  | inl e ↦ ground arith
  | inr (x, rest, e) ↦
      let first = first_block current s.committed + 1 in
      let same : watch node current (close s)
          ≡ scan_chunks (current + 1) node (x ∷ rest) first current (close s) =
        ground arith in
      rw same
        (scan_chunks-OnlyBlock s.committed (current + 1) node (x ∷ rest) first current (close s)
          (refl, refl)).1
]

-- A transfer to a known address, of an amount that is large enough, which is not recorded yet.
abbrev pub IsNew : Session → Dict DepositAddress → TransferLog → Type 0
IsNew s addresses log =
    (is_some (deposit_agent log.recipient addresses) ≡ true)
    × (find_deposit log.tx_hash s.committed.deposits ≡ none)
    × (ltb_ℤ (pos log.value) (credits_to_usdc_raw s.env.settings.min_deposit_amount) ≡ false)

abbrev pub AnyNew : Session → Dict DepositAddress → List TransferLog → Type 0
AnyNew s addresses [] = ⊥
AnyNew s addresses (log ∷ logs) = IsNew s addresses log ⊎ AnyNew s addresses logs

scan_log-new :
    (addresses : Dict DepositAddress) (log : TransferLog) (s : Session)
    → IsNew s addresses log
    → scan_log addresses log s ≡ (err name_error, s)
unfolding scan_log
scan_log-new addresses log s h = ground arith

scan_log-result :
    (addresses : Dict DepositAddress) (log : TransferLog) (s : Session)
    → (scan_log addresses log s ≡ (err name_error, s))
      ⊎ ((n : ℕ) × (scan_log addresses log s ≡ (ok n, s)))
unfolding scan_log
scan_log-result addresses log s = by_result (scan_log addresses log s) refl
  where
    by_result :
        (p : Result ℕ × Session)
        → scan_log addresses log s ≡ p
        → (scan_log addresses log s ≡ (err name_error, s))
          ⊎ ((n : ℕ) × (scan_log addresses log s ≡ (ok n, s)))
    by_result (ok n, t) e = inr (n, e ∙ ground arith)
    by_result (err x, t) e = inl (ground arith)

first_raises :
    (m k : Action ℕ) (s : Session)
    → m s ≡ (err name_error, s)
    → (do one ← m; more ← k; pure (one + more)) s ≡ (err name_error, s)
first_raises m k s e = ground arith

second_raises :
    (m k : Action ℕ) (s : Session) (n : ℕ)
    → m s ≡ (ok n, s)
    → k s ≡ (err name_error, s)
    → (do one ← m; more ← k; pure (one + more)) s ≡ (err name_error, s)
second_raises m k s n e f = ground arith

scan_logs-new :
    (addresses : Dict DepositAddress) (logs : List TransferLog) (s : Session)
    → AnyNew s addresses logs
    → scan_logs addresses logs s ≡ (err name_error, s)
unfolding scan_logs
scan_logs-new addresses [] s h = absurd h
scan_logs-new addresses (log ∷ logs) s (inl new) =
    first_raises (scan_log addresses log) (scan_logs addresses logs) s
      (scan_log-new addresses log s new)
scan_logs-new addresses (log ∷ logs) s (inr later) = elim (scan_log-result addresses log s) [
  | inl e ↦ first_raises (scan_log addresses log) (scan_logs addresses logs) s e
  | inr (n, e) ↦
      second_raises (scan_log addresses log) (scan_logs addresses logs) s n e
        (scan_logs-new addresses logs s later)
]

-- What the first new transfer comes to: the exception before the query, or a NameError.
abbrev pub obstacle : Node → Error
obstacle node = elim node.refusal [ some e ↦ e | none ↦ name_error ]

chunk_stuck :
    (fuel : ℕ) (node : Node) (addresses : Dict DepositAddress) (from current : ℕ) (s : Session)
    (logs : List TransferLog)
    → from ≤ current
    → node.get_logs from (min (from + 999) current) ≡ some logs
    → AnyNew s addresses logs
    → scan_chunks (suc fuel) node addresses from current s ≡ (err (obstacle node), s)
unfolding scan_chunks scan_block_range
chunk_stuck fuel node addresses from current s logs more answer new =
    elim (Option-cases node.refusal) [
      | inl fine ↦ ground (arith, scan_logs-new addresses logs s new)
      | inr (e, h) ↦ ground arith
    ]

-- If the first chunk of a pass has a transfer to a deposit address which is large enough and not
-- recorded yet, the pass raises and leaves the session as it is: what it raises is the exception
-- of the import or the filter, if there is one, and a NameError otherwise.
pub watch-stuck :
    (node : Node) (current : ℕ) (s : Session) (x : ℕ × DepositAddress) (rest : Dict DepositAddress)
    (logs : List TransferLog)
    → s.committed.addresses ≡ x ∷ rest
    → first_block current s.committed < current
    → node.get_logs
        (first_block current s.committed + 1)
        (min (first_block current s.committed + 1 + 999) current)
      ≡ some logs
    → AnyNew s (x ∷ rest) logs
    → watch node current s ≡ (err (obstacle node), s)
unfolding watch
watch-stuck node current s x rest logs e more answer new =
    let first = first_block current s.committed in
    let stuck =
      chunk_stuck current node (x ∷ rest) (first + 1) current s logs (omega arith) answer new in
    let same : watch node current s
        ≡ scan_chunks (suc current) node (x ∷ rest) (first + 1) current s =
      ground arith in
    rw same stuck
