-- ===== src/Watcher.antt =====
-- app/services/deposit_watcher.py: a pass of the scan of the chain for deposits. The library web3 and
-- the node are outside: the exception that the import and the filter raise, if they do, and the
-- answer to a query for logs, where `none` is an exception.
pub mod Passes
use agent_repository.Common.{
  ℕ, zero, suc, ◌+◌, ◌-◌, min, pos, Bool, not, Option, none, some, List, [], ◌∷◌, Dict, is_some,
  ltb_ℤ, leb, ◌==◌, if◌then◌else◌,
}
use agent_repository.Models.{Db, DepositAddress}
use agent_repository.Session.{
  Error, ok, ◌>>=◌, ◌>>◌, ⊤, Action, name_error, pure, raise, gets, modify_db, commit,
}
use agent_repository.Wallet.{find_deposit, credits_to_usdc_raw}

-- A Transfer event: the recipient in lower case, the raw value, the transaction.
pub record TransferLog : Type 0 where
  pub recipient : ℕ
  pub value : ℕ
  pub tx_hash : ℕ
  pub block_number : ℕ

-- `refusal` is what the import of `ContractEvent`, the contract or its filter raises.
pub record Node : Type 0 where
  pub refusal : Option Error
  pub get_logs : ℕ → ℕ → Option (List TransferLog)

-- The agent with a deposit address, of the dict that a pass starts with.
unfoldable pub deposit_agent : ℕ → Dict DepositAddress → Option ℕ
deposit_agent address [] = none
deposit_agent address ((agent_id, a) ∷ d) =
    if a.address == address then some agent_id else deposit_agent address d

unfoldable pub get_last_scanned_block : Db → ℕ
get_last_scanned_block d = elim d.last_scanned_block [ some n ↦ n | none ↦ 0 ]

unfoldable pub update_last_scanned_block : ℕ → Action ⊤
update_last_scanned_block n = do modify_db (λ d. record d { last_scanned_block = some n }); commit

unfoldable pub is_duplicate_deposit : ℕ → Action Bool
is_duplicate_deposit tx_hash = gets (λ s. is_some (find_deposit tx_hash s.committed.deposits))

-- The row is built with `Decimal`, a name that the module does not have: its only import is local
-- to `run_deposit_watcher`. What comes after it is not reached.
unfoldable pub create_deposit_record : TransferLog → Action ⊤
unfolding is_duplicate_deposit
create_deposit_record log = do
  cfg ← gets (λ s. s.env.settings)
  known ← is_duplicate_deposit log.tx_hash
  if ltb_ℤ (pos log.value) (credits_to_usdc_raw cfg.min_deposit_amount)
      then pure tt
      else if known
      then pure tt
      else raise name_error

unfoldable pub scan_log : Dict DepositAddress → TransferLog → Action ℕ
unfolding is_duplicate_deposit create_deposit_record deposit_agent
scan_log addresses log = do
  known ← is_duplicate_deposit log.tx_hash
  if not (is_some (deposit_agent log.recipient addresses))
      then pure 0
      else if known
      then pure 0
      else (do create_deposit_record log; pure 1)

unfoldable pub scan_logs : Dict DepositAddress → List TransferLog → Action ℕ
unfolding scan_log
scan_logs addresses [] = pure 0
scan_logs addresses (log ∷ logs) = do
  one ← scan_log addresses log
  more ← scan_logs addresses logs
  pure (one + more)

-- The `try` is around the query alone: what is raised before it ends the pass.
unfoldable pub scan_block_range : Node → Dict DepositAddress → ℕ → ℕ → Action ℕ
unfolding scan_logs
scan_block_range node addresses from_block to_block = elim node.refusal [
  | some e ↦ raise e
  | none ↦ elim (node.get_logs from_block to_block) [
    | none ↦ pure 0
    | some logs ↦ scan_logs addresses logs
  ]
]

-- The chunks of at most 1000 blocks, on fuel.
unfoldable pub scan_chunks : ℕ → Node → Dict DepositAddress → ℕ → ℕ → Action ⊤
unfolding update_last_scanned_block
scan_chunks zero node addresses scan_from current = pure tt
scan_chunks (suc fuel) node addresses scan_from current =
    let scan_to = min (scan_from + 999) current in
    let rest = scan_chunks fuel node addresses (scan_to + 1) current in
    if leb scan_from current
    then (do
      scan_block_range node addresses scan_from scan_to
      update_last_scanned_block scan_to
      rest)
    else pure tt

-- The last block of the pass before; a first pass starts 1000 blocks back.
unfoldable pub first_block : ℕ → Db → ℕ
unfolding get_last_scanned_block
first_block current d =
    let last = get_last_scanned_block d in if last == 0 then current - 1000 else last

-- One pass of the loop, at the block number `current`.
unfoldable pub watch : Node → ℕ → Action ⊤
unfolding scan_chunks first_block
watch node current s = elim s.committed.addresses [
  | [] ↦ (ok tt, s)
  | x ∷ addresses ↦
      scan_chunks (current + 1) node (x ∷ addresses) (first_block current s.committed + 1) current s
]
