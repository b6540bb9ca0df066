-- ===== src/Wallet/Deposits.antt =====
-- A deposit is credited once, and every agent's deposit address has an index of its own.
use agent_repository.Common.{
  ◌⊎◌, ℕ, ◌<◌, ◌≡◌, inl, inr, Option-cases, some, [], ◌∷◌, Dict, lookup, insert, lookup-insert,
  lookup-adjust, arith,
}
use agent_repository.Models.{Db, DepositAddress, DepositStatus}
use agent_repository.Session.{Session, ok}
use agent_repository.Wallet.{
  Chain, credit_deposit, is_credited, set_deposit_status, next_index, get_or_create_deposit_address,
  new_address,
}

-- After a run that succeeded, a second run in the session succeeds and leaves the agents as they
-- are.
credit_deposit-idempotent :
    (deposit_tx_id : ℕ) (s : Session)
    → let (r, t) = credit_deposit deposit_tx_id s in
      r ≡ ok tt
      → ((credit_deposit deposit_tx_id t).0 ≡ ok tt)
        × ((credit_deposit deposit_tx_id t).1.db.agents ≡ t.db.agents)
unfolding credit_deposit is_credited
credit_deposit-idempotent deposit_tx_id s done =
    elim (Option-cases (lookup deposit_tx_id s.db.deposits)) [
      | inl gone ↦ ground arith
      | inr (x, found) ↦ ground (
        arith,
        lookup-adjust deposit_tx_id deposit_tx_id (set_deposit_status DepositStatus.credited)
            s.db.deposits,
        lookup-adjust deposit_tx_id deposit_tx_id (set_deposit_status DepositStatus.failed)
            s.db.deposits,
      )
    ]

-- Rows of `deposit_addresses` with one derivation index belong to one agent.
abbrev pub HasOwnIndexes : Db → Type 0
HasOwnIndexes d =
    (j k : ℕ) (a b : DepositAddress)
    → lookup j d.addresses ≡ some a
    → lookup k d.addresses ≡ some b
    → a.derivation_index ≡ b.derivation_index
    → j ≡ k

lookup-next_index :
    (k : ℕ) (a : DepositAddress) (d : Dict DepositAddress)
    → lookup k d ≡ some a
    → a.derivation_index < next_index d
unfolding lookup next_index
lookup-next_index k a [] found = ground arith
lookup-next_index k a ((j, b) ∷ d) found = ground (arith, lookup-next_index k a d)

own_indexes_insert :
    (chain : Chain) (agent_id : ℕ) (d u : Db)
    → HasOwnIndexes d
    → u.addresses ≡ insert agent_id (new_address chain (next_index d.addresses)) d.addresses
    → HasOwnIndexes u
own_indexes_insert chain agent_id d u own e j k a b p q same_index = ground (
  arith,
  lookup-insert j agent_id (new_address chain (next_index d.addresses)) d.addresses,
  lookup-insert k agent_id (new_address chain (next_index d.addresses)) d.addresses,
  lookup-next_index j a d.addresses,
  lookup-next_index k b d.addresses,
  own j k a b,
)

own_indexes_same : (d u : Db) → HasOwnIndexes d → u.addresses ≡ d.addresses → HasOwnIndexes u
own_indexes_same d u own e j k a b p q same_index = ground (arith, own j k a b)

-- The table is as it was, or has one more row.
get_or_create-rows :
    (chain : Chain) (agent_id : ℕ) (s : Session)
    → s.committed ≡ s.db
    → let u = (get_or_create_deposit_address chain agent_id s).1.committed in
      (u.addresses ≡ s.db.addresses)
      ⊎ (u.addresses
          ≡ insert agent_id (new_address chain (next_index s.db.addresses)) s.db.addresses)
unfolding get_or_create_deposit_address
get_or_create-rows chain agent_id s fresh = ground arith

-- In a session with nothing pending whose deposit addresses have an index each, those that it
-- commits have one each, too.
get_or_create_deposit_address-HasOwnIndexes :
    (chain : Chain) (agent_id : ℕ) (s : Session)
    → s.committed ≡ s.db
    → HasOwnIndexes s.db
    → HasOwnIndexes (get_or_create_deposit_address chain agent_id s).1.committed
get_or_create_deposit_address-HasOwnIndexes chain agent_id s fresh own =
    let u = (get_or_create_deposit_address chain agent_id s).1.committed in
    elim (get_or_create-rows chain agent_id s fresh) [
      | inl old ↦ own_indexes_same s.db u own old
      | inr grown ↦ own_indexes_insert chain agent_id s.db u own grown
    ]
