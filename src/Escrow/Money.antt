-- ===== src/Escrow/Money.antt =====
-- The money in the marketplace: what agents hold, and what funded escrows hold for them.
use agent_repository.Common.{
  ℕ, ℤ, pos, ◌+ℤ◌, ◌-ℤ◌, ◌≤ℤ◌, ◌≡◌, ◌∙◌, refl, Bool, true, false, some, inl, inr, Option-cases,
  Bool-cases, Dict, lookup, contains, is_some, adjust, sum_by, sum_by-insert, sum_by-adjust,
  lookup-adjust, int_laws, arith, ltb_ℤ, if◌then◌else◌,
}
use agent_repository.Models.{Db, Agent, Job, Escrow, EscrowStatus}
use agent_repository.Settings.{Settings}
use agent_repository.Fees.{calculate_base_fee}
use agent_repository.Session.{⊤, Session, Result, ok, err}
use agent_repository.Escrow.{credit, debit, can_pay, new_escrow, set_escrow_status}
use agent_repository.Escrow.Specs.{
  Commits, bonded, seller_payout, fee_paid, aborted, repaid, FundsAs,
}

-- What a funded escrow holds.
abbrev pub held : Escrow → ℤ
held e = elim e.status [ EscrowStatus.funded ↦ e.amount +ℤ e.seller_bond_amount | _ ↦ pos 0 ]

abbrev pub balances : Dict Agent → ℤ
balances agents = sum_by Agent.balance agents

abbrev pub funds : Db → ℤ
funds d = balances d.agents +ℤ sum_by held d.escrows

pub Commits-map :
    (s : Session) (P Q : Db → Type 0) (p : Result ⊤ × Session)
    → ((u : Db) → P u → Q u)
    → Commits s P p
    → Commits s Q p
Commits-map s P Q (ok x, t) f h = (h.0, h.1, f t.db h.2)
Commits-map s P Q (err e, t) f h = h

pub contains-adjust :
    (j k : ℕ) (f : Agent → Agent) (agents : Dict Agent)
    → contains j (adjust k f agents) ≡ contains j agents
contains-adjust j k f agents = ground (arith, lookup-adjust j k f agents)

sum_credit :
    (k : ℕ) (x : ℤ) (agents : Dict Agent)
    → contains k agents ≡ true
    → balances (adjust k (credit x) agents) ≡ balances agents +ℤ x
sum_credit k x agents there = elim (Option-cases (lookup k agents)) [
  | inl gone ↦ ground arith
  | inr (a, found) ↦ grind (int_laws, sum_by-adjust Agent.balance k (credit x) a agents found)
]

sum_debit :
    (k : ℕ) (x : ℤ) (agents : Dict Agent)
    → contains k agents ≡ true
    → balances (adjust k (debit x) agents) +ℤ x ≡ balances agents
sum_debit k x agents there = elim (Option-cases (lookup k agents)) [
  | inl gone ↦ ground arith
  | inr (a, found) ↦ grind (int_laws, sum_by-adjust Agent.balance k (debit x) a agents found)
]

-- A funded escrow that is closed holds nothing any more.
pub sum_closed :
    (k : ℕ) (st : EscrowStatus) (e : Escrow) (escrows : Dict Escrow)
    → lookup k escrows ≡ some e
    → e.status ≡ EscrowStatus.funded
    → held (set_escrow_status st e) ≡ pos 0
    → sum_by held (adjust k (set_escrow_status st) escrows) +ℤ (e.amount +ℤ e.seller_bond_amount)
      ≡ sum_by held escrows
sum_closed k st e escrows found live closed =
    let full : held e ≡ e.amount +ℤ e.seller_bond_amount = ground arith in
    grind (int_laws, sum_by-adjust held k (set_escrow_status st) e escrows found)

pub sum_aborted :
    (d : Db) (job : Job) (e : Escrow) (by_client : Bool)
    → contains e.client_agent_id d.agents ≡ true
    → contains e.seller_agent_id d.agents ≡ true
    → balances (aborted d job e by_client) ≡ balances d.agents +ℤ (e.amount +ℤ e.seller_bond_amount)
sum_aborted d job e true c w =
    let p = job.client_abort_penalty in
    let first = adjust e.client_agent_id (credit (e.amount -ℤ p)) d.agents in
    grind (
      int_laws,
      sum_credit e.client_agent_id (e.amount -ℤ p) d.agents c,
      sum_credit e.seller_agent_id (p +ℤ e.seller_bond_amount) first (
          contains-adjust e.seller_agent_id e.client_agent_id (credit (e.amount -ℤ p)) d.agents
          ∙ w),
    )
sum_aborted d job e false c w =
    sum_credit e.client_agent_id (e.amount +ℤ e.seller_bond_amount) d.agents c

-- What goes out of the agents' balances is what goes into the escrows, or the reverse.
pub out_of_escrow : (a b x m n : ℤ) → a ≡ b +ℤ x → m +ℤ x ≡ n → a +ℤ m ≡ b +ℤ n
out_of_escrow a b x m n p q = grind int_laws

into_escrow : (a b x m n : ℤ) → a +ℤ x ≡ b → m ≡ n +ℤ x → a +ℤ m ≡ b +ℤ n
into_escrow a b x m n p q = grind int_laws

no_bond : (x : ℤ) → pos 0 ≤ℤ x → ltb_ℤ (pos 0) x ≡ false → x ≡ pos 0
no_bond x sign h = ground arith

sum_bonded :
    (job : Job) (agents : Dict Agent)
    → pos 0 ≤ℤ job.seller_abort_penalty
    → (ltb_ℤ (pos 0) job.seller_abort_penalty ≡ true → contains job.seller_agent_id agents ≡ true)
    → balances (bonded job agents) +ℤ job.seller_abort_penalty ≡ balances agents
sum_bonded job agents sign there = elim (Bool-cases (ltb_ℤ (pos 0) job.seller_abort_penalty)) [
  | inl bond ↦ rw bond (sum_debit job.seller_agent_id job.seller_abort_penalty agents (there bond))
  | inr none_due ↦
      let zero_now = no_bond job.seller_abort_penalty sign none_due in
      rw none_due (grind (int_laws, zero_now))
]

contains-bonded :
    (j : ℕ) (job : Job) (agents : Dict Agent) → contains j (bonded job agents) ≡ contains j agents
contains-bonded j job agents =
    ground (arith, contains-adjust j job.seller_agent_id (debit job.seller_abort_penalty) agents)

pub sum_funded :
    (d : Db) (escrow_id job_id : ℕ) (job : Job) (amount : ℤ) (u : Db)
    → pos 0 ≤ℤ job.seller_abort_penalty
    → FundsAs d escrow_id job_id job amount u
    → funds u ≡ funds d
unfolding new_escrow
sum_funded d escrow_id job_id job amount u sign h = elim (Option-cases (lookup job_id d.escrows)) [
  | inr (e, there) ↦ ground (arith, h.2)
  | inl free ↦
      let paid =
        sum_debit job.client_agent_id amount (bonded job d.agents)
          (contains-bonded job.client_agent_id job d.agents ∙ h.3) in
      let bond = sum_bonded job d.agents sign h.4 in
      rw (h.7, h.6)
        (into_escrow (balances (adjust job.client_agent_id (debit amount) (bonded job d.agents)))
          (balances d.agents) (amount +ℤ job.seller_abort_penalty) _ (sum_by held d.escrows)
          (grind (int_laws, paid, bond))
          (sum_by-insert held job_id (new_escrow escrow_id job amount) d.escrows free))
]

-- What the platform keeps of a released escrow: the seller's share, and the client's if paid.
abbrev pub revenue : Db → Settings → Escrow → ℤ
revenue d cfg e =
    let (client_fee, seller_fee) = calculate_base_fee cfg e.amount in
    if can_pay client_fee (lookup e.client_agent_id d.agents)
    then client_fee +ℤ seller_fee
    else seller_fee

contains-can_pay :
    (x : ℤ) (k : ℕ) (agents : Dict Agent)
    → can_pay x (lookup k agents) ≡ true
    → contains k agents ≡ true
contains-can_pay x k agents h = ground arith

sum_fee_paid :
    (d : Db) (cfg : Settings) (e : Escrow)
    → balances (fee_paid d cfg e) +ℤ revenue d cfg e
      ≡ balances d.agents +ℤ (calculate_base_fee cfg e.amount).1
sum_fee_paid d cfg e =
    let fee = (calculate_base_fee cfg e.amount).0 in
    elim (Bool-cases (can_pay fee (lookup e.client_agent_id d.agents))) [
      | inl pays ↦
          let taken =
            sum_debit e.client_agent_id fee d.agents
              (contains-can_pay fee e.client_agent_id d.agents pays) in
          rw pays (grind (int_laws, taken))
      | inr free ↦ rw free refl
    ]

pub sum_released :
    (d : Db) (cfg : Settings) (e : Escrow)
    → is_some (lookup e.seller_agent_id (fee_paid d cfg e)) ≡ true
    → balances (adjust e.seller_agent_id (credit (seller_payout cfg e)) (fee_paid d cfg e))
        +ℤ revenue d cfg e
      ≡ balances d.agents +ℤ (e.amount +ℤ e.seller_bond_amount)
sum_released d cfg e there =
    let all =
      balances (adjust e.seller_agent_id (credit (seller_payout cfg e)) (fee_paid d cfg e)) in
    shares all (balances (fee_paid d cfg e)) (revenue d cfg e) (balances d.agents)
      (calculate_base_fee cfg e.amount).1 e.amount e.seller_bond_amount
      (sum_credit e.seller_agent_id (seller_payout cfg e) (fee_paid d cfg e) there)
      (sum_fee_paid d cfg e)
  where
    shares :
        (all b r n f a y : ℤ)
        → all ≡ b +ℤ (a -ℤ f +ℤ y)
        → b +ℤ r ≡ n +ℤ f
        → all +ℤ r ≡ n +ℤ (a +ℤ y)
    shares all b r n f a y p q = grind int_laws

pub sum_repaid :
    (d : Db) (e : Escrow)
    → contains e.client_agent_id d.agents ≡ true
    → contains e.seller_agent_id d.agents ≡ true
    → pos 0 ≤ℤ e.seller_bond_amount
    → balances (repaid d e) ≡ balances d.agents +ℤ (e.amount +ℤ e.seller_bond_amount)
sum_repaid d e c w sign =
    let first = adjust e.client_agent_id (credit e.amount) d.agents in
    let client = sum_credit e.client_agent_id e.amount d.agents c in
    elim (Bool-cases (ltb_ℤ (pos 0) e.seller_bond_amount)) [
      | inl bond ↦
          let seller =
            sum_credit e.seller_agent_id e.seller_bond_amount first (
              contains-adjust e.seller_agent_id e.client_agent_id (credit e.amount) d.agents ∙ w) in
          rw bond (grind (int_laws, client, seller))
      | inr none_due ↦
          let zero_now = no_bond e.seller_bond_amount sign none_due in
          rw none_due (grind (int_laws, client, zero_now))
    ]
