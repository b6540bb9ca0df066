-- ===== src/Deadlines/Drained.antt =====
-- The consumer empties the queue of what is due.
use agent_repository.Common.{
  ap, ℕ, zero, suc, ◌≤◌, ◌<◌, ◌≡◌, refl, ◌∙◌, true, none, some, ◌⊎◌, inl, inr, Option-cases,
  Bool-cases, List, [], ◌∷◌, Dict, contains, lookup, erase, length, ltb, arith,
}
use agent_repository.Session.{Session, close}
use agent_repository.Escrow.{abort_job}
use agent_repository.Api.{fail_overdue_job}
use agent_repository.Deadlines.{
  earliest, is_before, take_entry, handle_entry, consume, run_deadline_consumer,
}

-- Every entry of the queue is later than the time.
abbrev pub NoneDue : ℕ → Dict ℕ → Type 0
NoneDue now [] = Unit
NoneDue now ((k, t) ∷ d) = (now < t) × NoneDue now d

NoneDue-erase : (now k : ℕ) (d : Dict ℕ) → NoneDue now d → NoneDue now (erase k d)
unfolding erase
NoneDue-erase now k [] h = tt
NoneDue-erase now k ((j, t) ∷ d) h = ground (arith, NoneDue-erase now k d h.1)

length-erase : (k : ℕ) (d : Dict ℕ) → length (erase k d) ≤ length d
unfolding erase
length-erase k [] = omega arith
length-erase k ((j, t) ∷ d) = ground (arith, length-erase k d)

length-erase-contains : (k : ℕ) (d : Dict ℕ) → contains k d ≡ true → length (erase k d) < length d
unfolding erase lookup
length-erase-contains k [] h = ground arith
length-erase-contains k ((j, t) ∷ d) h = ground (arith, length-erase-contains k d, length-erase k d)

earliest-contains : (k t : ℕ) (d : Dict ℕ) → earliest d ≡ some (k, t) → contains k d ≡ true
unfolding earliest lookup is_before
earliest-contains k t [] h = ground arith
earliest-contains k t ((j, u) ∷ d) h = ground (arith, earliest-contains k t d)

earliest-none : (now : ℕ) (d : Dict ℕ) → earliest d ≡ none → NoneDue now d
unfolding earliest
earliest-none now [] h = tt
earliest-none now (x ∷ d) h = ground arith

earliest-NoneDue : (now k t : ℕ) (d : Dict ℕ) → earliest d ≡ some (k, t) → now < t → NoneDue now d
unfolding earliest is_before
earliest-NoneDue now k t [] h late = tt
earliest-NoneDue now k t ((j, u) ∷ d) h late = elim (Option-cases (earliest d)) [
  | inl empty ↦ ground (arith, earliest-none now d empty)
  | inr ((i, v), first) ↦ ground (arith, earliest-NoneDue now i v d first)
]

-- The enforcement of a deadline takes at most that job's entry off the queue.
fail_overdue_job-deadlines :
    (job_id : ℕ) (s : Session)
    → ((fail_overdue_job job_id s).1.env ≡ s.env)
      × (((fail_overdue_job job_id s).1.redis.deadlines ≡ s.redis.deadlines)
          ⊎ ((fail_overdue_job job_id s).1.redis.deadlines ≡ erase job_id s.redis.deadlines))
unfolding fail_overdue_job abort_job
fail_overdue_job-deadlines job_id s = ground arith

-- A round keeps the environment, and takes what it handles off the queue.
take_entry-deadlines :
    (job_id : ℕ) (s : Session)
    → contains job_id s.redis.deadlines ≡ true
    → ((take_entry job_id s).env ≡ s.env)
      × (((take_entry job_id s).redis.deadlines ≡ erase job_id s.redis.deadlines)
          ⊎ ((take_entry job_id s).redis.deadlines ≡ erase job_id (erase job_id s.redis.deadlines)))
unfolding take_entry
take_entry-deadlines job_id s there =
    let r = record s.redis { deadlines = erase job_id s.redis.deadlines } in
    rw there (fail_overdue_job-deadlines job_id (close (record s { redis = r })))

-- Nothing due is left, or at most so many entries are.
abbrev DrainedBy : ℕ → ℕ → Dict ℕ → Type 0
DrainedBy now n d = NoneDue now d ⊎ (length d ≤ n)

erase-DrainedBy :
    (now n k : ℕ) (d : Dict ℕ)
    → DrainedBy now (suc n) d
    → contains k d ≡ true
    → DrainedBy now n (erase k d)
erase-DrainedBy now n k d (inl clear) there = inl (NoneDue-erase now k d clear)
erase-DrainedBy now n k d (inr few) there =
    let shorter = length-erase-contains k d there in inr (omega arith)

erase_again-DrainedBy : (now n k : ℕ) (d : Dict ℕ) → DrainedBy now n d → DrainedBy now n (erase k d)
erase_again-DrainedBy now n k d (inl clear) = inl (NoneDue-erase now k d clear)
erase_again-DrainedBy now n k d (inr few) = let shorter = length-erase k d in inr (omega arith)

take_entry-DrainedBy :
    (now n k : ℕ) (s : Session)
    → contains k s.redis.deadlines ≡ true
    → DrainedBy now (suc n) s.redis.deadlines
    → DrainedBy now n (take_entry k s).redis.deadlines
take_entry-DrainedBy now n k s there h =
    let once = erase-DrainedBy now n k s.redis.deadlines h there in
    elim (take_entry-deadlines k s there).1 [
      | inl e ↦ rw e once
      | inr e ↦ rw e (erase_again-DrainedBy now n k (erase k s.redis.deadlines) once)
    ]

consume-DrainedBy :
    (due now n : ℕ) (s : Session)
    → s.env.redis_up ≡ true
    → due ≤ now
    → DrainedBy due (suc n) s.redis.deadlines
    → ((consume now s).env ≡ s.env) × DrainedBy due n (consume now s).redis.deadlines
unfolding consume handle_entry
consume-DrainedBy due now n s up past h = elim (Option-cases (earliest s.redis.deadlines)) [
  | inl empty ↦
      let e : consume now s ≡ s = ground arith in
      rw e (refl, inl (earliest-none due s.redis.deadlines empty))
  | inr ((k, t), first) ↦ elim (Bool-cases (ltb now t)) [
    | inl later ↦
        let e : consume now s ≡ s = ground arith in
        rw e (refl, inl (earliest-NoneDue due k t s.redis.deadlines first (ground arith)))
    | inr ripe ↦
        let e : consume now s ≡ take_entry k s = ground arith in
        let there = earliest-contains k t s.redis.deadlines first in
        rw e ((take_entry-deadlines k s there).0, take_entry-DrainedBy due n k s there h)
  ]
]

abbrev pub AllPast : ℕ → List ℕ → Type 0
AllPast due [] = Unit
AllPast due (now ∷ nows) = (due ≤ now) × AllPast due nows

run_deadline_consumer-DrainedBy :
    (due n : ℕ) (nows : List ℕ) (s : Session)
    → n ≡ length nows
    → s.env.redis_up ≡ true
    → AllPast due nows
    → DrainedBy due n s.redis.deadlines
    → DrainedBy due 0 (run_deadline_consumer nows s).redis.deadlines
unfolding run_deadline_consumer
run_deadline_consumer-DrainedBy due zero [] s e up past h = h
run_deadline_consumer-DrainedBy due (suc n) [] s e up past h = absurd (omega arith)
run_deadline_consumer-DrainedBy due zero (now ∷ nows) s e up past h = absurd (omega arith)
run_deadline_consumer-DrainedBy due (suc n) (now ∷ nows) s e up past h =
    let one = consume-DrainedBy due now n s up past.0 h in
    run_deadline_consumer-DrainedBy due n nows (consume now s) (omega arith)
      (ap (λ env. env.redis_up) one.0 ∙ up) past.1 one.1

drained : (due : ℕ) (d : Dict ℕ) → DrainedBy due 0 d → NoneDue due d
drained due [] h = tt
drained due (x ∷ d) (inl clear) = clear
drained due (x ∷ d) (inr few) = absurd (omega arith)

-- While Redis answers, and if every round is at the time `due` or later, as many rounds of the
-- consumer as the queue has entries leave no entry that is due.
pub run_deadline_consumer-NoneDue :
    (due : ℕ) (nows : List ℕ) (s : Session)
    → s.env.redis_up ≡ true
    → AllPast due nows
    → length s.redis.deadlines ≤ length nows
    → NoneDue due (run_deadline_consumer nows s).redis.deadlines
run_deadline_consumer-NoneDue due nows s up past enough =
    drained due _
      (run_deadline_consumer-DrainedBy due (length nows) nows s refl up past (inr enough))
