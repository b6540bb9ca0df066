-- ===== src/Admin/Forced.antt =====
-- A forced refund moves the money of the escrow back, and no operation pays it out again.
use agent_repository.Common.{
  ℕ, Bool, pos, ◌≤ℤ◌, ◌+ℤ◌, ◌≡◌, refl, true, some, HasKeys, lookup, contains, find_row,
  find_row-lookup, lookup-adjust, adjust, sum_by, arith,
}
use agent_repository.Models.{Db, Escrow, EscrowStatus}
use agent_repository.Session.{⊤, Session, Result, ok, err}
use agent_repository.Escrow.{set_escrow_status, release_escrow, refund_escrow, abort_job}
use agent_repository.Escrow.Specs.{Commits, repaid}
use agent_repository.Escrow.Money.{
  funds, balances, held, out_of_escrow, sum_repaid, sum_closed, Commits-map,
}
use agent_repository.Admin.{has_escrow_id, force_refund_escrow}

-- What a forced refund that succeeds has written.
abbrev ForcesAs : Db → ℕ → Escrow → Db → Type 0
ForcesAs d job_id e u =
    (e.status ≡ EscrowStatus.funded)
    × (u.jobs ≡ d.jobs)
    × (u.escrows ≡ adjust job_id (set_escrow_status EscrowStatus.refunded) d.escrows)
    × (u.agents ≡ repaid d e)

force_refund_escrow-ForcesAs :
    (escrow_id job_id : ℕ) (s : Session) (e : Escrow)
    → find_row (has_escrow_id escrow_id) s.db.escrows ≡ some (job_id, e)
    → Commits s (ForcesAs s.db job_id e) (force_refund_escrow escrow_id s)
unfolding force_refund_escrow
force_refund_escrow-ForcesAs escrow_id job_id s e found = ground arith

-- For the escrow with the id, of a client and a seller that exist and with a bond that is not
-- negative: a forced refund commits tables with the same money in balances and funded escrows
-- together, and the jobs as they were; if it raises it has committed nothing.
pub force_refund_escrow-funds :
    (escrow_id job_id : ℕ) (s : Session) (e : Escrow)
    → HasKeys s.db.escrows
    → find_row (has_escrow_id escrow_id) s.db.escrows ≡ some (job_id, e)
    → contains e.client_agent_id s.db.agents ≡ true
    → contains e.seller_agent_id s.db.agents ≡ true
    → pos 0 ≤ℤ e.seller_bond_amount
    → Commits s
        (λ u. (funds u ≡ funds s.db) × (u.jobs ≡ s.db.jobs))
        (force_refund_escrow escrow_id s)
force_refund_escrow-funds escrow_id job_id s e keys found client seller sign =
    let row = find_row-lookup (has_escrow_id escrow_id) job_id e s.db.escrows keys found in
    Commits-map s (ForcesAs s.db job_id e) (λ u. (funds u ≡ funds s.db) × (u.jobs ≡ s.db.jobs))
      (force_refund_escrow escrow_id s)
      (λ u h. (
        rw (h.3, h.2)
            (out_of_escrow (balances (repaid s.db e)) (balances s.db.agents)
              (e.amount +ℤ e.seller_bond_amount) _ (sum_by held s.db.escrows)
              (sum_repaid s.db e client seller sign)
              (sum_closed job_id EscrowStatus.refunded e s.db.escrows row h.0 refl)),
        h.1,
      ))
      (force_refund_escrow-ForcesAs escrow_id job_id s e found)

-- An operation that raises and leaves what is committed.
abbrev pub Refused : Session → Result ⊤ × Session → Type 0
Refused s (ok _, t) = ⊥
Refused s (err e, t) = t.committed ≡ s.committed

module _ (job_id : ℕ) (s : Session) (e : Escrow) (at : lookup job_id s.db.escrows ≡ some e)
    (closed : e.status ≡ EscrowStatus.refunded) where
  release-Refused : Refused s (release_escrow job_id s)
  unfolding release_escrow
  release-Refused = ground arith

  refund-Refused : Refused s (refund_escrow job_id s)
  unfolding refund_escrow
  refund-Refused = ground arith

  abort-Refused : (by : ℕ) (late : Bool) → Refused s (abort_job job_id by late s)
  unfolding abort_job
  abort-Refused by late = ground arith

-- The escrow's payouts are all refused.
abbrev pub Closed : ℕ → Session → Type 0
Closed job_id t =
    Refused t (release_escrow job_id t)
    × Refused t (refund_escrow job_id t)
    × ((by : ℕ) (late : Bool) → Refused t (abort_job job_id by late t))

Closed-after :
    (job_id : ℕ) (s : Session) (e : Escrow) (p : Result ⊤ × Session)
    → p.0 ≡ ok tt
    → lookup job_id s.db.escrows ≡ some e
    → Commits s (ForcesAs s.db job_id e) p
    → Closed job_id p.1
Closed-after job_id s e (err x, t) success at h = absurd (ground arith)
Closed-after job_id s e (ok _, t) success at h =
    let gone = set_escrow_status EscrowStatus.refunded e in
    let there : lookup job_id t.db.escrows ≡ some gone = rw (h.2.2) (
      ground (
        arith,
        lookup-adjust job_id job_id (set_escrow_status EscrowStatus.refunded) s.db.escrows,
      )) in
    (
      release-Refused job_id t gone there refl,
      refund-Refused job_id t gone there refl,
      abort-Refused job_id t gone there refl,
    )

-- After a forced refund, release, refund and abort of the escrow are refused.
force_refund_escrow-once :
    (escrow_id job_id : ℕ) (s : Session) (e : Escrow)
    → HasKeys s.db.escrows
    → find_row (has_escrow_id escrow_id) s.db.escrows ≡ some (job_id, e)
    → (force_refund_escrow escrow_id s).0 ≡ ok tt
    → Closed job_id (force_refund_escrow escrow_id s).1
force_refund_escrow-once escrow_id job_id s e keys found success =
    Closed-after job_id s e (force_refund_escrow escrow_id s) success
      (find_row-lookup (has_escrow_id escrow_id) job_id e s.db.escrows keys found)
      (force_refund_escrow-ForcesAs escrow_id job_id s e found)
