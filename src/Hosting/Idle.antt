-- ===== src/Hosting/Idle.antt =====
-- Which agents a turn of the idle monitor puts to sleep.
use agent_repository.Common.{
  ℕ, ◌==◌, ==_refl, ◌≡◌, refl, sym, subst, ◌∙◌, Bool, true, false, ◌&&◌, Option, none, some, [],
  ◌∷◌, Dict, lookup, contains, map_some, adjust, ap, HasKeys, lookup-adjust, arith, if◌then◌else◌,
}
use agent_repository.Models.{HostedAgent}
use agent_repository.Session.{Session, ok, ⊤, Action, when, pure, commit, close, ◌>>◌}
use agent_repository.Session.Preserved.{after}
use agent_repository.Webhooks.{write_hosted}
use agent_repository.Hosting.Scaler.{
  is_running, is_idle, can_sleep, asleep, sleep_agent, sleep_row, sleep_idle, idle_pass,
}

-- A row that runs, may be scaled to zero and has been idle too long sleeps if its container stops,
-- and any other stays as it is.
abbrev pub settled : (ℕ → Bool) → ℕ → ℕ → HostedAgent → HostedAgent
settled stops now k h =
    if is_running h.status && h.scale_to_zero && is_idle now h && stops k then asleep h else h

abbrev slept : ℕ → Session → Session
slept k s = record s {
  db = record s.db { hosted = adjust k asleep s.db.hosted };
  committed = record s.db { hosted = adjust k asleep s.db.hosted };
}

sleep_if :
    (c : Bool) (k : ℕ) (s : Session)
    → ((when c (do write_hosted k asleep; commit)) >> pure c) s ≡ (ok c, if c then slept k s else s)
sleep_if true k s = refl
sleep_if false k s = refl

sleep_agent-slept :
    (stops : ℕ → Bool) (k : ℕ) (h : HostedAgent) (s : Session)
    → lookup k s.db.hosted ≡ some h
    → let c = is_running h.status && stops k in
      sleep_agent stops k s ≡ (ok c, if c then slept k s else s)
unfolding sleep_agent can_sleep
sleep_agent-slept stops k h s row =
    sleep_if (can_sleep stops k (lookup k s.db.hosted)) k s
    ∙ ap (λ o. let c = can_sleep stops k o in (ok c, if c then slept k s else s)) row

quiet_if :
    (c d : Bool) (m : Action Bool) (s t : Session)
    → m s ≡ (ok d, if d then t else s)
    → (when c (do m; pure tt)) s ≡ (ok tt, if c && d then t else s)
quiet_if true d m s t e = ap (λ p. after p (λ _. pure tt)) e
quiet_if false d m s t e = refl

sleep_row-slept :
    (stops : ℕ → Bool) (now k : ℕ) (h : HostedAgent) (s : Session)
    → lookup k s.db.hosted ≡ some h
    → sleep_row stops now k h s ≡ (
      ok tt,
      if (is_running h.status && h.scale_to_zero && is_idle now h)
            && (is_running h.status && stops k)
          then slept k s
          else s,
    )
unfolding sleep_row
sleep_row-slept stops now k h s row =
    quiet_if (is_running h.status && h.scale_to_zero && is_idle now h)
      (is_running h.status && stops k) (sleep_agent stops k) s (slept k s)
      (sleep_agent-slept stops k h s row)

slept-Settles :
    (runs scales idle stops : Bool) (now k j : ℕ) (h : HostedAgent) (s : Session)
    → lookup k s.db.hosted ≡ some h
    → let t = if (runs && scales && idle) && (runs && stops) then slept k s else s in
      (lookup j t.db.hosted ≡ (
        if j == k
        then some (if runs && scales && idle && stops then asleep h else h)
        else lookup j s.db.hosted))
      × (s.committed ≡ s.db → t.committed ≡ t.db)
slept-Settles runs scales idle stops now k j h s row =
    ground (arith, row, lookup-adjust j k asleep s.db.hosted)

-- What was found for agent `j`, and what is left of it.
abbrev Settled : (ℕ → Bool) → ℕ → ℕ → Option HostedAgent → Session → Session → Type 0
Settled stops now j found s t =
    (lookup j t.db.hosted
      ≡ (elim found [ some h ↦ some (settled stops now j h) | none ↦ lookup j s.db.hosted ]))
    × (s.committed ≡ s.db → t.committed ≡ t.db)

-- The rows that are still to be looked at are in the table.
abbrev InTable : Dict HostedAgent → Dict HostedAgent → Type 0
InTable [] d = Unit
InTable ((k, h) ∷ rows) d = (lookup k d ≡ some h) × InTable rows d

InTable-kept :
    (rows d u : Dict HostedAgent) (k : ℕ)
    → contains k rows ≡ false
    → ((j : ℕ) → (j == k) ≡ false → lookup j u ≡ lookup j d)
    → InTable rows d
    → InTable rows u
unfolding lookup
InTable-kept [] d u k apart same i = tt
InTable-kept ((j, h) ∷ rows) d u k apart same (at, i) =
    let differs : (j == k) ≡ false = ground (arith, apart) in
    (same j differs ∙ at, InTable-kept rows d u k (ground (arith, apart)) same i)

merge :
    (g : ℕ → HostedAgent → HostedAgent) (k j : ℕ) (h : HostedAgent) (rows : Dict HostedAgent)
    (a b c : Option HostedAgent)
    → contains k rows ≡ false
    → b ≡ (if j == k then some (g k h) else a)
    → c ≡ (elim (lookup j rows) [ some r ↦ some (g j r) | none ↦ b ])
    → c ≡ (elim (if j == k then some h else lookup j rows) [ some r ↦ some (g j r) | none ↦ a ])
merge g k j h rows a b c fresh one all = ground (arith, fresh, one, all)

then_settled :
    (stops : ℕ → Bool) (now k j : ℕ) (h : HostedAgent) (rows : Dict HostedAgent) (s t u : Session)
    → contains k rows ≡ false
    → (lookup j t.db.hosted
        ≡ (if j == k then some (settled stops now k h) else lookup j s.db.hosted))
      × (s.committed ≡ s.db → t.committed ≡ t.db)
    → Settled stops now j (lookup j rows) t u
    → Settled stops now j (lookup j ((k, h) ∷ rows)) s u
unfolding lookup
then_settled stops now k j h rows s t u fresh (one, c1) (all, c2) = (
  merge (settled stops now) k j h rows (lookup j s.db.hosted) (lookup j t.db.hosted)
      (lookup j u.db.hosted) fresh one all,
  λ e. c2 (c1 e),
)

InTable-all : (rows : Dict HostedAgent) → HasKeys rows → InTable rows rows
unfolding lookup
InTable-all [] keys = tt
InTable-all ((k, h) ∷ rows) (fresh, keys) = (
  ground (arith, ==_refl k),
  InTable-kept rows rows ((k, h) ∷ rows) k fresh (λ j apart. ground (arith, apart))
      (InTable-all rows keys),
)

sleep_idle-Settled :
    (stops : ℕ → Bool) (now : ℕ) (rows : Dict HostedAgent) (s : Session) (j : ℕ)
    → HasKeys rows
    → InTable rows s.db.hosted
    → Settled stops now j (lookup j rows) s (sleep_idle stops now rows s).1
unfolding sleep_idle lookup
sleep_idle-Settled stops now [] s j keys i = (refl, λ e. e)
sleep_idle-Settled stops now ((k, h) ∷ rows) s j (fresh, keys) (at, i) =
    let rest : ⊤ → Action ⊤ = λ _. sleep_idle stops now rows in
    let t =
      if (is_running h.status && h.scale_to_zero && is_idle now h)
        && (is_running h.status && stops k)
      then slept k s
      else s in
    let one = λ (i : ℕ).
      slept-Settles (is_running h.status) h.scale_to_zero (is_idle now h) (stops k) now k i h s
        at in
    let kept =
      InTable-kept rows s.db.hosted t.db.hosted k fresh
        (λ i apart. ground (arith, (one i).0, apart)) i in
    let all = sleep_idle-Settled stops now rows t j keys kept in
    subst (λ u. Settled stops now j (lookup j ((k, h) ∷ rows)) s u)
      (sym (ap (λ p. (after p rest).1) (sleep_row-slept stops now k h s at)))
      (then_settled stops now k j h rows s t (sleep_idle stops now rows t).1 fresh (one j) all)

found_settled :
    (g : HostedAgent → HostedAgent) (o : Option HostedAgent)
    → (p : Option HostedAgent) → o ≡ p
    → (elim o [ some h ↦ some (g h) | none ↦ p ]) ≡ map_some g o
found_settled g none p e = sym e
found_settled g (some h) p e = refl

-- If no agent has two rows: after a turn of the idle monitor the agents whose deployments ran,
-- may be scaled to zero, were idle for longer than their timeout and whose containers stop are
-- sleeping, and every other row is what it was; all of it is committed.
pub idle_pass-settled :
    (stops : ℕ → Bool) (s : Session) (j : ℕ)
    → HasKeys s.committed.hosted
    → lookup j (idle_pass stops s).1.committed.hosted
      ≡ map_some (settled stops s.env.now j) (lookup j s.committed.hosted)
unfolding idle_pass
idle_pass-settled stops s j keys =
    let rows = s.committed.hosted in
    let all = sleep_idle-Settled stops s.env.now rows (close s) j keys (InTable-all rows keys) in
    ap (λ d. lookup j d.hosted) (all.1 refl)
    ∙ all.0
    ∙ found_settled (settled stops s.env.now j) (lookup j rows) (lookup j rows) refl
