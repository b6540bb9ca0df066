-- ===== src/Hosting/Contained/Wakes.antt =====
-- Waking and sleeping leave a container where there has to be one.
use agent_repository.Common.{
  ℕ, ◌≡◌, refl, Bool, true, false, ◌&&◌, Option, none, some, [], ◌∷◌, lookup, is_some, Dict,
  lookup-adjust, adjust, map_some, arith, sym, ap, subst, if◌then◌else◌,
}
use agent_repository.Models.{HostedAgent, DeploymentStatus}
use agent_repository.Session.{Session, Action, ⊤, ◌>>◌, pure, commit, when}
use agent_repository.Session.Preserved.{Preserves, bind-Preserves, when-Preserves}
use agent_repository.Webhooks.{
  connect, settle_container, start_container, wake_status, wake_row, wake_agent, woken,
  write_hosted,
}
use agent_repository.Common.Text.{Text}
use agent_repository.Hosting.Deploy.{new_session}
use agent_repository.Hosting.Scaler.{
  asleep, is_running, is_idle, can_sleep, sleep_agent, sleep_row, sleep_idle, idle_pass,
}
use agent_repository.Hosting.Contained.{
  HasContainer, RowHas, Sound, Safe, adjust-Contained, write_hosted-Safe,
}

-- The row, if there is one, has a container.
abbrev RowFull : Option HostedAgent → Type 0
RowFull none = Unit
RowFull (some h) = is_some h.container_id ≡ true

woken-container :
    (awake : Bool) (e : Text) (h : HostedAgent) → (woken awake e h).container_id ≡ h.container_id
unfolding woken
woken-container true e h = refl
woken-container false e h = refl

-- The invariant, while the row of this agent has a container.
abbrev Held : ℕ → Session → Type 0
Held k s = Sound s × RowFull (lookup k s.db.hosted)

full-HasContainer : (h : HostedAgent) → is_some h.container_id ≡ true → HasContainer h
full-HasContainer h full = ground (arith, full)

map-RowFull :
    (o : Option HostedAgent) (f : HostedAgent → HostedAgent)
    → ((h : HostedAgent) → (f h).container_id ≡ h.container_id)
    → RowFull o
    → RowFull (map_some f o)
map-RowFull none f same full = full
map-RowFull (some h) f same full = rw (same h) full

write_hosted-Held :
    (k : ℕ) (f : HostedAgent → HostedAgent)
    → ((h : HostedAgent) → (f h).container_id ≡ h.container_id)
    → Preserves (Held k) (write_hosted k f)
write_hosted-Held k f same s ((d, c), full) =
    let new_row : lookup k (adjust k f s.db.hosted) ≡ map_some f (lookup k s.db.hosted) =
      ground (arith, lookup-adjust k k f s.db.hosted) in
    let keep : (h : HostedAgent)
        → lookup k s.db.hosted ≡ some h
        → HasContainer h
        → HasContainer (f h) =
      λ h e _.
        full-HasContainer (f h)
          (subst RowFull (ap (map_some f) e) (map-RowFull (lookup k s.db.hosted) f same full)) in
    (
      (adjust-Contained s.db.hosted k f keep d, c),
      subst RowFull (sym new_row) (map-RowFull (lookup k s.db.hosted) f same full),
    )

commit-Held : (k : ℕ) → Preserves (Held k) commit
commit-Held k s ((d, c), full) = ((d, d), full)

settle_container-Held : (k : ℕ) (awake : Bool) → Preserves (Held k) (settle_container k awake)
unfolding settle_container
settle_container-Held k awake s j =
    let f = woken awake (s.env.wake_error k) in
    commit-Held k (write_hosted k f s).1
      (write_hosted-Held k f (woken-container awake (s.env.wake_error k)) s j)

start_container-Held : (k : ℕ) → Preserves (Held k) (start_container k)
unfolding start_container
start_container-Held k s j =
    let f : HostedAgent → HostedAgent =
      λ h. record h { status = DeploymentStatus.deploying; last_activity_at = some s.env.now } in
    let c = if s.env.wakes k then s.env.connects k else false in
    let t = (commit (write_hosted k f s).1).1 in
    bind-Preserves (Held k) (when c (connect k)) (λ _. settle_container k (s.env.wakes k))
      (when-Preserves (Held k) c (connect k) (λ u i. i))
      (λ _. settle_container-Held k (s.env.wakes k)) t
      (commit-Held k (write_hosted k f s).1 (write_hosted-Held k f (λ h. refl) s j))

-- What the waking of a row in this status needs.
abbrev Needs : DeploymentStatus → Option HostedAgent → Type 0
Needs DeploymentStatus.sleeping o = RowFull o
Needs _ o = Unit

HasContainer-Needs : (h : HostedAgent) → HasContainer h → Needs h.status (some h)
HasContainer-Needs h has = ground (arith, has)

wake_status-Sound :
    (k : ℕ) (st : DeploymentStatus) (s : Session)
    → Needs st (lookup k s.db.hosted)
    → Sound s
    → Sound (wake_status k st s).1
unfolding wake_status
wake_status-Sound k DeploymentStatus.sleeping s full i = (start_container-Held k s (i, full)).0
wake_status-Sound k DeploymentStatus.running s full i =
    write_hosted-Safe k (λ h. record h { last_activity_at = some s.env.now }) (λ h has. has) s i
wake_status-Sound k _ s full i = i

wake_row-Sound :
    (k : ℕ) (o : Option HostedAgent) (s : Session)
    → lookup k s.db.hosted ≡ o
    → Sound s
    → Sound (wake_row k o s).1
unfolding wake_row
wake_row-Sound k none s e i = i
wake_row-Sound k (some h) s e (d, c) =
    let has : HasContainer h = subst RowHas e (d k) in
    wake_status-Sound k h.status s (subst (Needs h.status) (sym e) (HasContainer-Needs h has))
      (d, c)

pub wake_agent-Safe : (k : ℕ) → Safe (wake_agent k)
unfolding wake_agent
wake_agent-Safe k s i = wake_row-Sound k (lookup k s.db.hosted) s refl i

can_sleep-HasContainer :
    (stops : ℕ → Bool) (k : ℕ) (h : HostedAgent)
    → can_sleep stops k (some h) ≡ true
    → HasContainer h
    → HasContainer (asleep h)
unfolding can_sleep is_running
can_sleep-HasContainer stops k h can has = ground (arith, can, has)

sleeps_if :
    (c : Bool) (k : ℕ) (s : Session)
    → (c ≡ true
        → (h : HostedAgent) → lookup k s.db.hosted ≡ some h
        → HasContainer h
        → HasContainer (asleep h))
    → Sound s
    → Sound ((when c (do write_hosted k asleep; commit) >> pure c) s).1
sleeps_if true k s keep (d, c) =
    let all = adjust-Contained s.db.hosted k asleep (keep refl) d in (all, all)
sleeps_if false k s keep i = i

sleep_agent-Safe : (stops : ℕ → Bool) (k : ℕ) → Safe (sleep_agent stops k)
unfolding sleep_agent
sleep_agent-Safe stops k s i =
    sleeps_if (can_sleep stops k (lookup k s.db.hosted)) k s
      (λ can h e. can_sleep-HasContainer stops k h (subst (λ o. can_sleep stops k o ≡ true) e can))
      i

sleep_row-Safe : (stops : ℕ → Bool) (now k : ℕ) (h : HostedAgent) → Safe (sleep_row stops now k h)
unfolding sleep_row
sleep_row-Safe stops now k h =
    let sleeps : Action ⊤ = (do sleep_agent stops k; pure tt) in
    when-Preserves Sound (is_running h.status && h.scale_to_zero && is_idle now h) sleeps (
      bind-Preserves Sound (sleep_agent stops k) (λ _. pure tt) (sleep_agent-Safe stops k)
        (λ _ s i. i))

sleep_idle-Safe :
    (stops : ℕ → Bool) (now : ℕ) (rows : Dict HostedAgent) → Safe (sleep_idle stops now rows)
unfolding sleep_idle
sleep_idle-Safe stops now [] = λ s i. i
sleep_idle-Safe stops now ((k, h) ∷ rows) =
    bind-Preserves Sound (sleep_row stops now k h) (λ _. sleep_idle stops now rows)
      (sleep_row-Safe stops now k h) (λ _. sleep_idle-Safe stops now rows)

pub idle_pass-Safe : (stops : ℕ → Bool) → Safe (idle_pass stops)
unfolding idle_pass
idle_pass-Safe stops s (d, c) =
    sleep_idle-Safe stops s.env.now s.committed.hosted (new_session s).1 (c, c)
