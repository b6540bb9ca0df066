-- ===== src/Admin.antt =====
-- app/routers/admin.py and app/auth/admin.py: the operator's key, and the writes that the operator
-- may force. What is read is in Admin/Lists and Admin/Stats; logging is left out.
pub mod Names
pub mod Lists
pub mod Stats
pub mod Forced
pub mod Keys
use agent_repository.Common.{
  ℕ, ℤ, pos, ◌+ℤ◌, ltb_ℤ, ◌==◌, Bool, true, false, not, ◌&&◌, ◌||◌, none, List, [], ◌∷◌, find_row,
  get_elem?, leb, ltb, if◌then◌else◌,
}
use agent_repository.Common.Text.{Text, eq_text, is_empty}
use agent_repository.Models.{Escrow, EscrowAction, EscrowStatus}
use agent_repository.Session.{
  ◌>>=◌, ◌>>◌, ⊤, Action, agent_not_found, not_found, bad_request, type_error, pure, raise, gets,
  or_raise, raise_if, when, commit, find_agent, get_job, write_agent, write_job, write_escrow,
}
use agent_repository.Escrow.{credit, set_escrow_status, set_job_status, log_audit, is_funded}
use agent_repository.Webhooks.Redelivery.{reset_delivery}
use agent_repository.Admin.Names.{of_value, agent_status_value, agent_status_all, parse_job_status}

-- `c.isspace()`
unfoldable pub is_space : ℕ → Bool
is_space c =
    (leb 9 c && leb c 13)
    || (leb 28 c && leb c 32)
    || (c == 133)
    || (c == 160)
    || (c == 5760)
    || (leb 8192 c && leb c 8202)
    || (c == 8232)
    || (c == 8233)
    || (c == 8239)
    || (c == 8287)
    || (c == 12288)

-- `t.strip()`, by its two ends
unfoldable pub strip_left : Text → Text
strip_left [] = []
strip_left (c ∷ t) = let rest = strip_left t in if is_space c then rest else c ∷ t

unfoldable pub strip_right : Text → Text
strip_right [] = []
strip_right (c ∷ t) = elim (strip_right t) [
  | [] ↦ if is_space c then [] else c ∷ []
  | d ∷ rest ↦ c ∷ d ∷ rest
]

unfoldable pub strip : Text → Text
unfolding strip_left strip_right
strip t = strip_right (strip_left t)

-- `t.split(c)`
unfoldable pub split : ℕ → Text → List Text
split c [] = [] ∷ []
split c (d ∷ t) = elim (split c t) [
  | [] ↦ []
  | word ∷ words ↦ if c == d then [] ∷ word ∷ words else (d ∷ word) ∷ words
]

-- `{k.strip() for k in words if k.strip()}`
unfoldable pub stripped_words : List Text → List Text
unfolding strip
stripped_words [] = []
stripped_words (w ∷ ws) =
    let rest = stripped_words ws in if is_empty (strip w) then rest else strip w ∷ rest

unfoldable pub parse_admin_keys : Text → List Text
unfolding stripped_words split
parse_admin_keys keys =
    let raw = strip keys in if is_empty raw then [] else stripped_words (split b',' raw)

unfoldable pub is_ascii : Text → Bool
is_ascii [] = true
is_ascii (c ∷ t) = ltb c 128 && is_ascii t

-- `any(hmac.compare_digest(key, k) for k in admin_keys)`: a comparison of strings that are not
-- both ASCII raises a TypeError. The keys of the set come in the order of the setting.
unfoldable pub matches_any : Text → List Text → Action Bool
unfolding is_ascii
matches_any key [] = pure false
matches_any key (k ∷ ks) =
    if not (is_ascii key && is_ascii k)
    then raise type_error
    else if eq_text key k
    then pure true
    else matches_any key ks

abbrev pub no_keys : List Text → Bool
no_keys [] = true
no_keys _ = false

-- `header` is the X-Admin-Key of the request, empty if there is none.
unfoldable pub require_admin : Text → Action Text
unfolding parse_admin_keys matches_any
require_admin header = do
  admin_keys ← gets (λ s. parse_admin_keys s.env.settings.admin_api_keys)
  raise_if (no_keys admin_keys) not_found
  raise_if (is_empty (strip header)) not_found
  known ← matches_any (strip header) admin_keys
  raise_if (not known) not_found
  pure (strip header)

unfoldable pub update_agent_status : ℕ → Text → Action ⊤
update_agent_status agent_id status = do
  or_raise (← find_agent agent_id) agent_not_found
  new_status ← or_raise (of_value agent_status_value agent_status_all status) bad_request
  write_agent agent_id (λ a. record a { status = new_status })
  commit

unfoldable pub adjust_agent_balance : ℕ → ℤ → Action ⊤
adjust_agent_balance agent_id amount = do
  agent ← or_raise (← find_agent agent_id) agent_not_found
  let new_balance = agent.balance +ℤ amount
  raise_if (ltb_ℤ new_balance (pos 0)) bad_request
  write_agent agent_id (λ a. record a { balance = new_balance })
  commit

-- Any status may be forced.
unfoldable pub update_job_status : ℕ → Text → Action ⊤
update_job_status job_id status = do
  get_job job_id
  new_status ← or_raise (parse_job_status status) bad_request
  write_job job_id (set_job_status new_status)
  commit

abbrev pub has_escrow_id : ℕ → Escrow → Bool
has_escrow_id escrow_id e = e.escrow_id == escrow_id

-- An agent that is gone gets nothing.
unfoldable pub force_refund_escrow : ℕ → Action ⊤
unfolding is_funded log_audit
force_refund_escrow escrow_id = do
  (job_id, escrow) ←
      or_raise (← gets (λ s. find_row (has_escrow_id escrow_id) s.db.escrows)) not_found
  raise_if (not (is_funded escrow.status)) bad_request
  write_agent escrow.client_agent_id (credit escrow.amount)
  when (ltb_ℤ (pos 0) escrow.seller_bond_amount)
      (write_agent escrow.seller_agent_id (credit escrow.seller_bond_amount))
  write_escrow job_id (set_escrow_status EscrowStatus.refunded)
  log_audit escrow.escrow_id EscrowAction.refunded escrow.amount none
  commit

unfoldable pub redeliver_webhook : ℕ → Action ⊤
unfolding reset_delivery
redeliver_webhook delivery_id = do
  or_raise (← gets (λ s. get_elem? s.db.deliveries delivery_id)) not_found
  reset_delivery delivery_id
  commit
