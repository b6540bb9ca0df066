-- ===== src/Accounts.antt =====
-- app/services/account.py: signup, email verification and key recovery. Addresses are stripped and
-- in lower case; the list of disposable domains and the mail server are outside. Times are seconds.
pub mod Tokens
use agent_repository.Common.{
  ℕ, ◌+◌, ◌*◌, Bool, true, false, not, ◌&&◌, Option, none, some, is_some, lookup, insert, adjust,
  find_row, adjust_where, ltb, ◌==◌,
}
use agent_repository.Models.{Account, EmailVerification, VerificationPurpose}
use agent_repository.Session.{
  ◌>>=◌, ◌>>◌, ⊤, Action, duplicate, invalid_input, no_result, expired, invalid_token,
  token_not_found, account_not_found, pure, raise, gets, or_raise, raise_if, when, modify_db,
  commit, write_agent,
}

-- Whether an address has a disposable domain, and whether a message to it is sent.
pub record Mail : Type 0 where
  pub is_disposable : ℕ → Bool
  pub is_sent : ℕ → Bool

abbrev pub verification_expiry : ℕ
verification_expiry = 24 * 3600

abbrev pub registration_token_expiry : ℕ
registration_token_expiry = 3600

unfoldable pub is_signup : VerificationPurpose → Bool
is_signup VerificationPurpose.signup = true
is_signup _ = false

unfoldable pub is_recovery : VerificationPurpose → Bool
is_recovery VerificationPurpose.recovery = true
is_recovery _ = false

abbrev pub has_agent : Option Account → Bool
has_agent none = false
has_agent (some a) = is_some a.agent_id

unfoldable pub new_account : Account
new_account = record {
  email_verified = false;
  agent_id = none;
  dashboard_token = none;
  dashboard_token_expires_at = none;
}

unfoldable pub new_verification : ℕ → VerificationPurpose → ℕ → ℕ → EmailVerification
new_verification email purpose token now = record {
  email = email;
  purpose = purpose;
  token = token;
  registration_token = none;
  registration_token_expires_at = 0;
  expires_at = now + verification_expiry;
  used = false;
}

abbrev pub set_used : EmailVerification → EmailVerification
set_used v = record v { used = true }

abbrev pub write_account : ℕ → (Account → Account) → Action ⊤
write_account k f = modify_db λ d. record d { accounts = adjust k f d.accounts }

abbrev pub write_verification : ℕ → (EmailVerification → EmailVerification) → Action ⊤
write_verification k f = modify_db λ d. record d { verifications = adjust k f d.verifications }

abbrev pub find_account : ℕ → Action (Option Account)
find_account email = gets (λ s. lookup email s.db.accounts)

abbrev pub find_verification : (EmailVerification → Bool) → Action (Option (ℕ × EmailVerification))
find_verification p = gets (λ s. find_row p s.db.verifications)

-- The message goes out after the commit; if it cannot, the request fails all the same.
unfoldable pub send_mail : Mail → ℕ → Action ⊤
send_mail mail email = raise_if (not (mail.is_sent email)) no_result

-- `verification_id` and `token` are drawn. Unused tokens of the address are used up, whatever they
-- are for.
unfoldable pub request_signup : Mail → ℕ → ℕ → ℕ → ℕ → Action ⊤
unfolding new_account new_verification send_mail
request_signup mail verification_id token now email = do
  raise_if (mail.is_disposable email) invalid_input
  account ← find_account email
  raise_if (has_agent account) duplicate
  when (not (is_some account))
      (modify_db λ d. record d { accounts = insert email new_account d.accounts })
  modify_db (λ d. record d {
    verifications = adjust_where (λ v. (v.email == email) && not v.used) set_used d.verifications;
  })
  modify_db (λ d. record d {
    verifications =
        insert verification_id (new_verification email VerificationPurpose.signup token now)
          d.verifications;
  })
  commit
  send_mail mail email

-- The row is used up, and carries the registration or recovery token that is drawn.
unfoldable pub issued : ℕ → ℕ → EmailVerification → EmailVerification
issued registration_token now v = record v {
  used = true;
  registration_token = some registration_token;
  registration_token_expires_at = now + registration_token_expiry;
}

abbrev pub opens : (VerificationPurpose → Bool) → ℕ → EmailVerification → Bool
opens p token v = (v.token == token) && not v.used && p v.purpose

-- Past its time the row is used up, which is committed before the request is refused.
unfoldable pub use_up : ℕ → Action ⊤
use_up verification_id = do write_verification verification_id set_used; commit

unfoldable pub verify_email : ℕ → ℕ → ℕ → Action ℕ
unfolding issued is_signup use_up
verify_email registration_token now token = do
  row ← or_raise (← find_verification (opens is_signup token)) token_not_found
  when (ltb row.1.expires_at now) (do use_up row.0; raise expired)
  write_verification row.0 (issued registration_token now)
  or_raise (← find_account row.1.email) account_not_found
  write_account row.1.email (λ a. record a { email_verified = true })
  commit
  pure registration_token

abbrev pub carries : (VerificationPurpose → Bool) → ℕ → EmailVerification → Bool
carries p token v = elim v.registration_token [
  | some t ↦ (t == token) && p v.purpose
  | none ↦ false
]

-- The address of the account.
unfoldable pub validate_registration_token : ℕ → ℕ → Action ℕ
unfolding is_signup
validate_registration_token now token = do
  row ← or_raise (← find_verification (carries is_signup token)) invalid_token
  raise_if (ltb row.1.registration_token_expires_at now) expired
  account ← or_raise (← find_account row.1.email) account_not_found
  raise_if (is_some account.agent_id) duplicate
  pure row.1.email

unfoldable pub link_agent_to_account : ℕ → ℕ → Action ⊤
link_agent_to_account email agent_id =
    write_account email (λ a. record a { agent_id = some agent_id })

-- A verified address with an agent.
unfoldable pub is_eligible : Option Account → Bool
is_eligible none = false
is_eligible (some a) = a.email_verified && is_some a.agent_id

unfoldable pub start_recovery : Mail → ℕ → ℕ → ℕ → ℕ → Action ⊤
unfolding new_verification send_mail is_recovery
start_recovery mail verification_id token now email = do
  modify_db (λ d. record d {
    verifications =
        adjust_where (λ v. (v.email == email) && is_recovery v.purpose && not v.used) set_used
          d.verifications;
  })
  modify_db (λ d. record d {
    verifications =
        insert verification_id (new_verification email VerificationPurpose.recovery token now)
          d.verifications;
  })
  commit
  send_mail mail email

-- It says nothing of whether the address is known.
unfoldable pub request_recovery : Mail → ℕ → ℕ → ℕ → ℕ → Action ⊤
unfolding is_eligible start_recovery
request_recovery mail verification_id token now email = do
  account ← find_account email
  when (is_eligible account) (start_recovery mail verification_id token now email)

unfoldable pub verify_recovery : ℕ → ℕ → ℕ → Action ℕ
unfolding issued is_recovery is_eligible use_up
verify_recovery recovery_token now token = do
  row ← or_raise (← find_verification (opens is_recovery token)) token_not_found
  when (ltb row.1.expires_at now) (do use_up row.0; raise expired)
  account ← find_account row.1.email
  when (not (is_eligible account)) (do use_up row.0; raise account_not_found)
  write_verification row.0 (issued recovery_token now)
  commit
  pure recovery_token

abbrev pub account_agent : Option Account → Option ℕ
account_agent none = none
account_agent (some a) = a.agent_id

-- The token is cleared with the change of the key.
unfoldable pub rotate_key : ℕ → ℕ → ℕ → Action ⊤
unfolding is_recovery
rotate_key now recovery_token new_public_key = do
  row ← or_raise (← find_verification (carries is_recovery recovery_token)) invalid_token
  raise_if (ltb row.1.registration_token_expires_at now) expired
  account ← find_account row.1.email
  agent_id ← or_raise (account_agent account) account_not_found
  taken ← gets (λ s. find_row (λ a. a.public_key == new_public_key) s.db.agents)
  raise_if (is_some taken) duplicate
  or_raise (← gets (λ s. lookup agent_id s.db.agents)) no_result
  write_agent agent_id (λ a. record a { public_key = new_public_key })
  write_verification row.0
      (λ v. record v { registration_token = none; registration_token_expires_at = 0 })
  commit
