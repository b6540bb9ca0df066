-- ===== src/Accounts/Tokens.antt =====
-- Each token of app/services/account.py opens something once.
use agent_repository.Common.{
  ap, ◌∙◌, ℕ, ◌≡◌, refl, false, inl, inr, Option-cases, none, some, HasKeys, AtMostOne, find_row,
  find_row-adjust, adjust, arith,
}
use agent_repository.Models.{EmailVerification}
use agent_repository.Session.{Session, ok, err, invalid_token, token_not_found}
use agent_repository.Accounts.{
  is_signup, is_recovery, opens, carries, issued, verify_email, rotate_key,
}

abbrev cleared : EmailVerification → EmailVerification
cleared v = record v { registration_token = none; registration_token_expires_at = 0 }

-- After a success the only row with the token carries none.
rotate_key-row :
    (now token key k : ℕ) (s : Session) (v : EmailVerification)
    → find_row (carries is_recovery token) s.db.verifications ≡ some (k, v)
    → (rotate_key now token key s).0 ≡ ok tt
    → (rotate_key now token key s).1.db.verifications ≡ adjust k cleared s.db.verifications
unfolding rotate_key
rotate_key-row now token key k s v found success = ground arith

rotate_key-none :
    (now token key : ℕ) (s : Session)
    → find_row (carries is_recovery token) s.db.verifications ≡ none
    → (rotate_key now token key s).0 ≡ err invalid_token
unfolding rotate_key
rotate_key-none now token key s none_left = ground arith

-- If no key of the table of verifications stands twice and at most one row carries the recovery
-- token: after a rotation with the token that succeeded, the token is refused as invalid, at
-- whatever time and for whatever key.
pub rotate_key-once :
    (now later token key other : ℕ) (s : Session)
    → HasKeys s.db.verifications
    → AtMostOne (carries is_recovery token) s.db.verifications
    → (rotate_key now token key s).0 ≡ ok tt
    → (rotate_key later token other (rotate_key now token key s).1).0 ≡ err invalid_token
rotate_key-once now later token key other s keys one success =
    elim (Option-cases (find_row (carries is_recovery token) s.db.verifications)) [
      | inl absent ↦ let refused = rotate_key-none now token key s absent in ground (arith, refused)
      | inr ((k, v), found) ↦
          let gone =
            find_row-adjust (carries is_recovery token) cleared k v s.db.verifications keys one
              found refl in
          rotate_key-none later token other (rotate_key now token key s).1 (
            ap (λ d. find_row (carries is_recovery token) d)
              (rotate_key-row now token key k s v found success)
            ∙ gone)
    ]

verify_email-row :
    (fresh now token k : ℕ) (s : Session) (v : EmailVerification)
    → find_row (opens is_signup token) s.db.verifications ≡ some (k, v)
    → (verify_email fresh now token s).0 ≡ ok fresh
    → (verify_email fresh now token s).1.db.verifications
      ≡ adjust k (issued fresh now) s.db.verifications
unfolding verify_email
verify_email-row fresh now token k s v found success = ground arith

verify_email-none :
    (fresh now token : ℕ) (s : Session)
    → find_row (opens is_signup token) s.db.verifications ≡ none
    → (verify_email fresh now token s).0 ≡ err token_not_found
unfolding verify_email
verify_email-none fresh now token s none_left = ground arith

issued-closed :
    (fresh now token : ℕ) (v : EmailVerification)
    → opens is_signup token (issued fresh now v) ≡ false
unfolding issued
issued-closed fresh now token v = ground arith

-- After a verification that succeeded, the token of the mail is not found any more.
verify_email-once :
    (fresh again now later token : ℕ) (s : Session)
    → HasKeys s.db.verifications
    → AtMostOne (opens is_signup token) s.db.verifications
    → (verify_email fresh now token s).0 ≡ ok fresh
    → (verify_email again later token (verify_email fresh now token s).1).0 ≡ err token_not_found
verify_email-once fresh again now later token s keys one success =
    elim (Option-cases (find_row (opens is_signup token) s.db.verifications)) [
      | inl absent ↦
          let refused = verify_email-none fresh now token s absent in ground (arith, refused)
      | inr ((k, v), found) ↦
          let gone =
            find_row-adjust (opens is_signup token) (issued fresh now) k v s.db.verifications keys
              one found (issued-closed fresh now token v) in
          verify_email-none again later token (verify_email fresh now token s).1 (
            ap (λ d. find_row (opens is_signup token) d)
              (verify_email-row fresh now token k s v found success)
            ∙ gone)
    ]
