-- ===== src/Secrets.antt =====
-- app/services/hosting/secrets.py: the secrets that an agent's container gets. Encryption is an
-- argument; a decryption that raises is `none`.
pub mod Kept
use agent_repository.Common.{
  ℕ, ◌==◌, Bool, not, ◌&&◌, Option, none, some, List, [], ◌∷◌, ◌++◌, length, ltb, if◌then◌else◌,
}
use agent_repository.Common.Text.{Text, eq_text}
use agent_repository.Models.{AgentSecret}
use agent_repository.Session.{◌>>=◌, ◌>>◌, ⊤, Action, type_error, pure, gets, or_raise, modify_db}
use agent_repository.Pages.{where_rows}

pub record Fernet : Type 0 where
  pub encrypt : Text → Text
  pub decrypt : Text → Option Text

unfoldable pub is_secret : ℕ → Text → AgentSecret → Bool
is_secret agent_id key r = r.agent_id == agent_id && eq_text key r.key

abbrev pub is_other : ℕ → Text → AgentSecret → Bool
is_other agent_id key r = not (is_secret agent_id key r)

unfoldable pub new_secret : Fernet → ℕ → Text → Text → AgentSecret
new_secret fernet agent_id key value = record {
  agent_id = agent_id;
  key = key;
  encrypted_value = fernet.encrypt value;
}

unfoldable pub set_secret : Fernet → ℕ → Text → Text → Action ⊤
unfolding where_rows is_secret new_secret
set_secret fernet agent_id key value = do
  modify_db (λ d. record d { secrets = where_rows (is_other agent_id key) d.secrets })
  modify_db (λ d. record d { secrets = d.secrets ++ new_secret fernet agent_id key value ∷ [] })

unfoldable pub find_secret : ℕ → Text → List AgentSecret → Option AgentSecret
unfolding is_secret
find_secret agent_id key [] = none
find_secret agent_id key (r ∷ rows) =
    let rest = find_secret agent_id key rows in if is_secret agent_id key r then some r else rest

unfoldable pub decrypt_row : Fernet → Option AgentSecret → Action (Option Text)
decrypt_row fernet none = pure none
decrypt_row fernet (some r) = do
  value ← or_raise (fernet.decrypt r.encrypted_value) type_error
  pure (some value)

unfoldable pub get_secret : Fernet → ℕ → Text → Action (Option Text)
unfolding find_secret decrypt_row
get_secret fernet agent_id key = do
  row ← gets (λ s. find_secret agent_id key s.db.secrets)
  decrypt_row fernet row

unfoldable pub list_secrets : ℕ → Action (List AgentSecret)
unfolding where_rows
list_secrets agent_id = gets (λ s. where_rows (λ r. r.agent_id == agent_id) s.db.secrets)

-- Whether there was one.
unfoldable pub delete_secret : ℕ → Text → Action Bool
unfolding where_rows is_secret
delete_secret agent_id key = do
  removed ← gets (λ s. length (where_rows (is_secret agent_id key) s.db.secrets))
  modify_db (λ d. record d { secrets = where_rows (is_other agent_id key) d.secrets })
  pure (ltb 0 removed)

unfoldable decrypt_rows : Fernet → List AgentSecret → Option (List (Text × Text))
decrypt_rows fernet [] = some []
decrypt_rows fernet (r ∷ rows) = elim (fernet.decrypt r.encrypted_value) [
  | some value ↦ elim (decrypt_rows fernet rows) [
    | some values ↦ some ((r.key, value) ∷ values)
    | none ↦ none
  ]
  | none ↦ none
]

-- The secrets of an agent by their key, which an agent has one of.
unfoldable pub get_all_decrypted : Fernet → ℕ → Action (List (Text × Text))
unfolding list_secrets decrypt_rows
get_all_decrypted fernet agent_id = do
  rows ← list_secrets agent_id
  or_raise (decrypt_rows fernet rows) type_error
