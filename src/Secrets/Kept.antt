-- ===== src/Secrets/Kept.antt =====
-- A secret that was set is read back, until it is deleted.
use agent_repository.Common.{ℕ, ◌≡◌, refl, true, none, some, List, [], ◌∷◌, ◌++◌, arith}
use agent_repository.Common.Text.{Text, eq_text_refl}
use agent_repository.Models.{AgentSecret}
use agent_repository.Session.{Session, ok}
use agent_repository.Pages.{where_rows}
use agent_repository.Secrets.{
  Fernet, is_secret, is_other, new_secret, set_secret, find_secret, decrypt_row, get_secret,
  delete_secret,
}

find_secret-gone :
    (agent_id : ℕ) (key : Text) (rows : List AgentSecret)
    → find_secret agent_id key (where_rows (is_other agent_id key) rows) ≡ none
unfolding find_secret where_rows
find_secret-gone agent_id key [] = refl
find_secret-gone agent_id key (r ∷ rows) = ground (arith, find_secret-gone agent_id key rows)

find_secret-last :
    (agent_id : ℕ) (key : Text) (r : AgentSecret) (rows : List AgentSecret)
    → is_secret agent_id key r ≡ true
    → find_secret agent_id key (where_rows (is_other agent_id key) rows ++ r ∷ []) ≡ some r
unfolding find_secret where_rows
find_secret-last agent_id key r [] own = ground arith
find_secret-last agent_id key r (x ∷ rows) own =
    ground (arith, find_secret-last agent_id key r rows)

new_secret-own :
    (fernet : Fernet) (agent_id : ℕ) (key value : Text)
    → is_secret agent_id key (new_secret fernet agent_id key value) ≡ true
unfolding is_secret new_secret
new_secret-own fernet agent_id key value = ground (arith, eq_text_refl key)

-- If decryption undoes encryption: a secret that was set is read back as it was, and after a
-- deletion there is none.
pub get_secret-set :
    (fernet : Fernet) (agent_id : ℕ) (key value : Text) (s : Session)
    → ((v : Text) → fernet.decrypt (fernet.encrypt v) ≡ some v)
    → let t = (set_secret fernet agent_id key value s).1 in
      (get_secret fernet agent_id key t ≡ (ok (some value), t))
      × ((get_secret fernet agent_id key (delete_secret agent_id key t).1).0 ≡ ok none)
unfolding set_secret get_secret delete_secret decrypt_row new_secret
get_secret-set fernet agent_id key value s back =
    let row = new_secret fernet agent_id key value in
    let found =
      find_secret-last agent_id key row s.db.secrets (new_secret-own fernet agent_id key value) in
    let gone =
      find_secret-gone agent_id key (where_rows (is_other agent_id key) s.db.secrets ++ row ∷ []) in
    (ground (arith, found, back value), ground (arith, gone))
