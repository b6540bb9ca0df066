-- ===== src/Admin/Keys.antt =====
-- What the operator's key opens, and what a refusal shows.
use agent_repository.Common.{
  ◌≡◌, refl, ap, Bool, true, false, not, ◌&&◌, List, [], ◌∷◌, if◌then◌else◌, arith,
}
use agent_repository.Common.Text.{Text, eq_text, is_empty}
use agent_repository.Session.{Session, ok, err, not_found, type_error}
use agent_repository.Admin.{is_ascii, matches_any, parse_admin_keys, require_admin, strip, no_keys}

abbrev pub is_known : Text → List Text → Bool
is_known key [] = false
is_known key (k ∷ ks) = if eq_text key k then true else is_known key ks

abbrev pub AllAscii : List Text → Type 0
AllAscii [] = Unit
AllAscii (k ∷ ks) = (is_ascii k ≡ true) × AllAscii ks

matches_any-is_known :
    (key : Text) (keys : List Text) (s : Session)
    → is_ascii key ≡ true
    → AllAscii keys
    → matches_any key keys s ≡ (ok (is_known key keys), s)
unfolding matches_any
matches_any-is_known key [] s plain all = refl
matches_any-is_known key (k ∷ ks) s plain all =
    ground (arith, matches_any-is_known key ks s plain all.1)

empty_key : (keys : List Text) → no_keys keys ≡ true → (key : Text) → is_known key keys ≡ false
empty_key [] h key = refl
empty_key (k ∷ ks) h key = absurd (ground arith)

-- If the stripped key and the configured keys are ASCII: require_admin writes nothing, hands out
-- the stripped key if it is not empty and among the keys, and else answers as if there were
-- nothing.
require_admin-known :
    (header : Text) (s : Session)
    → is_ascii (strip header) ≡ true
    → AllAscii (parse_admin_keys s.env.settings.admin_api_keys)
    → require_admin header s ≡ (
      if not (is_empty (strip header))
            && is_known (strip header) (parse_admin_keys s.env.settings.admin_api_keys)
          then ok (strip header)
          else err not_found,
      s,
    )
unfolding require_admin
require_admin-known header s plain all =
    let keys = parse_admin_keys s.env.settings.admin_api_keys in
    ground (arith, matches_any-is_known (strip header) keys s plain all, empty_key keys)

matches_any-raises :
    (key k : Text) (ks : List Text) (s : Session)
    → is_ascii key ≡ false
    → matches_any key (k ∷ ks) s ≡ (err type_error, s)
unfolding matches_any
matches_any-raises key k ks s odd = ground arith

odd_filled : (t : Text) → is_ascii t ≡ false → is_empty t ≡ false
unfolding is_ascii is_empty
odd_filled [] odd = ground arith
odd_filled (c ∷ t) odd = refl

-- A key that is not ASCII raises a TypeError.
require_admin-odd :
    (header k : Text) (ks : List Text) (s : Session)
    → parse_admin_keys s.env.settings.admin_api_keys ≡ k ∷ ks
    → is_ascii (strip header) ≡ false
    → require_admin header s ≡ (err type_error, s)
unfolding require_admin
require_admin-odd header k ks s keys odd = ground (
  arith,
  odd_filled (strip header) odd,
  matches_any-raises (strip header) k ks s odd,
  ap no_keys keys,
  ap (λ all. matches_any (strip header) all s) keys,
)
