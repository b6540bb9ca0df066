-- ===== src/Hosting/Patterns.antt =====
-- The regular expressions of app/services/hosting/manifest.py. A `$` also matches before a newline
-- at the end.
use agent_repository.Common.{
  ℕ, Bool, true, false, ◌&&◌, ◌||◌, ◌==◌, leb, Option, none, some, [], ◌∷◌, length, if◌then◌else◌,
}
use agent_repository.Common.Text.{Text, strip_prefix}
use agent_repository.Hosting.Words.{secret_open}

-- A text without one newline at its end.
unfoldable pub drop_newline : Text → Text
drop_newline [] = []
drop_newline (c ∷ []) = if c == 10 then [] else c ∷ []
drop_newline (c ∷ d ∷ t) = c ∷ drop_newline (d ∷ t)

abbrev pub is_digit : ℕ → Bool
is_digit c = leb b'0' c && leb c b'9'

abbrev pub is_upper : ℕ → Bool
is_upper c = leb b'A' c && leb c b'Z'

abbrev pub is_alnum : ℕ → Bool
is_alnum c = is_digit c || is_upper c || (leb b'a' c && leb c b'z')

-- `[A-Z_]` and `[A-Z0-9_]`
abbrev pub is_name_start : ℕ → Bool
is_name_start c = is_upper c || c == b'_'

abbrev pub is_name_char : ℕ → Bool
is_name_char c = is_name_start c || is_digit c

unfoldable pub all_chars : (ℕ → Bool) → Text → Bool
all_chars p [] = true
all_chars p (c ∷ t) = p c && all_chars p t

-- `[a-zA-Z0-9][a-zA-Z0-9-]{0,63}`
unfoldable pub is_id : Text → Bool
unfolding all_chars
is_id [] = false
is_id (c ∷ t) = is_alnum c && all_chars (λ d. is_alnum d || d == b'-') t && leb (length t) 63

-- `[A-Z_][A-Z0-9_]*`
unfoldable pub is_name : Text → Bool
unfolding all_chars
is_name [] = false
is_name (c ∷ t) = is_name_start c && all_chars is_name_char t

-- `_SKILL_ID_PATTERN.match`, and the pattern of a key of `env`.
unfoldable pub is_skill_id : Text → Bool
unfolding drop_newline is_id
is_skill_id t = is_id (drop_newline t)

unfoldable pub is_env_key : Text → Bool
unfolding drop_newline is_name
is_env_key t = is_name (drop_newline t)

-- What stands before a `}` at the end.
unfoldable pub before_brace : Text → Option Text
before_brace [] = none
before_brace (c ∷ []) = if c == b'}' then some [] else none
before_brace (c ∷ d ∷ t) = elim (before_brace (d ∷ t)) [ some u ↦ some (c ∷ u) | none ↦ none ]

-- The text between `${secrets.` and a `}` at the end.
unfoldable pub reference : Text → Option Text
unfolding before_brace
reference v = elim (strip_prefix secret_open v) [ some rest ↦ before_brace rest | none ↦ none ]

-- `_SECRET_REF_PATTERN.match(v)`, as its group.
unfoldable pub secret_ref : Text → Option Text
unfolding reference is_name drop_newline
secret_ref v = elim (reference (drop_newline v)) [
  | some name ↦ if is_name name then some name else none
  | none ↦ none
]
