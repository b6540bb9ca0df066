-- ===== src/Hosting/Archive.antt =====
-- app/services/hosting/deploy.py: `_extract_manifest`. What `tarfile` and `yaml` make of the uploaded
-- bytes is an argument.
use agent_repository.Common.{ℕ, Bool, false, ◌||◌, Option, none, some, List, [], ◌∷◌, if◌then◌else◌}
use agent_repository.Common.Text.{Text, eq_text, starts_with, is_infix}
use agent_repository.Yaml.{Yaml}
use agent_repository.Session.{Result, ok, err, bad_request, yaml_error}
use agent_repository.Hosting.Words.{slash, dots, arcoa_yaml, arcoa_yml}

-- What a member holds: a directory or a device holds no file, and a file may not be YAML.
pub data Content : Type 0 where
  not_a_file malformed : Content
  document : Yaml → Content

pub record Member : Type 0 where
  pub name : Text
  pub content : Content

-- `members` is `none` when the bytes are not a tar.gz archive; `sha256` is the hash of the bytes.
pub record Archive : Type 0 where
  pub size : ℕ
  pub sha256 : ℕ
  pub members : Option (List Member)

-- `name.split("/")[-1]`
unfoldable pub basename : Text → Text
unfolding is_infix
basename [] = []
basename (c ∷ t) = let rest = basename t in if is_infix slash (c ∷ t) then rest else c ∷ t

unfoldable pub is_unsafe : Text → Bool
unfolding starts_with is_infix
is_unsafe name = starts_with slash name || is_infix dots name

unfoldable pub any_unsafe : List Member → Bool
unfolding is_unsafe
any_unsafe [] = false
any_unsafe (m ∷ ms) = is_unsafe m.name || any_unsafe ms

unfoldable pub is_manifest : Text → Bool
unfolding basename
is_manifest name = eq_text (basename name) arcoa_yaml || eq_text (basename name) arcoa_yml

-- The first member with the name of a manifest.
unfoldable pub find_manifest : List Member → Option Member
unfolding is_manifest
find_manifest [] = none
find_manifest (m ∷ ms) = let rest = find_manifest ms in if is_manifest m.name then some m else rest

-- A YAML error is no ValueError, and goes through.
unfoldable pub load : Content → Result Yaml
load not_a_file = err bad_request
load malformed = err yaml_error
load (document value) = ok value

unfoldable pub extract_manifest : Archive → Result Yaml
unfolding any_unsafe find_manifest load
extract_manifest archive = elim archive.members [
  | none ↦ err bad_request
  | some ms ↦
      if any_unsafe ms
      then err bad_request
      else elim (find_manifest ms) [ none ↦ err bad_request | some m ↦ load m.content ]
]
