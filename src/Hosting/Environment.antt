-- ===== src/Hosting/Environment.antt =====
-- app/services/hosting/deploy.py: the environment that a container gets from its manifest and the
-- secrets of its agent (as `_build_and_deploy_gke` makes it, and
-- app/services/hosting/scaler.py again before the container wakes).
use agent_repository.Common.{Bool, true, false, Option, none, some, List, [], ◌∷◌, if◌then◌else◌}
use agent_repository.Common.Text.{Text, eq_text}
use agent_repository.Hosting.Words.{agent_id_var, api_url_var, private_key_var}
use agent_repository.Hosting.Patterns.{reference}

-- A dict of texts.
abbrev pub Vars : Type 0
Vars = List (Text × Text)

-- `d.get(key)`
unfoldable pub value_of : Text → Vars → Option Text
value_of key [] = none
value_of key ((k, v) ∷ d) = let rest = value_of key d in if eq_text key k then some v else rest

-- `d[key] = value`
unfoldable pub assign : Text → Text → Vars → Vars
assign key value [] = (key, value) ∷ []
assign key value ((k, v) ∷ d) =
    let rest = assign key value d in if eq_text key k then (k, value) ∷ d else (k, v) ∷ rest

abbrev pub has_key : Text → Vars → Bool
has_key key d = elim (value_of key d) [ some v ↦ true | none ↦ false ]

-- The value of a reference is the secret of that name, or empty.
unfoldable pub resolve : Vars → Text → Text
unfolding reference value_of
resolve secrets v = elim (reference v) [
  | some name ↦ elim (value_of name secrets) [ some secret ↦ secret | none ↦ [] ]
  | none ↦ v
]

-- The loop over `manifest.env`.
unfoldable pub resolve_all : Vars → Vars → Vars → Vars
unfolding resolve assign
resolve_all secrets [] vars = vars
resolve_all secrets ((k, v) ∷ env) vars =
    resolve_all secrets env (assign k (resolve secrets v) vars)

unfoldable pub with_key : Option Text → Vars → Vars
unfolding assign value_of
with_key none vars = vars
with_key (some key) vars =
    if has_key private_key_var vars then vars else assign private_key_var key vars

-- With the agent's id and the address of the platform.
unfoldable pub environment : Text → Text → Vars → Vars → Vars
unfolding resolve_all with_key assign value_of
environment agent_id base_url secrets env =
    let given : Vars = assign agent_id_var agent_id (resolve_all secrets env []) in
    with_key (value_of private_key_var secrets) (assign api_url_var base_url given)
