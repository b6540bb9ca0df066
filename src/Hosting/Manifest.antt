-- ===== src/Hosting/Manifest.antt =====
-- app/services/hosting/manifest.py: `parse_manifest` and `extract_secret_refs`. Python's `str` and
-- `int` of a value are arguments. A ValueError is `bad_request`, a TypeError `type_error`.
use agent_repository.Common.{
  ℤ, pos, ltb_ℤ, Bool, false, not, ◌||◌, ltb, Option, none, some, List, [], ◌∷◌, length,
  if◌then◌else◌,
}
use agent_repository.Common.Text.{Text, eq_text, is_empty}
use agent_repository.Yaml.{
  Yaml, Items, Entries, null, number, text, sequence, mapping, nil, item, end, entry, is_truthy,
  get, length_items,
}
use agent_repository.Session.{⊤, Result, ok, err, bad_request, type_error}
use agent_repository.Sandbox.{python_313, python_312, node_20, node_22}
use agent_repository.Hosting.Words.{
  key_name, key_runtime, key_skills, key_id, key_description, key_base_price, key_requirements,
  key_env, key_cpu, key_memory_mb, key_entrypoint, default_price, default_cpu, cpu_half, cpu_one,
  cpu_two, default_entrypoint,
}
use agent_repository.Hosting.Patterns.{is_skill_id, is_env_key, secret_ref}

pub record Python : Type 0 where
  pub str : Yaml → Text
  pub int : Yaml → Result ℤ

pub record SkillDef : Type 0 where
  pub id : Text
  pub description : Yaml
  pub base_price : Text

pub record AgentManifest : Type 0 where
  pub name : Text
  pub runtime : Text
  pub skills : List SkillDef
  pub requirements : List Text
  pub env : List (Text × Text)
  pub cpu : Text
  pub memory_mb : ℤ
  pub entrypoint : Text

infixl 5 ◌>>=◌ ◌>>◌
abbrev ◌>>=◌ : {A B : Type 0} → Result A → (A → Result B) → Result B
ok a >>= f = f a
err e >>= f = err e

abbrev ◌>>◌ : {A B : Type 0} → Result A → Result B → Result B
m >> k = m >>= λ _. k

-- `if c: raise ValueError`
abbrev refuse_if : Bool → Result ⊤
refuse_if c = if c then err bad_request else ok tt

-- `isinstance(value, ...)`, or a ValueError
unfoldable pub as_text : Yaml → Result Text
as_text (text t) = ok t
as_text _ = err bad_request

unfoldable pub as_items : Yaml → Result Items
as_items (sequence xs) = ok xs
as_items _ = err bad_request

unfoldable pub as_entries : Yaml → Result Entries
as_entries (mapping es) = ok es
as_entries _ = err bad_request

unfoldable pub is_runtime : Text → Bool
is_runtime r =
    eq_text r python_313 || eq_text r python_312 || eq_text r node_20 || eq_text r node_22

unfoldable pub is_cpu : Text → Bool
is_cpu c = eq_text c default_cpu || eq_text c cpu_half || eq_text c cpu_one || eq_text c cpu_two

-- A list or a mapping has no hash, and can not be looked up in a set.
unfoldable pub as_runtime : Yaml → Result Text
unfolding is_runtime
as_runtime (text r) = if is_runtime r then ok r else err bad_request
as_runtime (sequence xs) = err type_error
as_runtime (mapping es) = err type_error
as_runtime _ = err bad_request

-- A pattern is not matched on what is not a text.
unfoldable pub as_skill_id : Yaml → Result Text
unfolding is_skill_id is_truthy
as_skill_id (text t) = if is_skill_id t then ok t else err bad_request
as_skill_id v = if is_truthy v then err type_error else err bad_request

unfoldable pub is_member : Text → List Text → Bool
is_member t [] = false
is_member t (u ∷ us) = eq_text t u || is_member t us

-- The loop over `skills_raw`, with `seen_ids`.
unfoldable pub parse_skills : Python → Items → List Text → Result (List SkillDef)
unfolding as_entries as_skill_id is_member get is_truthy
parse_skills python nil seen = ok []
parse_skills python (item x xs) seen = do
  s ← as_entries x
  id ← as_skill_id (get key_id null s)
  refuse_if (is_member id seen)
  refuse_if (not (is_truthy (get key_description (text []) s)))
  rest ← parse_skills python xs (id ∷ seen)
  ok (
      record {
        id = id;
        description = get key_description (text []) s;
        base_price = python.str (get key_base_price (text default_price) s);
      }
      ∷ rest)

unfoldable pub parse_requirements : Items → Result (List Text)
unfolding as_text
parse_requirements nil = ok []
parse_requirements (item x xs) = do
  req ← as_text x
  refuse_if (ltb 128 (length req))
  rest ← parse_requirements xs
  ok (req ∷ rest)

unfoldable pub as_env_key : Yaml → Result Text
unfolding is_env_key
as_env_key (text k) = if is_env_key k then ok k else err bad_request
as_env_key _ = err type_error

unfoldable pub parse_env : Entries → Result (List (Text × Text))
unfolding as_env_key as_text
parse_env end = ok []
parse_env (entry k v es) = do
  key ← as_env_key k
  value ← as_text v
  rest ← parse_env es
  ok ((key, value) ∷ rest)

unfoldable pub parse_manifest : Python → Yaml → Result AgentManifest
unfolding as_entries as_text as_runtime as_items length_items parse_skills parse_requirements
    parse_env is_cpu get
parse_manifest python value = do
  m ← as_entries value
  name ← as_text (get key_name null m)
  refuse_if (is_empty name)
  refuse_if (ltb 128 (length name))
  runtime ← as_runtime (get key_runtime (text python_313) m)
  skills_raw ← as_items (get key_skills (sequence nil) m)
  refuse_if (ltb 20 (length_items skills_raw))
  skills ← parse_skills python skills_raw []
  requirements_raw ← as_items (get key_requirements (sequence nil) m)
  refuse_if (ltb 50 (length_items requirements_raw))
  requirements ← parse_requirements requirements_raw
  env_raw ← as_entries (get key_env (mapping end) m)
  env ← parse_env env_raw
  let cpu : Text = python.str (get key_cpu (text default_cpu) m)
  refuse_if (not (is_cpu cpu))
  memory_mb ← python.int (get key_memory_mb (number (pos 512)) m)
  refuse_if (ltb_ℤ memory_mb (pos 128) || ltb_ℤ (pos 4096) memory_mb)
  entrypoint ← as_text (get key_entrypoint (text default_entrypoint) m)
  refuse_if (ltb 255 (length entrypoint))
  ok record {
    name = name;
    runtime = runtime;
    skills = skills;
    requirements = requirements;
    env = env;
    cpu = cpu;
    memory_mb = memory_mb;
    entrypoint = entrypoint;
  }

abbrev pub with_ref : Option Text → List Text → List Text
with_ref (some name) refs = name ∷ refs
with_ref none refs = refs

unfoldable pub extract_secret_refs : List (Text × Text) → List Text
unfolding secret_ref
extract_secret_refs [] = []
extract_secret_refs ((k, v) ∷ env) = with_ref (secret_ref v) (extract_secret_refs env)
