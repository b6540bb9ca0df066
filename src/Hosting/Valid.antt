-- ===== src/Hosting/Valid.antt =====
-- What a manifest that is accepted is known to be.
use agent_repository.Common.{◌≤◌, pos, ◌≤ℤ◌, ◌≡◌, true, false, inl, inr, [], length, arith}
use agent_repository.Common.Text.{Text, is_empty}
use agent_repository.Yaml.{Yaml, Entries, text, get, nil, sequence, mapping, end, length_items}
use agent_repository.Session.{Error, Result, ok, err}
use agent_repository.Sandbox.{python_313}
use agent_repository.Hosting.Words.{key_runtime, key_skills, key_requirements, key_env}
use agent_repository.Hosting.Manifest.{
  Python, AgentManifest, is_runtime, is_cpu, as_entries, as_items, as_runtime, parse_skills,
  parse_requirements, parse_env, parse_manifest,
}
use agent_repository.Hosting.Parts.{
  AreSkills, AreRequirements, HasEnvKeys, Result-cases, parse_skills-Parses,
  parse_requirements-AreRequirements, parse_env-HasEnvKeys,
}

abbrev pub IsValid : AgentManifest → Type 0
IsValid m =
    (is_empty m.name ≡ false)
    × (length m.name ≤ 128)
    × (is_runtime m.runtime ≡ true)
    × ((length m.skills ≤ 20) × AreSkills m.skills)
    × ((length m.requirements ≤ 50) × AreRequirements m.requirements)
    × HasEnvKeys m.env
    × (is_cpu m.cpu ≡ true)
    × ((pos 128 ≤ℤ m.memory_mb) × (m.memory_mb ≤ℤ pos 4096))
    × (length m.entrypoint ≤ 255)

as_runtime-known : (v : Yaml) (r : Text) → as_runtime v ≡ ok r → is_runtime r ≡ true
unfolding as_runtime
as_runtime-known v r h = ground arith

refused :
    (python : Python) (value : Yaml) (w : Error) (m : AgentManifest)
    → parse_manifest python value ≡ ok m
    → as_entries value ≡ err w
    → ⊥
unfolding parse_manifest
refused python value w m h e = ground (arith, e)

-- The result is a value that this holds of.
abbrev Gives : {A : Type 0} → Result A → (A → Type 0) → Type 0
Gives (ok a) P = P a
Gives (err e) P = ⊥

map-Gives :
    {A : Type 0} (r : Result A) (P : A → Type 0) (C : Type 0) → Gives r P → ((a : A) → P a → C) → C
map-Gives (ok a) P C g f = f a g
map-Gives (err e) P C g f = absurd g

module _ (python : Python) (value : Yaml) (es : Entries) (m : AgentManifest)
    (h : parse_manifest python value ≡ ok m) (e : as_entries value ≡ ok es) where
  parsed_parts :
      (as_runtime (get key_runtime (text python_313) es) ≡ ok m.runtime)
      × Gives
          (as_items (get key_skills (sequence nil) es))
          (λ xs. (length_items xs ≤ 20) × (parse_skills python xs [] ≡ ok m.skills))
      × Gives
          (as_items (get key_requirements (sequence nil) es))
          (λ xs. (length_items xs ≤ 50) × (parse_requirements xs ≡ ok m.requirements))
      × Gives (as_entries (get key_env (mapping end) es)) (λ vs. parse_env vs ≡ ok m.env)
  unfolding parse_manifest
  parsed_parts = ground (arith, h, e)

  parsed_limits :
      (is_empty m.name ≡ false)
      × (length m.name ≤ 128)
      × (is_cpu m.cpu ≡ true)
      × (pos 128 ≤ℤ m.memory_mb)
      × (m.memory_mb ≤ℤ pos 4096)
      × (length m.entrypoint ≤ 255)
  unfolding parse_manifest
  parsed_limits = ground (arith, h, e)

  parsed_entries : IsValid m
  parsed_entries =
      let (runtime, skills, requirements, env) = parsed_parts in
      let limits = parsed_limits in
      let skills_hold =
        map-Gives (as_items (get key_skills (sequence nil) es))
          (λ xs. (length_items xs ≤ 20) × (parse_skills python xs [] ≡ ok m.skills))
          ((length m.skills ≤ 20) × AreSkills m.skills) skills
          (λ xs (few, parsed).
            let all = parse_skills-Parses python xs [] m.skills parsed in
            (omega (arith, all.0), all.1)) in
      let requirements_hold =
        map-Gives (as_items (get key_requirements (sequence nil) es))
          (λ xs. (length_items xs ≤ 50) × (parse_requirements xs ≡ ok m.requirements))
          ((length m.requirements ≤ 50) × AreRequirements m.requirements) requirements
          (λ xs (few, parsed).
            let all = parse_requirements-AreRequirements xs m.requirements parsed in
            (omega (arith, all.0), all.1)) in
      let env_holds =
        map-Gives (as_entries (get key_env (mapping end) es)) (λ vs. parse_env vs ≡ ok m.env)
          (HasEnvKeys m.env) env (λ vs parsed. parse_env-HasEnvKeys vs m.env parsed) in
      (
        limits.0,
        limits.1,
        as_runtime-known (get key_runtime (text python_313) es) m.runtime runtime,
        skills_hold,
        requirements_hold,
        env_holds,
        limits.2,
        (limits.3, limits.4),
        limits.5,
      )

-- A manifest that is accepted: its name has 1 to 128 characters, its runtime and its cpu are among
-- the four there are, it has at most 20 skills, each with a description and an id of the pattern,
-- no two with the same id, at most 50 requirements of at most 128 characters, environment keys of
-- the pattern, 128 to 4096 MB of memory, and an entry point of at most 255 characters.
pub parse_manifest-IsValid :
    (python : Python) (value : Yaml) (m : AgentManifest)
    → parse_manifest python value ≡ ok m
    → IsValid m
parse_manifest-IsValid python value m h = elim (Result-cases (as_entries value)) [
  | inl (es, e) ↦ parsed_entries python value es m h e
  | inr (w, e) ↦ absurd (refused python value w m h e)
]
