-- ===== src/Hosting/Parts.antt =====
-- What the parts of a manifest that is accepted are known to be.
use agent_repository.Common.{
  ◌≤◌, ◌≡◌, refl, subst, true, false, Bool-cases, ◌⊎◌, inl, inr, List, [], ◌∷◌, length, arith,
}
use agent_repository.Common.Text.{Text, eq_text, eq_text_refl}
use agent_repository.Yaml.{
  Yaml, Items, Entries, null, text, get, nil, item, end, entry, is_truthy, length_items,
}
use agent_repository.Session.{Error, Result, ok, err}
use agent_repository.Hosting.Words.{key_id, key_description, key_base_price, default_price}
use agent_repository.Hosting.Patterns.{is_skill_id, is_env_key}
use agent_repository.Hosting.Manifest.{
  Python, SkillDef, is_member, as_entries, as_skill_id, as_env_key, parse_skills,
  parse_requirements, parse_env,
}

-- No skill has this id.
abbrev pub NoSkill : Text → List SkillDef → Type 0
NoSkill id [] = Unit
NoSkill id (s ∷ ss) = (eq_text id s.id ≡ false) × NoSkill id ss

abbrev pub AreSkills : List SkillDef → Type 0
AreSkills [] = Unit
AreSkills (s ∷ ss) =
    (is_skill_id s.id ≡ true) × (is_truthy s.description ≡ true) × NoSkill s.id ss × AreSkills ss

abbrev pub AreRequirements : List Text → Type 0
AreRequirements [] = Unit
AreRequirements (r ∷ rs) = (length r ≤ 128) × AreRequirements rs

abbrev pub HasEnvKeys : List (Text × Text) → Type 0
HasEnvKeys [] = Unit
HasEnvKeys (kv ∷ kvs) = (is_env_key kv.0 ≡ true) × HasEnvKeys kvs

pub Result-cases :
    {A : Type 0} (r : Result A) → ((a : A) × (r ≡ ok a)) ⊎ ((e : Error) × (r ≡ err e))
Result-cases (ok a) = inl (a, refl)
Result-cases (err e) = inr (e, refl)

eq_text_sound : (t u : Text) → eq_text t u ≡ true → t ≡ u
unfolding eq_text
eq_text_sound [] [] h = refl
eq_text_sound [] (d ∷ u) h = ground arith
eq_text_sound (c ∷ t) [] h = ground arith
eq_text_sound (c ∷ t) (d ∷ u) h = grind (arith, eq_text_sound t u)

-- A text that is not in a list differs from one that is.
member-differs :
    (t u : Text) (us : List Text)
    → is_member t us ≡ true
    → is_member u us ≡ false
    → eq_text t u ≡ false
member-differs t u us one other = elim (Bool-cases (eq_text t u)) [
  | inl same ↦ grind (arith, eq_text_sound t u same)
  | inr differ ↦ differ
]

as_skill_id-valid : (v : Yaml) (id : Text) → as_skill_id v ≡ ok id → is_skill_id id ≡ true
unfolding as_skill_id
as_skill_id-valid (text t) id h = ground arith
as_skill_id-valid v id h = ground arith

abbrev pub Parses : List Text → Items → List SkillDef → Type 0
Parses seen xs ss =
    (length ss ≡ length_items xs)
    × AreSkills ss
    × ((id : Text) → is_member id seen ≡ true → NoSkill id ss)

cons-Parses :
    (seen : List Text) (x : Yaml) (xs : Items) (s : SkillDef) (qs : List SkillDef)
    → is_member s.id seen ≡ false
    → is_truthy s.description ≡ true
    → is_skill_id s.id ≡ true
    → Parses (s.id ∷ seen) xs qs
    → Parses seen (item x xs) (s ∷ qs)
unfolding length_items is_member
cons-Parses seen x xs s qs fresh described valid rest =
    let own : is_member s.id (s.id ∷ seen) ≡ true = ground (arith, eq_text_refl s.id) in
    let others : (id : Text) → is_member id seen ≡ true → NoSkill id (s ∷ qs) = λ id there.
      let differ = member-differs id s.id seen there fresh in
      let kept : is_member id (s.id ∷ seen) ≡ true = ground (arith, there, differ) in
      (differ, rest.2 id kept) in
    (ground (arith, rest.0), (valid, described, rest.2 s.id own, rest.1), others)

parsed_skill :
    (python : Python) (x : Yaml) (xs : Items) (seen : List Text) (ss : List SkillDef) (m : Entries)
    (id : Text) (qs : List SkillDef)
    → parse_skills python (item x xs) seen ≡ ok ss
    → as_entries x ≡ ok m
    → as_skill_id (get key_id null m) ≡ ok id
    → parse_skills python xs (id ∷ seen) ≡ ok qs
    → Parses (id ∷ seen) xs qs
    → Parses seen (item x xs) ss
unfolding parse_skills
parsed_skill python x xs seen ss m id qs h e i r rest =
    let description = get key_description (text []) m in
    let valid = as_skill_id-valid (get key_id null m) id i in
    elim (Bool-cases (is_member id seen)) [
      | inl seen_before ↦ ground (arith, h, e, i, seen_before)
      | inr fresh ↦ elim (Bool-cases (is_truthy description)) [
        | inr missing ↦ ground (arith, h, e, i, fresh, missing)
        | inl described ↦
            let s : SkillDef = record {
              id = id;
              description = description;
              base_price = python.str (get key_base_price (text default_price) m);
            } in
            let all : s ∷ qs ≡ ss = ground (arith, h, e, i, r, fresh, described) in
            subst (λ l. Parses seen (item x xs) l) all
              (cons-Parses seen x xs s qs fresh described valid rest)
      ]
    ]

pub parse_skills-Parses :
    (python : Python) (xs : Items) (seen : List Text) (ss : List SkillDef)
    → parse_skills python xs seen ≡ ok ss
    → Parses seen xs ss
unfolding parse_skills length_items
parse_skills-Parses python nil seen ss h = ground arith
parse_skills-Parses python (item x xs) seen ss h = elim (Result-cases (as_entries x)) [
  | inr (w, e) ↦ ground (arith, e)
  | inl (m, e) ↦ elim (Result-cases (as_skill_id (get key_id null m))) [
    | inr (w, i) ↦ ground (arith, e, i)
    | inl (id, i) ↦ elim (Result-cases (parse_skills python xs (id ∷ seen))) [
      | inr (w, r) ↦ ground (arith, e, i, r)
      | inl (qs, r) ↦
          parsed_skill python x xs seen ss m id qs h e i r
            (parse_skills-Parses python xs (id ∷ seen) qs r)
    ]
  ]
]

pub parse_requirements-AreRequirements :
    (xs : Items) (rs : List Text)
    → parse_requirements xs ≡ ok rs
    → (length rs ≡ length_items xs) × AreRequirements rs
unfolding parse_requirements length_items
parse_requirements-AreRequirements nil rs h = ground arith
parse_requirements-AreRequirements (item x xs) rs h = elim (Result-cases (parse_requirements xs)) [
  | inl (qs, e) ↦ ground (arith, e, parse_requirements-AreRequirements xs qs e)
  | inr (w, e) ↦ ground (arith, e)
]

pub parse_env-HasEnvKeys :
    (es : Entries) (kvs : List (Text × Text)) → parse_env es ≡ ok kvs → HasEnvKeys kvs
unfolding parse_env as_env_key
parse_env-HasEnvKeys end kvs h = ground arith
parse_env-HasEnvKeys (entry k v es) kvs h = elim (Result-cases (parse_env es)) [
  | inl (qs, e) ↦ ground (arith, e, parse_env-HasEnvKeys es qs e)
  | inr (w, e) ↦ ground (arith, e)
]
