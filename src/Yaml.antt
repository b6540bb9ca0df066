-- ===== src/Yaml.antt =====
-- Values that `yaml.safe_load` gives; bytes, sets and pairs are left out.
use agent_repository.Common.{ℕ, ◌+◌, ℤ, pos, Bool, true, false, not, ◌==◌, if◌then◌else◌}
use agent_repository.Common.Text.{Text, eq_text, is_empty}

-- A float carries its `repr`, and whether it is zero.
mutual
  pub data Yaml : Type 0 where
    null : Yaml
    boolean : Bool → Yaml
    number : ℤ → Yaml
    real : Text → Bool → Yaml
    date : ℕ → Yaml
    text : Text → Yaml
    sequence : Items → Yaml
    mapping : Entries → Yaml

  pub data Items : Type 0 where
    nil : Items
    item : Yaml → Items → Items

  pub data Entries : Type 0 where
    end : Entries
    entry : Yaml → Yaml → Entries → Entries

-- `bool(value)`
unfoldable pub is_truthy : Yaml → Bool
is_truthy null = false
is_truthy (boolean b) = b
is_truthy (number (pos n)) = not (n == 0)
is_truthy (number _) = true
is_truthy (real r is_zero) = not is_zero
is_truthy (date d) = true
is_truthy (text t) = not (is_empty t)
is_truthy (sequence nil) = false
is_truthy (sequence (item x xs)) = true
is_truthy (mapping end) = false
is_truthy (mapping (entry k v es)) = true

-- Whether a key of a mapping is this text.
unfoldable pub is_key : Text → Yaml → Bool
is_key key (text t) = eq_text key t
is_key key _ = false

-- `mapping.get(key, default)`
unfoldable pub get : Text → Yaml → Entries → Yaml
unfolding is_key
get key default end = default
get key default (entry k v es) = let rest = get key default es in if is_key key k then v else rest

unfoldable pub length_items : Items → ℕ
length_items nil = 0
length_items (item x xs) = 1 + length_items xs
