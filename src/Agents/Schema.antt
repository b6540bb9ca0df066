-- ===== src/Agents/Schema.antt =====
-- app/schemas/agent.py: the validation of a registration. What `urlparse` and
-- `ipaddress.ip_address` make of a text is an argument.
use agent_repository.Common.{
  ℕ, ◌+◌, ◌*◌, ◌/◌, ◌==◌, Bool, true, false, not, ◌&&◌, ◌||◌, leb, Option, none, some, List, [],
  ◌∷◌, length, if◌then◌else◌,
}
use agent_repository.Common.Text.{Text, eq_text, is_empty}
use agent_repository.Models.{HostingMode}
use agent_repository.Session.{⊤, Result, ok, err, invalid_input}
use agent_repository.Hosting.Patterns.{drop_newline, all_chars, is_alnum}

pub record Url : Type 0 where
  pub scheme : Text
  pub hostname : Text  -- empty if there is none

pub data Address : Type 0 where
  v4 v6 : ℕ → Address

pub record Net : Type 0 where
  pub urlparse : Text → Option Url  -- `none` is a ValueError
  pub ip_address : Text → Option Address

-- The address a.b.c.d
abbrev pub dotted : ℕ → ℕ → ℕ → ℕ → ℕ
dotted a b c d = ((a * 256 + b) * 256 + c) * 256 + d

-- `addr in network`, for the networks of `_BLOCKED_NETWORKS`: the leading bits are those of the
-- network.
unfoldable pub is_blocked : Address → Bool
is_blocked (v4 n) =
    n / 16777216 == 10
    || n / 1048576 == 2753
    || n / 65536 == 49320
    || n / 16777216 == 127
    || n / 65536 == 43518
is_blocked (v6 n) = n == 1 || n / 2658455991569831745807614120560689152 == 126

abbrev pub https : Text
https = b'h' ∷ b't' ∷ b't' ∷ b'p' ∷ b's' ∷ []

unfoldable pub validate_endpoint_url : Net → Text → Result ⊤
unfolding is_blocked
validate_endpoint_url net url = elim (net.urlparse url) [
  | none ↦ err invalid_input
  | some parsed ↦
      if not (eq_text parsed.scheme https) || is_empty parsed.hostname
      then err invalid_input
      else elim (net.ip_address parsed.hostname) [
        | some addr ↦ if is_blocked addr then err invalid_input else ok tt
        | none ↦ ok tt
      ]
]

-- `_CAPABILITY_PATTERN.match`: `^[a-zA-Z0-9-]+$`
unfoldable pub is_capability : Text → Bool
unfolding drop_newline all_chars
is_capability t =
    not (is_empty (drop_newline t)) && all_chars (λ c. is_alnum c || c == b'-') (drop_newline t)

unfoldable pub all_capabilities : List Text → Bool
unfolding is_capability
all_capabilities [] = true
all_capabilities (c ∷ cs) = leb (length c) 64 && is_capability c && all_capabilities cs

unfoldable pub validate_capabilities : Option (List Text) → Bool
unfolding all_capabilities
validate_capabilities none = true
validate_capabilities (some cs) = leb (length cs) 20 && all_capabilities cs

-- The mode, from the one that was asked for and whether there is an endpoint.
unfoldable pub resolve_hosting_mode : Option HostingMode → Bool → Result HostingMode
resolve_hosting_mode none true = ok HostingMode.external
resolve_hosting_mode none false = ok HostingMode.client_only
resolve_hosting_mode (some HostingMode.external) true = ok HostingMode.external
resolve_hosting_mode (some HostingMode.external) false = err invalid_input
resolve_hosting_mode (some HostingMode.hosted) has_endpoint = ok HostingMode.hosted
resolve_hosting_mode (some mode) true = err invalid_input
resolve_hosting_mode (some mode) false = ok mode
