-- ===== src/RateLimit.antt =====
-- app/auth/rate_limit.py: the token buckets. A minute has `minute` units of time, and a token as
-- many parts, so that a part comes in `refill` times in a unit; floats are taken as exact.
pub mod Bounds
use agent_repository.Common.{
  ℕ, ◌+◌, ◌*◌, ◌/◌, ℤ, pos, pos_part, ◌+ℤ◌, ◌-ℤ◌, ltb_ℤ, leb_ℤ, Bool, true, false, ◌&&◌, Option,
  none, some, [], ◌∷◌, ltb, if◌then◌else◌,
}
use agent_repository.Common.Text.{
  Text, eq_text, strip_prefix, is_infix, before, rstrip, lstrip, is_empty,
}
use agent_repository.Settings.{Settings}
use agent_repository.Fees.{round_up}

pub data Method : Type 0 where
  get post put patch delete other : Method

pub data Category : Type 0 where
  discovery signup recovery registration job_lifecycle write read : Category

pub record Config : Type 0 where
  pub capacity : ℕ
  pub refill : ℕ
  pub category : Category

abbrev pub path_discover : Text
path_discover = b'/' ∷ b'd' ∷ b'i' ∷ b's' ∷ b'c' ∷ b'o' ∷ b'v' ∷ b'e' ∷ b'r' ∷ []

abbrev pub path_signup : Text
path_signup = b'/' ∷ b'a' ∷ b'u' ∷ b't' ∷ b'h' ∷ b'/' ∷ b's' ∷ b'i' ∷ b'g' ∷ b'n' ∷ b'u' ∷ b'p' ∷ []

abbrev pub path_recover : Text
path_recover =
    b'/' ∷ b'a' ∷ b'u' ∷ b't' ∷ b'h' ∷ b'/' ∷ b'r' ∷ b'e' ∷ b'c' ∷ b'o' ∷ b'v' ∷ b'e' ∷ b'r' ∷ []

abbrev pub path_agents : Text
path_agents = b'/' ∷ b'a' ∷ b'g' ∷ b'e' ∷ b'n' ∷ b't' ∷ b's' ∷ []

abbrev pub path_jobs : Text
path_jobs = b'/' ∷ b'j' ∷ b'o' ∷ b'b' ∷ b's' ∷ []

unfoldable pub is_post : Method → Bool
is_post Method.post = true
is_post _ = false

unfoldable pub is_mutation : Method → Bool
is_mutation Method.post = true
is_mutation Method.patch = true
is_mutation Method.delete = true
is_mutation _ = false

unfoldable pub posts_to : Text → Method → Text → Bool
unfolding is_post
posts_to target method path = is_post method && eq_text (rstrip b'/' path) target

unfoldable pub get_rate_config : Settings → Method → Text → Config
unfolding posts_to is_mutation
get_rate_config cfg method path =
    if is_infix path_discover path
    then record {
      capacity = cfg.rate_limit_discovery_capacity;
      refill = cfg.rate_limit_discovery_refill_per_min;
      category = Category.discovery;
    }
    else if posts_to path_signup method path
    then record {
      capacity = cfg.rate_limit_signup_capacity;
      refill = cfg.rate_limit_signup_refill_per_min;
      category = Category.signup;
    }
    else if posts_to path_recover method path
    then record {
      capacity = cfg.rate_limit_signup_capacity;
      refill = cfg.rate_limit_signup_refill_per_min;
      category = Category.recovery;
    }
    else if posts_to path_agents method path
    then record {
      capacity = cfg.rate_limit_registration_capacity;
      refill = cfg.rate_limit_registration_refill_per_min;
      category = Category.registration;
    }
    else if is_mutation method && is_infix path_jobs path
    then record { capacity = 20; refill = 5; category = Category.job_lifecycle }
    else if is_mutation method
    then record {
      capacity = cfg.rate_limit_write_capacity;
      refill = cfg.rate_limit_write_refill_per_min;
      category = Category.write;
    }
    else record {
      capacity = cfg.rate_limit_read_capacity;
      refill = cfg.rate_limit_read_refill_per_min;
      category = Category.read;
    }

-- A bucket in Redis, with the time at which the key expires.
pub record Bucket : Type 0 where
  pub tokens : ℤ
  pub last_refill : ℕ
  pub expires_at : ℕ

pub record Verdict : Type 0 where
  pub allowed : Bool
  pub remaining : ℕ
  pub retry_after : ℕ

abbrev pub min_ℤ : ℤ → ℤ → ℤ
min_ℤ a b = if ltb_ℤ a b then a else b

-- What is in the bucket now: a key that is not there, or has expired, is a full bucket.
unfoldable pub tokens_now : ℕ → Config → ℕ → Option Bucket → ℤ
tokens_now minute cfg now none = pos (cfg.capacity * minute)
tokens_now minute cfg now (some b) =
    if ltb b.expires_at now
    then pos (cfg.capacity * minute)
    else min_ℤ (pos (cfg.capacity * minute))
        (b.tokens +ℤ (pos (now * cfg.refill) -ℤ pos (b.last_refill * cfg.refill)))

-- EXPIRE 120
unfoldable pub stored : ℕ → ℕ → ℤ → Bucket
stored minute now tokens = record {
  tokens = tokens;
  last_refill = now;
  expires_at = now + 2 * minute;
}

-- The Lua script, at the time `now`.
unfoldable pub take_token : ℕ → Config → ℕ → Option Bucket → Verdict × Bucket
unfolding tokens_now stored
take_token minute cfg now b =
    let tokens = tokens_now minute cfg now b in
    if leb_ℤ (pos minute) tokens
    then (
      record {
        allowed = true;
        remaining = pos_part (tokens -ℤ pos minute) / minute;
        retry_after = 0;
      },
      stored minute now (tokens -ℤ pos minute),
    )
    else (
      record {
        allowed = false;
        remaining = 0;
        retry_after = round_up (pos_part (pos minute -ℤ tokens) * 60) (minute * cfg.refill);
      },
      stored minute now tokens,
    )

-- What `check_rate_limit` reads of a request.
pub record Headers : Type 0 where
  pub authorization : Text
  pub forwarded_for : Text
  pub host : Option Text

abbrev pub agent_sig : Text
agent_sig = b'A' ∷ b'g' ∷ b'e' ∷ b'n' ∷ b't' ∷ b'S' ∷ b'i' ∷ b'g' ∷ b' ' ∷ []

-- The agent that the request names, before anything is verified; empty if it names none.
unfoldable pub claimed_agent : Text → Text
claimed_agent authorization = elim (strip_prefix agent_sig authorization) [
  | some credentials ↦ before b':' credentials
  | none ↦ []
]

-- The name that stands for a client with no address.
abbrev pub unknown_host : Text
unknown_host = b'u' ∷ b'n' ∷ b'k' ∷ b'n' ∷ b'o' ∷ b'w' ∷ b'n' ∷ []

unfoldable pub get_client_ip : Headers → Text
get_client_ip h =
    if is_empty h.forwarded_for
    then elim h.host [ some address ↦ address | none ↦ unknown_host ]
    else lstrip b' ' (rstrip b' ' (before b',' h.forwarded_for))

pub data BucketKey : Type 0 where
  by_agent by_ip : Text → Category → BucketKey

unfoldable pub bucket_key : Headers → Category → BucketKey
unfolding claimed_agent get_client_ip
bucket_key h c =
    let agent = claimed_agent h.authorization in
    if is_empty agent then by_ip (get_client_ip h) c else by_agent agent c
