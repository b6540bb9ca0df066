-- ===== src/Sandbox.antt =====
-- app/services/sandbox.py: the two validations of what a script is run with, when it is proposed and
-- when it is run. Base64 decoding is an argument, `none` being an error; the numbers are taken to be
-- integers. The run itself is outside.
pub mod Agreed
use agent_repository.Common.{
  ℕ, ℤ, pos, leb_ℤ, ltb_ℤ, ltb, Bool, not, ◌||◌, Option, none, some, [], ◌∷◌, length, if◌then◌else◌,
}
use agent_repository.Common.Text.{Text, eq_text}

abbrev pub python_313 : Text
python_313 = b'p' ∷ b'y' ∷ b't' ∷ b'h' ∷ b'o' ∷ b'n' ∷ b':' ∷ b'3' ∷ b'.' ∷ b'1' ∷ b'3' ∷ []

abbrev pub python_312 : Text
python_312 = b'p' ∷ b'y' ∷ b't' ∷ b'h' ∷ b'o' ∷ b'n' ∷ b':' ∷ b'3' ∷ b'.' ∷ b'1' ∷ b'2' ∷ []

abbrev pub node_20 : Text
node_20 = b'n' ∷ b'o' ∷ b'd' ∷ b'e' ∷ b':' ∷ b'2' ∷ b'0' ∷ []

abbrev pub node_22 : Text
node_22 = b'n' ∷ b'o' ∷ b'd' ∷ b'e' ∷ b':' ∷ b'2' ∷ b'2' ∷ []

abbrev pub bash : Text
bash = b'b' ∷ b'a' ∷ b's' ∷ b'h' ∷ []

abbrev pub ruby_33 : Text
ruby_33 = b'r' ∷ b'u' ∷ b'b' ∷ b'y' ∷ b':' ∷ b'3' ∷ b'.' ∷ b'3' ∷ []

unfoldable pub is_allowed_runtime : Text → Bool
is_allowed_runtime r =
    eq_text r python_313
    || eq_text r python_312
    || eq_text r node_20
    || eq_text r node_22
    || eq_text r bash
    || eq_text r ruby_33

abbrev pub max_timeout : ℤ
max_timeout = pos 300

abbrev pub max_memory : ℤ
max_memory = pos 512

abbrev pub max_script_size : ℕ
max_script_size = 1048576

pub data Refusal : Type 0 where
  no_script unsupported_runtime bad_timeout bad_memory invalid_base64 script_too_large : Refusal

unfoldable pub check_script : Option Text → Option Refusal
check_script none = some Refusal.invalid_base64
check_script (some bytes) =
    if ltb max_script_size (length bytes) then some Refusal.script_too_large else none

-- `none` is a valid input.
unfoldable pub validate_sandbox_inputs : (Text → Option Text) → Text → Text → ℤ → ℤ → Option Refusal
unfolding is_allowed_runtime check_script
validate_sandbox_inputs decode script runtime timeout memory =
    if not (is_allowed_runtime runtime)
    then some Refusal.unsupported_runtime
    else if leb_ℤ timeout (pos 0) || ltb_ℤ max_timeout timeout
    then some Refusal.bad_timeout
    else if leb_ℤ memory (pos 0) || ltb_ℤ max_memory memory
    then some Refusal.bad_memory
    else check_script (decode script)

-- The keys of a criteria dict that are read.
pub record ScriptCriteria : Type 0 where
  pub script : Option Text
  pub runtime : Option Text
  pub timeout_seconds : Option ℤ
  pub memory_limit_mb : Option ℤ

abbrev pub get_default : {A : Type 0} → A → Option A → A
get_default d none = d
get_default d (some a) = a

unfoldable pub validate_limits : (Text → Option Text) → Text → Text → ℤ → ℤ → Option Refusal
unfolding is_allowed_runtime check_script
validate_limits decode script runtime timeout memory =
    if not (is_allowed_runtime runtime)
    then some Refusal.unsupported_runtime
    else if leb_ℤ timeout (pos 0)
    then some Refusal.bad_timeout
    else if ltb_ℤ max_timeout timeout
    then some Refusal.bad_timeout
    else if leb_ℤ memory (pos 0)
    then some Refusal.bad_memory
    else if ltb_ℤ max_memory memory
    then some Refusal.bad_memory
    else check_script (decode script)

unfoldable pub validate_criteria_script :
    (Text → Option Text) → ScriptCriteria → Option Text → Option Refusal
unfolding validate_limits
validate_criteria_script decode criteria none = some Refusal.no_script
validate_criteria_script decode criteria (some script) =
    validate_limits decode script (get_default python_313 criteria.runtime)
      (get_default (pos 60) criteria.timeout_seconds)
      (get_default (pos 256) criteria.memory_limit_mb)

unfoldable pub validate_script_criteria : (Text → Option Text) → ScriptCriteria → Option Refusal
unfolding validate_criteria_script
validate_script_criteria decode criteria = validate_criteria_script decode criteria criteria.script

-- app/services/test_runner.py: what a run is started with.
unfoldable pub run_script_test : (Text → Option Text) → Text → ScriptCriteria → Option Refusal
unfolding validate_sandbox_inputs
run_script_test decode script criteria =
    validate_sandbox_inputs decode script (get_default python_313 criteria.runtime)
      (get_default (pos 60) criteria.timeout_seconds)
      (get_default (pos 256) criteria.memory_limit_mb)
