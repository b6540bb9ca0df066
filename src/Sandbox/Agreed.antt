-- ===== src/Sandbox/Agreed.antt =====
-- What is accepted with a proposal is not refused when it is run.
use agent_repository.Common.{ℤ, pos, ◌≡◌, Option, some, arith}
use agent_repository.Common.Text.{Text}
use agent_repository.Sandbox.{
  ScriptCriteria, validate_limits, validate_criteria_script, validate_sandbox_inputs,
  validate_script_criteria, run_script_test, get_default, python_313,
}

limits_agree :
    (decode : Text → Option Text) (script runtime : Text) (timeout memory : ℤ)
    → validate_limits decode script runtime timeout memory
      ≡ validate_sandbox_inputs decode script runtime timeout memory
unfolding validate_limits validate_sandbox_inputs
limits_agree decode script runtime timeout memory = ground arith

-- For criteria with a script: what validates them with a proposal and what validates the run
-- that is started from them refuse the same, for the same reason.
pub run_script_test-accepted :
    (decode : Text → Option Text) (criteria : ScriptCriteria) (script : Text)
    → criteria.script ≡ some script
    → validate_script_criteria decode criteria ≡ run_script_test decode script criteria
unfolding validate_script_criteria validate_criteria_script run_script_test
run_script_test-accepted decode criteria script given = rw given (
    limits_agree decode script (get_default python_313 criteria.runtime)
      (get_default (pos 60) criteria.timeout_seconds)
      (get_default (pos 256) criteria.memory_limit_mb))
