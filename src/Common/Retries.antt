-- ===== src/Common/Retries.antt =====
-- Celery's retries of a task that raises, as apps/common/celery_policy.py and the tasks ask for
-- them: after `max_retries` of them the last exception is what the task ends with.
use godown_rbac_system.Prelude.{ℕ, zero, suc}
use godown_rbac_system.World.{Result, ok, err}

-- `TASK_MAX_RETRIES`
abbrev pub task_max_retries : ℕ
task_max_retries = 3

module _ {A W : Type 0} where
  abbrev pub or_again : (W → Result A × W) → Result A × W → Result A × W
  or_again again (ok a, w) = (ok a, w)
  or_again again (err e, w) = again w

  -- The attempt, and as many retries at most.
  unfoldable pub with_retries : ℕ → (W → Result A × W) → W → Result A × W
  with_retries zero attempt w = attempt w
  with_retries (suc retries) attempt w = or_again (with_retries retries attempt) (attempt w)
