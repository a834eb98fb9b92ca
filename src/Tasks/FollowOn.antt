-- ===== src/Tasks/FollowOn.antt =====
-- barbican/tasks/common.py: what a task says about its follow-on processing.
use barbican.Shared.{ℕ, String, Bool, true, false, Option, none, some}
use barbican.Shared.Int.{ℤ, pos, pos_part}

pub data RetryTask : Type 0 where
  invoke_same_task no_action_required invoke_cert_status_check_task : RetryTask

abbrev pub retry_msec_default : ℕ
retry_msec_default = 60000

-- FollowOnProcessingStatusDTO; a retry task that is None is `none`.
pub record FollowOn : Type 0 where
  pub status : String
  pub status_message : String
  pub retry_task : Option RetryTask
  pub retry_msec : ℕ

-- `__init__`: no interval and a negative one are both zero.
abbrev pub stored_msec : Option ℤ → ℕ
stored_msec none = 0
stored_msec (some msec) = pos_part msec

abbrev pub new_follow_on : String → String → Option RetryTask → Option ℤ → FollowOn
new_follow_on status message task msec = record {
  status = status;
  status_message = message;
  retry_task = task;
  retry_msec = stored_msec msec;
}

-- FollowOnProcessingStatusDTO() with every default
abbrev pub default_follow_on : FollowOn
default_follow_on =
    new_follow_on "Unknown" "Unknown" (some no_action_required) (some (pos retry_msec_default))

abbrev is_action : RetryTask → Bool
is_action no_action_required = false
is_action invoke_same_task = true
is_action invoke_cert_status_check_task = true

unfoldable pub is_follow_on_needed : FollowOn → Bool
is_follow_on_needed f = elim f.retry_task [ none ↦ false | some t ↦ is_action t ]
