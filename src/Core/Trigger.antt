-- ===== src/Core/Trigger.antt =====
-- include/puppet_master/core/types.h: trigger specifications. Durations are signed nanoseconds.
use puppet_master.Base.{String, List, [], ◌∷◌, Bool, true, false, ◌&&◌, not, if◌then◌else◌}
use puppet_master.Base.Int.{ℤ, pos, ltb_ℤ}
use puppet_master.Core.Status.{Status, ok_status, error, invalid_argument}

pub data TriggerKind : Type 0 where
  periodic on_data task_dependency manual on_service : TriggerKind

pub data DependencyPolicy : Type 0 where
  all_of any_of : DependencyPolicy

pub record TriggerSpec : Type 0 where
  pub kind : TriggerKind
  pub period : ℤ
  pub dependency_policy : DependencyPolicy
  pub data_dependencies : List String
  pub task_dependencies : List String
  pub priority : ℤ
  pub deadline : ℤ
  pub service_dependencies : List String

-- `operator==` of the enumerations.
abbrev pub kind_eq : TriggerKind → TriggerKind → Bool
kind_eq periodic periodic = true
kind_eq on_data on_data = true
kind_eq task_dependency task_dependency = true
kind_eq manual manual = true
kind_eq on_service on_service = true
kind_eq _ _ = false

abbrev pub is_any : DependencyPolicy → Bool
is_any any_of = true
is_any all_of = false

abbrev pub empty : List String → Bool
empty [] = true
empty (x ∷ xs) = false

-- `TriggerSpec::Validate`.
unfoldable pub validate_trigger_spec : TriggerSpec → Status
validate_trigger_spec t =
    if kind_eq t.kind periodic && not (ltb_ℤ (pos 0) t.period)
    then error invalid_argument "periodic trigger period must be greater than zero"
    else if kind_eq t.kind on_service && empty t.service_dependencies
    then error invalid_argument "service trigger requires at least one service"
    else if not (kind_eq t.kind on_service) && not (empty t.service_dependencies)
    then error invalid_argument "trigger services can only be used with service triggers"
    else if not (kind_eq t.kind on_data)
        && not (kind_eq t.kind task_dependency)
        && is_any t.dependency_policy
    then error invalid_argument
        "trigger dependency_policy can only be used with data or task dependency triggers"
    else if ltb_ℤ t.deadline (pos 0)
    then error invalid_argument "trigger deadline must not be negative"
    else ok_status
