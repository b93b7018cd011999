-- ===== src/Runtime/Component.antt =====
-- include/puppet_master/runtime/component.h: what a component declares.
use puppet_master.Base.{String, ◌<>◌, List, [], ◌∷◌, ◌++◌, if◌then◌else◌}
use puppet_master.Core.Status
use puppet_master.Core.Status.{Status, ok_status, error, is_ok, invalid_argument}
use puppet_master.Core.Names.{validate_name}
use puppet_master.Core.Trigger.{TriggerSpec, validate_trigger_spec}
use puppet_master.Transport.Message.{EndpointConfig, validate_endpoint}
use puppet_master.Service.Spec.{ServiceSpec, validate_service}

-- The description and the parameters do not bear on validation or scheduling, and are left out.
pub record ComponentSpec : Type 0 where
  pub name : String
  pub readers : List EndpointConfig
  pub writers : List EndpointConfig
  pub triggers : List TriggerSpec
  pub servers : List ServiceSpec
  pub clients : List ServiceSpec

-- A loop that stops at the first status that is not OK.
unfoldable pub first_error {ℓ} : {A : Type ℓ} → (A → Status) → List A → Status
first_error check [] = ok_status
first_error check (x ∷ xs) = if is_ok (check x) then first_error check xs else check x

-- `ValidateEndpoints`.
unfoldable pub validate_endpoints : String → List EndpointConfig → Status
validate_endpoints kind = first_error λ e.
    let status = validate_endpoint e in
    if is_ok status
    then ok_status
    else error invalid_argument (kind <> " endpoint is invalid: " <> Status.to_string status)

infixr 6 ◌and_then◌
-- `if (!status.ok()) return status;` before the next check.
abbrev pub ◌and_then◌ : Status → Status → Status
a and_then b = if is_ok a then b else a

-- `ComponentSpec::Validate`.
unfoldable pub validate_spec : ComponentSpec → Status
validate_spec s =
    validate_name "component name" s.name
    and_then validate_endpoints "reader" s.readers
    and_then validate_endpoints "writer" s.writers
    and_then first_error validate_trigger_spec s.triggers
    and_then first_error validate_service (s.servers ++ s.clients)
