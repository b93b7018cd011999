-- ===== src/Scheduler/Spec.antt =====
-- src/scheduler/scheduler.cpp, the checks of a component's triggers before it is registered.
use puppet_master.Base.{
  ℕ, suc, String, ◌<>◌, ◌=ₛ◌, List, [], ◌∷◌, ◌&&◌, Option, none, some, if◌then◌else◌, contains,
  lookup, insert_last, emplace, to_decimal,
}
use puppet_master.Base.Int.{ℤ, pos, ltb_ℤ}
use puppet_master.Core.Status.{Status, ok_status, error, is_ok, invalid_argument}
use puppet_master.Core.Result.{Result, value, failure, from_status}
use puppet_master.Core.Policy.{latest, keep_last, drop_oldest}
use puppet_master.Core.Trigger.{
  TriggerKind, TriggerSpec, kind_eq, empty, validate_trigger_spec, periodic, on_data,
  task_dependency, on_service,
}
use puppet_master.Transport.Message.{EndpointConfig}
use puppet_master.Service.Spec.{ServiceSpec}
use puppet_master.Runtime.Component.{ComponentSpec, validate_spec, ◌and_then◌}

-- `FindTrigger`: the first trigger of the kind.
unfoldable pub find_trigger : List TriggerSpec → TriggerKind → Option TriggerSpec
find_trigger [] kind = none
find_trigger (t ∷ ts) kind = if kind_eq t.kind kind then some t else find_trigger ts kind

-- `EffectiveDeadline`.
unfoldable pub effective_deadline : TriggerSpec → ℤ
effective_deadline t =
    if ltb_ℤ (pos 0) t.deadline
    then t.deadline
    else if kind_eq t.kind periodic
    then t.period
    else pos 0

-- The endpoints of a topic, in order.
unfoldable pub endpoints_of : String → List EndpointConfig → List EndpointConfig
endpoints_of topic [] = []
endpoints_of topic (e ∷ es) =
    if e.topic.name =ₛ topic then e ∷ endpoints_of topic es else endpoints_of topic es

-- `FindReaderEndpoint`: there must be exactly one.
unfoldable pub find_reader_endpoint : ComponentSpec → String → Result EndpointConfig
unfolding endpoints_of
find_reader_endpoint spec topic = elim (endpoints_of topic spec.readers) [
  | [] ↦
      from_status
        (error invalid_argument ("data trigger topic has no matching reader endpoint: " <> topic))
  | e ∷ [] ↦ value e
  | e ∷ f ∷ _ ↦ from_status (
      error invalid_argument
        ("data trigger topic has multiple matching reader endpoints: " <> topic))
]

unfoldable pub find_service : List ServiceSpec → String → Option ServiceSpec
find_service [] name = none
find_service (s ∷ ss) name = if s.name =ₛ name then some s else find_service ss name

-- `FindServedService`.
unfoldable pub find_served_service : ComponentSpec → String → Result ServiceSpec
unfolding find_service
find_served_service spec name = elim (find_service spec.servers name) [
  | none ↦ from_status (
      error invalid_argument
        ("service trigger names a service the component does not serve: " <> name))
  | some s ↦ value s
]

-- `MakeTriggerEndpoint`: a notification reader holds the newest message only.
unfoldable pub make_trigger_endpoint : EndpointConfig → EndpointConfig
make_trigger_endpoint e =
    let policy = record (e.topic.message_policy) {
      freshness = latest;
      retention = keep_last;
      overflow = drop_oldest;
      queue_depth = 1;
    } in
    let topic = record (e.topic) { message_policy = policy } in record e { topic = topic }

abbrev pub status_of {ℓ} : {A : Type ℓ} → Result A → Status
status_of (value a) = ok_status
status_of (failure s) = s

-- The loop over the dependencies of one trigger: each name once, and each found in the component.
unfoldable pub check_dependencies : String → (String → Status) → List String → List String → Status
check_dependencies what find seen [] = ok_status
check_dependencies what find seen (name ∷ names) =
    let rest = check_dependencies what find (insert_last name seen) names in
    if contains name seen
    then error invalid_argument (what <> name)
    else if is_ok (find name)
    then rest
    else find name

-- `ValidateTrigger`.
unfoldable pub validate_trigger : ComponentSpec → TriggerSpec → Status
unfolding check_dependencies
validate_trigger spec t =
    validate_trigger_spec t
    and_then (if kind_eq t.kind on_data
        then (if empty t.data_dependencies
            then error invalid_argument "data trigger requires at least one topic dependency"
            else check_dependencies "data trigger has duplicate topic dependency: "
                (λ topic. status_of (find_reader_endpoint spec topic)) [] t.data_dependencies)
        else ok_status)
    and_then (if kind_eq t.kind task_dependency && empty t.task_dependencies
        then error invalid_argument "task dependency trigger requires at least one task dependency"
        else ok_status)
    and_then (if kind_eq t.kind on_service
        then check_dependencies "service trigger has duplicate service: "
            (λ name. status_of (find_served_service spec name)) [] t.service_dependencies
        else ok_status)

-- The names that earlier triggers of the component use, with the trigger's index.
abbrev pub Uses : Type 0
Uses = List (String × ℕ)

-- The inner loop over one trigger's names: a name that another trigger uses is an error.
unfoldable pub claim_names : String → String → ℕ → Uses → List String → Result Uses
claim_names component what index used [] = value used
claim_names component what index used (name ∷ names) =
    let rest = claim_names component what index (emplace name index used) names in
    elim (lookup name used) [
      | none ↦ rest
      | some first ↦ from_status (
          error invalid_argument (
            "component "
            <> component
            <> " triggers "
            <> to_decimal first
            <> " and "
            <> to_decimal index
            <> what
            <> name))
    ]

-- The loop of `ValidateComponentSpec` over the triggers from `index` on.
unfoldable pub validate_triggers : ComponentSpec → ℕ → Uses → Uses → List TriggerSpec → Status
unfolding claim_names
validate_triggers spec index topics services [] = ok_status
validate_triggers spec index topics services (t ∷ ts) =
    let topics' =
      if kind_eq t.kind on_data
      then claim_names spec.name " share data topic " index topics t.data_dependencies
      else value topics in
    let services' =
      if kind_eq t.kind on_service
      then claim_names spec.name " share service " index services t.service_dependencies
      else value services in
    validate_trigger spec t and_then elim topics' [
      | failure s ↦ s
      | value us ↦ elim services' [
        | failure s ↦ s
        | value vs ↦ validate_triggers spec (suc index) us vs ts
      ]
    ]

-- `ValidateComponentSpec`.
unfoldable pub validate_component_spec : ComponentSpec → Status
unfolding validate_triggers
validate_component_spec spec =
    validate_spec spec and_then validate_triggers spec 0 [] [] spec.triggers
