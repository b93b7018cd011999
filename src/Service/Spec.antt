-- ===== src/Service/Spec.antt =====
-- include/puppet_master/service/service.h and src/service/service.cpp: the service specification.
use puppet_master.Base.{ℕ, String, ◌<>◌, ◌==◌, not, if◌then◌else◌}
use puppet_master.Base.Int.{ℤ, pos, ltb_ℤ}
use puppet_master.Core.Status.{Status, ok_status, error, is_ok, invalid_argument}
use puppet_master.Core.Names.{TransportKind, validate_name}
use puppet_master.Transport.Message.{MessageDescriptor, validate_descriptor}

pub record ServiceSpec : Type 0 where
  pub name : String
  pub transport : TransportKind
  pub request : MessageDescriptor
  pub reply : MessageDescriptor
  pub queue_depth : ℕ
  pub heartbeat_interval : ℤ

abbrev pub describe : ServiceSpec → String
describe s = "service " <> s.name

-- `ServiceSpec::Validate`.
unfoldable pub validate_service : ServiceSpec → Status
validate_service s =
    let named = validate_name "service name" s.name in
    let request = validate_descriptor s.request in
    let reply = validate_descriptor s.reply in
    if not (is_ok named)
    then named
    else if not (is_ok request)
    then error invalid_argument (describe s <> " request: " <> request.message)
    else if not (is_ok reply)
    then error invalid_argument (describe s <> " reply: " <> reply.message)
    else if s.queue_depth == 0
    then error invalid_argument (describe s <> ": queue_depth must be greater than zero")
    else if not (ltb_ℤ (pos 0) s.heartbeat_interval)
    then error invalid_argument (describe s <> ": heartbeat_interval must be greater than zero")
    else ok_status
