-- ===== src/Core/Status.antt =====
-- include/puppet_master/core/status.h: the codes, and a code with its message.
use puppet_master.Base.{Bool, true, false, String, ◌<>◌, ◌=ₛ◌, if◌then◌else◌}

pub data StatusCode : Type 0 where
  ok cancelled unknown invalid_argument not_found already_exists failed_precondition : StatusCode
  out_of_range permission_denied resource_exhausted unsupported unavailable : StatusCode
  deadline_exceeded data_loss internal : StatusCode

unfoldable pub status_code_name : StatusCode → String
status_code_name ok = "ok"
status_code_name cancelled = "cancelled"
status_code_name unknown = "unknown"
status_code_name invalid_argument = "invalid_argument"
status_code_name not_found = "not_found"
status_code_name already_exists = "already_exists"
status_code_name failed_precondition = "failed_precondition"
status_code_name out_of_range = "out_of_range"
status_code_name permission_denied = "permission_denied"
status_code_name resource_exhausted = "resource_exhausted"
status_code_name unsupported = "unsupported"
status_code_name unavailable = "unavailable"
status_code_name deadline_exceeded = "deadline_exceeded"
status_code_name data_loss = "data_loss"
status_code_name internal = "internal"

pub record Status : Type 0 where
  pub code : StatusCode
  pub message : String

-- The default-constructed `Status`.
abbrev pub ok_status : Status
ok_status = record { code = ok; message = "" }

-- `Status::Error`, the constructor behind `Status::InvalidArgument` and the other named ones.
abbrev pub error : StatusCode → String → Status
error ok text = ok_status
error code text = record { code = code; message = text }

abbrev pub is_ok : Status → Bool
is_ok s = elim s.code [ ok ↦ true | _ ↦ false ]

unfoldable pub to_string : Status → String
unfolding status_code_name
to_string s =
    if s.message =ₛ ""
    then status_code_name s.code
    else status_code_name s.code <> ": " <> s.message
