-- ===== src/Core/Names.antt =====
-- include/puppet_master/core/types.h: names, and the topic specification.
pub mod Laws
use Prim.Native.Char.{code}
use Prim.Native.String.{count}
use puppet_master.Base.{ℕ, String, ◌<>◌, ◌=ₛ◌, Bool, false, ◌||◌, ltb, leb, ◌==◌, if◌then◌else◌}
use puppet_master.Core.Status.{Status, ok_status, error, is_ok, invalid_argument}
use puppet_master.Core.Result.{Result, value, from_status}
use puppet_master.Core.Policy
use puppet_master.Core.Policy.{MessagePolicy}

pub data TransportKind : Type 0 where
  in_memory fast_dds zmq ipc : TransportKind

pub data TopicLifetime : Type 0 where
  shared reader_owned : TopicLifetime

abbrev pub max_name_length : ℕ
max_name_length = 255

-- Bytes at most 0x20, and 0x7f.
unfoldable pub has_control : String → Bool
has_control String.[] = false
has_control (String.◌∷◌ c s) = leb (code c) 0x20 || code c == 0x7f || has_control s

-- `ValidateName`.
unfoldable pub validate_name : String → String → Status
validate_name kind name =
    if name =ₛ ""
    then error invalid_argument (kind <> " must not be empty")
    else if ltb max_name_length (count name)
    then error invalid_argument (kind <> " exceeds max length")
    else if has_control name
    then error invalid_argument (kind <> " contains whitespace or control characters")
    else ok_status

-- `NamedValue::Create` of a topic's name.
unfoldable pub create_topic_name : String → Result String
create_topic_name text =
    let status = validate_name "topic name" text in
    if is_ok status then value text else from_status status

unfoldable pub lifetime_to_string : TopicLifetime → String
lifetime_to_string shared = "shared"
lifetime_to_string reader_owned = "reader_owned"

pub record TopicSpec : Type 0 where
  pub name : String
  pub transport : TransportKind
  pub message_policy : MessagePolicy
  pub lifetime : TopicLifetime

-- `TopicSpec::Validate`.
unfoldable pub validate_topic : TopicSpec → Status
validate_topic t =
    let status = validate_name "topic name" t.name in
    if is_ok status then Policy.validate t.message_policy else status
