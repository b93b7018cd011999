-- ===== src/Transport/Message.antt =====
-- include/puppet_master/transport/message.h and transport.h: what a topic carries, and endpoints.
use puppet_master.Base.{ℕ, String, ◌<>◌, ◌=ₛ◌, List, Bool, ◌&&◌, ◌==◌, if◌then◌else◌, to_decimal}
use puppet_master.Core.Status.{Status, ok_status, error, is_ok, invalid_argument}
use puppet_master.Core.Names.{TopicSpec, validate_topic}

pub record MessageDescriptor : Type 0 where
  pub type_name : String
  pub encoding : String
  pub version : ℕ

-- `MessageDescriptor::Validate`.
unfoldable pub validate_descriptor : MessageDescriptor → Status
validate_descriptor d =
    if d.type_name =ₛ ""
    then error invalid_argument "message type name must not be empty"
    else if d.encoding =ₛ ""
    then error invalid_argument "message encoding must not be empty"
    else ok_status

-- `MessageDescriptor::ToString`.
unfoldable pub descriptor_to_string : MessageDescriptor → String
descriptor_to_string d =
    let text =
      if d.version == 0 then d.type_name else d.type_name <> " v" <> to_decimal d.version in
    text <> " (" <> d.encoding <> ")"

-- `operator==` of `MessageDescriptor`.
abbrev pub descriptor_eq : MessageDescriptor → MessageDescriptor → Bool
descriptor_eq a b = a.type_name =ₛ b.type_name && a.encoding =ₛ b.encoding && a.version == b.version

pub record MessageMetadata : Type 0 where
  pub sequence : ℕ
  pub source_timestamp : ℕ
  pub reception_timestamp : ℕ

pub record Message : Type 0 where
  pub payload : List ℕ
  pub metadata : MessageMetadata

pub record EndpointConfig : Type 0 where
  pub topic : TopicSpec
  pub message : MessageDescriptor

-- `EndpointConfig::Validate`.
unfoldable pub validate_endpoint : EndpointConfig → Status
validate_endpoint e =
    let status = validate_topic e.topic in
    if is_ok status then validate_descriptor e.message else status
