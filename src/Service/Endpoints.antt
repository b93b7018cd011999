-- ===== src/Service/Endpoints.antt =====
-- src/service/service.cpp: the endpoints of a service, and the reply topic of a client.
pub mod Hex
pub mod Clients
use Prim.Native.String
use puppet_master.Base.{ℕ, zero, suc, ◌+◌, ◌/◌, ◌%◌, String, ◌<>◌, ltb, if◌then◌else◌}
use puppet_master.Core.Status.{is_ok}
use puppet_master.Core.Result.{Result, value, from_status, ◌>>=◌}
use puppet_master.Core.Policy.{
  MessagePolicy, best_effort, reliable, keep_last, latest, queued, drop_oldest,
}
use puppet_master.Core.Names.{TopicSpec, create_topic_name, shared, reader_owned}
use puppet_master.Transport.Message.{MessageDescriptor, EndpointConfig}
use puppet_master.Transport.Recording.Bytes.{to_char}
use puppet_master.Service.Spec.{ServiceSpec, validate_service}

abbrev pub presence_type : String
presence_type = "service.Presence.v2"

abbrev pub presence_version : ℕ
presence_version = 2

-- `Prefixed`.
unfoldable pub prefixed : String → MessageDescriptor → MessageDescriptor
prefixed prefix payload = record {
  type_name = prefix <> payload.type_name;
  encoding = payload.encoding;
  version = payload.version;
}

-- `SubTopic`.
unfoldable pub sub_topic : String → String → Result String
sub_topic service suffix = create_topic_name (service <> "/" <> suffix)

-- The characters '0' to '9' and 'a' to 'f' of `kDigits`.
unfoldable pub hex_digit : ℕ → ℕ
hex_digit d = if ltb d 10 then 0x30 + d else 0x57 + d

-- The loop of `Hex16`, which fills the text from its end, with what is filled.
unfoldable pub hex_loop : ℕ → ℕ → String → String
hex_loop zero v text = text
hex_loop (suc n) v text = hex_loop n (v / 16) (String.◌∷◌ (to_char (hex_digit (v % 16))) text)

unfoldable pub hex16 : ℕ → String
hex16 v = hex_loop 16 v ""

abbrev pub renamed : EndpointConfig → String → EndpointConfig
renamed base name = record {
  topic = record {
    name = name;
    transport = base.topic.transport;
    message_policy = base.topic.message_policy;
    lifetime = base.topic.lifetime;
  };
  message = base.message;
}

-- `ReplyEndpoint`.
unfoldable pub reply_endpoint : EndpointConfig → ℕ → Result EndpointConfig
reply_endpoint base client_id = do
  name ← create_topic_name (base.topic.name <> "/" <> hex16 client_id)
  value (renamed base name)

pub record ServiceEndpoints : Type 0 where
  pub request : EndpointConfig
  pub reply : EndpointConfig
  pub presence : EndpointConfig

-- The default-constructed `MessagePolicy`, for presence.
abbrev pub latest_policy : MessagePolicy
latest_policy = record {
  delivery = best_effort;
  retention = keep_last;
  freshness = latest;
  overflow = drop_oldest;
  queue_depth = 1;
}

abbrev pub queued_policy : ℕ → MessagePolicy
queued_policy depth = record {
  delivery = reliable;
  retention = keep_last;
  freshness = queued;
  overflow = drop_oldest;
  queue_depth = depth;
}

abbrev pub endpoints_named : ServiceSpec → String → String → String → ServiceEndpoints
endpoints_named spec request reply presence = record {
  request = record {
    topic = record {
      name = request;
      transport = spec.transport;
      message_policy = queued_policy spec.queue_depth;
      lifetime = shared;
    };
    message = prefixed "service.request:" spec.request;
  };
  reply = record {
    topic = record {
      name = reply;
      transport = spec.transport;
      message_policy = queued_policy spec.queue_depth;
      lifetime = reader_owned;
    };
    message = prefixed "service.reply:" spec.reply;
  };
  presence = record {
    topic = record {
      name = presence;
      transport = spec.transport;
      message_policy = latest_policy;
      lifetime = shared;
    };
    message = record {
      type_name = presence_type;
      encoding = "application/x-puppetmaster-presence";
      version = presence_version;
    };
  };
}

-- `EndpointsFor`: the first name that is not valid gives the error.
unfoldable pub endpoints_for : ServiceSpec → Result ServiceEndpoints
endpoints_for spec =
    let status = validate_service spec in
    let checked = do
      request ← sub_topic spec.name "request"
      reply ← sub_topic spec.name "reply"
      presence ← sub_topic spec.name "presence"
      _ ← sub_topic spec.name "reply/0000000000000000"
      value (endpoints_named spec request reply presence)
    in if is_ok status then checked else from_status status

-- `ReplyEndpointFor`.
unfoldable pub reply_endpoint_for : ServiceSpec → ℕ → Result EndpointConfig
reply_endpoint_for spec client_id = do
  endpoints ← endpoints_for spec
  reply_endpoint endpoints.reply client_id
