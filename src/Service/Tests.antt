-- ===== src/Service/Tests.antt =====
-- src/service: tests, and the theorems at concrete inputs.
use puppet_master.Base.{ℕ, List, [], ◌∷◌, some, none, ◌≡◌, ◌≢◌, ◌↔◌, refl, arith}
use puppet_master.Base.Int.{pos, negsuc}
use puppet_master.Core.Status.{StatusCode}
use puppet_master.Service.Envelope.{
  Header, encode, decode, reply_magic, request_magic, put_u16, get_u16, is_foreign, status_number,
  status_code_of, to_unsigned, to_signed,
}
use puppet_master.Service.Envelope.Numbers.{IsHeader, AreBytes-all}
use puppet_master.Service.Envelope.Laws.{decode-encode_iff}
use puppet_master.Core.Result.{value}
use puppet_master.Core.Names.{ipc, validate_name, has_control, create_topic_name}
use puppet_master.Transport.Message.{EndpointConfig, validate_descriptor}
use puppet_master.Service.Spec.{ServiceSpec, validate_service}
use puppet_master.Service.Endpoints.{
  endpoints_for, endpoints_named, sub_topic, hex16, hex_loop, hex_digit,
}
use puppet_master.Service.Endpoints.Clients.{IsReplyEndpoint, clients-IsReplyEndpoint}
use puppet_master.Transport.Recording.Bytes.{
  to_char, put_le, put_u32, put_u64, get_le, get_u32, get_u64,
}

abbrev a_reply : Header
a_reply = record {
  magic = reply_magic;
  status = StatusCode.deadline_exceeded;
  client_id = 0x1122334455667788;
  request_id = 7;
  budget_ns = negsuc 4;
}

abbrev reply_bytes : List ℕ
reply_bytes =
    0x50 ∷ 0x4d ∷ 0x52 ∷ 0x50 ∷ 2 ∷ 0 ∷ 12 ∷ 0 ∷ 0x88 ∷ 0x77 ∷ 0x66 ∷ 0x55 ∷ 0x44 ∷ 0x33 ∷ 0x22
    ∷ 0x11 ∷ 7 ∷ 0 ∷ 0 ∷ 0 ∷ 0 ∷ 0 ∷ 0 ∷ 0 ∷ 0xfb ∷ 0xff ∷ 0xff ∷ 0xff ∷ 0xff ∷ 0xff ∷ 0xff ∷ 0xff
    ∷ 42 ∷ []

encode-reply : encode a_reply (42 ∷ []) ≡ reply_bytes
unfolding encode put_u16 put_u32 put_u64 put_le status_number to_unsigned
encode-reply = refl

decode-reply : decode reply_bytes reply_magic ≡ some (a_reply, 42 ∷ [])
unfolding decode is_foreign get_u16 get_u32 get_u64 get_le status_code_of to_signed
decode-reply = refl

-- A reply is no request.
decode-kind : decode reply_bytes request_magic ≡ none
unfolding decode is_foreign get_u16 get_u32 get_u64 get_le
decode-kind = refl

decode-encode_iff_example : (decode reply_bytes reply_magic ≡ some (a_reply, 42 ∷ [])) ↔ (
    IsHeader a_reply × ((a_reply.magic ≡ reply_magic) × (reply_bytes ≡ encode a_reply (42 ∷ []))))
decode-encode_iff_example =
    decode-encode_iff reply_bytes (42 ∷ []) reply_magic a_reply (AreBytes-all reply_bytes refl)

abbrev counter : ServiceSpec
counter = record {
  name = "counter";
  transport = ipc;
  request = record { type_name = "Add"; encoding = "portable"; version = 1 };
  reply = record { type_name = "Sum"; encoding = "portable"; version = 1 };
  queue_depth = 16;
  heartbeat_interval = pos 100000000;
}

counter_endpoints :
    endpoints_for counter
    ≡ value (endpoints_named counter "counter/request" "counter/reply" "counter/presence")
unfolding endpoints_for validate_service validate_descriptor validate_name sub_topic
    create_topic_name has_control
counter_endpoints = refl

hex16_test : hex16 0x1234abcd ≡ "000000001234abcd"
unfolding hex16 hex_loop hex_digit to_char
hex16_test = refl

clients-IsReplyEndpoint_example :
    (c : EndpointConfig) × ((d : EndpointConfig) × (IsReplyEndpoint counter 17 c
        × (IsReplyEndpoint counter 18 d × (c.topic.name ≢ d.topic.name))))
clients-IsReplyEndpoint_example =
    clients-IsReplyEndpoint counter
      (endpoints_named counter "counter/request" "counter/reply" "counter/presence") 17 18
      counter_endpoints (omega arith) (omega arith) (omega arith)
