-- ===== src/Service/Endpoints/Clients.antt =====
-- src/service/service.cpp: reply topics are valid and those of distinct clients are distinct.
use Prim.Native.String.{count}
use puppet_master.Base.{
  ℕ, ◌+◌, ◌^◌, ◌<◌, String, ◌<>◌, true, false, arith, ◌≡◌, ◌≢◌, refl, ap, sym, if_cases,
}
use puppet_master.Core.Status.{is_ok}
use puppet_master.Core.Result.{Result, value, value-bind}
use puppet_master.Core.Names.{has_control, validate_topic}
use puppet_master.Core.Names.Laws.{
  IsName, count-append, has_control-append, nonempty, create-IsName, IsName-create,
  IsName-validate_name,
}
use puppet_master.Transport.Message.{EndpointConfig, validate_descriptor, validate_endpoint}
use puppet_master.Service.Spec.{ServiceSpec, validate_service}
use puppet_master.Service.Endpoints.{
  ServiceEndpoints, endpoints_for, reply_endpoint, reply_endpoint_for, sub_topic, hex16, renamed,
  prefixed, endpoints_named,
}
use puppet_master.Service.Endpoints.Hex.{hex16-inj, count-hex16, has_control-hex16, append_cancel}

-- What an accepted service specification says of its reply topics.
record Accepted (spec : ServiceSpec) (endpoints : ServiceEndpoints) : Type 0 where
  reply : IsName (spec.name <> "/" <> "reply")
  longest : IsName (spec.name <> "/" <> "reply/0000000000000000")
  reply_message : is_ok (validate_descriptor spec.reply) ≡ true
  depth : 0 < spec.queue_depth
  base : endpoints.reply ≡ (endpoints_named spec "" (spec.name <> "/" <> "reply") "").reply

sub_topic-IsName :
    (s t : String) {n : String}
    → sub_topic s t ≡ value n
    → IsName (s <> "/" <> t) × (n ≡ s <> "/" <> t)
unfolding sub_topic
sub_topic-IsName s t e = create-IsName (s <> "/" <> t) e

value_inj {ℓ} : {A : Type ℓ} {x y : A} → ◌≡◌ {A = Result A} (value x) (value y) → x ≡ y
value_inj e = cc

validate_service-reply :
    (spec : ServiceSpec)
    → is_ok (validate_service spec) ≡ true
    → (is_ok (validate_descriptor spec.reply) ≡ true) × (0 < spec.queue_depth)
unfolding validate_service
validate_service-reply spec h = (ground arith, ground arith)

endpoints_for-Accepted :
    (spec : ServiceSpec) (e : ServiceEndpoints) → endpoints_for spec ≡ value e → Accepted spec e
unfolding endpoints_for
endpoints_for-Accepted spec e h =
    if_cases (λ r. r ≡ value e → Accepted spec e) (is_ok (validate_service spec)) _ _
      (λ fine checked.
        let (request, (_, h1)) = value-bind (sub_topic spec.name "request") _ e checked in
        let (reply, (named, h2)) = value-bind (sub_topic spec.name "reply") _ e h1 in
        let (presence, (_, h3)) = value-bind (sub_topic spec.name "presence") _ e h2 in
        let (longest, (last, h4)) =
          value-bind (sub_topic spec.name "reply/0000000000000000") _ e h3 in
        let (reply_message, depth) = validate_service-reply spec fine in
        let (reply_name, e1) = sub_topic-IsName spec.name "reply" named in
        record {
          reply = reply_name;
          longest = (sub_topic-IsName spec.name "reply/0000000000000000" last).0;
          reply_message = reply_message;
          depth = depth;
          base = rw (← e1) (ap (λ (x : ServiceEndpoints). x.reply) (value_inj (sym h4)));
        })
      (λ bad failed. cc) h

-- The reply topic of a client.
abbrev reply_name : ServiceSpec → ℕ → String
reply_name spec id = (spec.name <> "/" <> "reply") <> "/" <> hex16 id

module _ {spec : ServiceSpec} {endpoints : ServiceEndpoints} (a : Accepted spec endpoints) where
  count-reply_name : (id : ℕ) → count (reply_name spec id) ≡ count spec.name + 23
  count-reply_name id =
      rw
        (
          count-append (spec.name <> "/reply") ("/" <> hex16 id),
          count-append spec.name "/reply",
          count-append "/" (hex16 id),
          count-hex16 id,
        )
        (omega arith)

  has_control-reply_name : (id : ℕ) → has_control (reply_name spec id) ≡ false
  has_control-reply_name id =
      rw
        (
          has_control-append (spec.name <> "/reply") ("/" <> hex16 id),
          a.reply.plain,
          has_control-append "/" (hex16 id),
          has_control-hex16 id,
        )
        (unfold has_control in refl)

  reply_name-IsName : (id : ℕ) → IsName (reply_name spec id)
  reply_name-IsName id =
      let size = count-reply_name id in
      record {
        some_character = omega (arith, size);
        not_long =
            omega
              (arith, size, a.longest.not_long, count-append spec.name "/reply/0000000000000000");
        plain = has_control-reply_name id;
      }

  reply_endpoint_for-client :
      (id : ℕ)
      → endpoints_for spec ≡ value endpoints
      → reply_endpoint_for spec id ≡ value (renamed endpoints.reply (reply_name spec id))
  unfolding reply_endpoint_for reply_endpoint
  reply_endpoint_for-client id e = rw (e, a.base, IsName-create _ (reply_name-IsName id)) refl

  validate-reply_endpoint :
      (id : ℕ) → is_ok (validate_endpoint (renamed endpoints.reply (reply_name spec id))) ≡ true
  unfolding validate_endpoint validate_topic validate_descriptor prefixed
  validate-reply_endpoint id =
      rw (a.base, IsName-validate_name "topic name" _ (reply_name-IsName id))
        (ground (
          arith,
          a,
          nonempty ("service.reply:" <> spec.reply.type_name)
              (omega (arith, count-append "service.reply:" spec.reply.type_name)),
        ))

reply_name-inj :
    (spec : ServiceSpec) (v w : ℕ)
    → v < 2 ^ 64
    → w < 2 ^ 64
    → reply_name spec v ≡ reply_name spec w
    → v ≡ w
reply_name-inj spec v w hv hw e =
    hex16-inj v w hv hw (append_cancel "/" _ _ (append_cancel (spec.name <> "/reply") _ _ e))

-- What a client's reply endpoint is: a valid one.
pub record IsReplyEndpoint (spec : ServiceSpec) (id : ℕ) (e : EndpointConfig) : Type 0 where
  pub created : reply_endpoint_for spec id ≡ value e
  pub valid : is_ok (validate_endpoint e) ≡ true

is_endpoint :
    {spec : ServiceSpec} {endpoints : ServiceEndpoints}
    → Accepted spec endpoints
    → (id : ℕ) → endpoints_for spec ≡ value endpoints
    → IsReplyEndpoint spec id (renamed endpoints.reply (reply_name spec id))
is_endpoint a id e = record {
  created = reply_endpoint_for-client a id e;
  valid = validate-reply_endpoint a id;
}

-- Where the endpoints of a service are accepted, every client has a reply endpoint, which is valid,
-- and the topics of the reply endpoints of two clients are distinct.
pub clients-IsReplyEndpoint :
    (spec : ServiceSpec) (endpoints : ServiceEndpoints) (v w : ℕ)
    → endpoints_for spec ≡ value endpoints
    → v < 2 ^ 64
    → w < 2 ^ 64
    → v ≢ w
    → (c : EndpointConfig) × ((d : EndpointConfig) × (IsReplyEndpoint spec v c
          × (IsReplyEndpoint spec w d × (c.topic.name ≢ d.topic.name))))
clients-IsReplyEndpoint spec endpoints v w e hv hw distinct =
    let a = endpoints_for-Accepted spec endpoints e in
    (
      renamed endpoints.reply (reply_name spec v),
      (
        renamed endpoints.reply (reply_name spec w),
        (
          is_endpoint a v e,
          (is_endpoint a w e, λ same. distinct (reply_name-inj spec v w hv hw same)),
        ),
      ),
    )
