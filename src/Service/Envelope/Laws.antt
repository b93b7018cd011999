-- ===== src/Service/Envelope/Laws.antt =====
-- src/service/service.cpp: which messages are decoded, and to what.
use puppet_master.Base.{
  ℕ, ◌+◌, ◌≤◌, List, ◌++◌, length, Option, some, false, drop, arith, ◌≡◌, ◌↔◌, refl, ap, sym, subst,
}
use puppet_master.Transport.Recording.Bytes.{put_le, put_u32, put_u64, get_le, get_u32, get_u64}
use puppet_master.Transport.Recording.Laws.{get_u32-put, get_u64-put}
use puppet_master.Service.Envelope.{
  Header, encode, decode, header_at, is_foreign, put_u16, get_u16, status_number, to_unsigned,
  header_version,
}
use puppet_master.Service.Envelope.Numbers.{
  IsHeader, AreBytes, status_code_of-status_number, to_signed-to_unsigned, to_unsigned-to_signed,
  to_signed-IsInt64, status_number-status_code_of, status_number-le, to_unsigned-lt, get_le-lt,
  AreBytes-drop, put_le-field, get_u16-put,
}

-- The fields of an encoded message, each with what follows it.
module _ (h : Header) (payload : List ℕ) where
  budget_bytes : List ℕ
  budget_bytes = put_u64 (to_unsigned h.budget_ns) ++ payload

  id_bytes : List ℕ
  unfolding budget_bytes
  id_bytes = put_u64 h.request_id ++ budget_bytes

  client_bytes : List ℕ
  unfolding id_bytes
  client_bytes = put_u64 h.client_id ++ id_bytes

  status_bytes : List ℕ
  unfolding client_bytes
  status_bytes = put_u16 (status_number h.status) ++ client_bytes

  drop_4-encode : drop 4 (encode h payload) ≡ put_u16 header_version ++ status_bytes
  unfolding encode put_u32 put_le status_bytes client_bytes id_bytes budget_bytes
  drop_4-encode = refl

  drop_6-encode : drop 6 (encode h payload) ≡ status_bytes
  unfolding encode put_u32 put_u16 put_le status_bytes client_bytes id_bytes budget_bytes
  drop_6-encode = refl

  drop_8-encode : drop 8 (encode h payload) ≡ client_bytes
  unfolding encode put_u32 put_u16 put_le client_bytes id_bytes budget_bytes
  drop_8-encode = refl

  drop_16-encode : drop 16 (encode h payload) ≡ id_bytes
  unfolding encode put_u32 put_u16 put_u64 put_le id_bytes budget_bytes
  drop_16-encode = refl

  drop_24-encode : drop 24 (encode h payload) ≡ budget_bytes
  unfolding encode put_u32 put_u16 put_u64 put_le budget_bytes
  drop_24-encode = refl

  drop_32-encode : drop 32 (encode h payload) ≡ payload
  unfolding encode put_u32 put_u16 put_u64 put_le
  drop_32-encode = refl

  length-encode : length (encode h payload) ≡ 32 + length payload
  unfolding encode put_u32 put_u16 put_u64 put_le
  length-encode = omega arith

  module _ (valid : IsHeader h) where
    magic-encode : get_u32 (encode h payload) ≡ h.magic
    unfolding encode
    magic-encode = get_u32-put h.magic _ valid.magic

    version-encode : get_u16 (drop 4 (encode h payload)) ≡ header_version
    version-encode = rw drop_4-encode (get_u16-put header_version _ (omega arith))

    status-encode : get_u16 (drop 6 (encode h payload)) ≡ status_number h.status
    unfolding status_bytes
    status-encode =
        rw drop_6-encode
          (get_u16-put (status_number h.status) _ (omega (arith, status_number-le h.status)))

    header_at-encode : header_at (encode h payload) h.magic ≡ h
    unfolding client_bytes id_bytes budget_bytes
    header_at-encode =
        rw
          (
            status-encode,
            status_code_of-status_number h.status,
            drop_8-encode,
            get_u64-put h.client_id _ valid.client_id,
            drop_16-encode,
            get_u64-put h.request_id _ valid.request_id,
            drop_24-encode,
            get_u64-put (to_unsigned h.budget_ns) payload (to_unsigned-lt h.budget_ns),
            to_signed-to_unsigned h.budget_ns valid.budget_ns,
          )
          refl

    pub decode-encode : decode (encode h payload) h.magic ≡ some (h, payload)
    unfolding decode is_foreign
    decode-encode =
        rw (header_at-encode, drop_32-encode)
          (ground (
            arith,
            length-encode,
            magic-encode,
            version-encode,
            status-encode,
            status_number-le h.status,
          ))

-- What a message that is not foreign says, and that its header is one.
record Accepted (message : List ℕ) (magic : ℕ) : Type 0 where
  size : 32 ≤ length message
  magic_field : get_u32 message ≡ magic
  version_field : get_u16 (drop 4 message) ≡ header_version
  status_field : get_u16 (drop 6 message) ≤ 14

is_foreign-Accepted :
    (message : List ℕ) (magic : ℕ) → is_foreign message magic ≡ false → Accepted message magic
unfolding is_foreign
is_foreign-Accepted message magic h = ground arith

module _ (message : List ℕ) (magic : ℕ) (bytes : AreBytes message)
    (a : Accepted message magic) where
  header_at-IsHeader : IsHeader (header_at message magic)
  unfolding get_u32 get_u64
  header_at-IsHeader =
      let lt = λ (n j : ℕ). get_le-lt n (drop j message) (AreBytes-drop j message bytes) in
      record {
        magic = omega (arith, a.magic_field, lt 4 0);
        client_id = omega (arith, lt 8 8);
        request_id = omega (arith, lt 8 16);
        budget_ns = to_signed-IsInt64 _ (omega (arith, lt 8 24));
      }

  encode-header_at : encode (header_at message magic) (drop 32 message) ≡ message
  unfolding encode put_u32 put_u16 put_u64 get_u32 get_u16 get_u64
  encode-header_at =
      let field =
        λ (n j : ℕ) (h : j + n ≤ 32). put_le-field n j message bytes (omega (arith, h, a.size)) in
      let version : put_le 2 header_version ++ drop 6 message ≡ drop 4 message =
        subst (λ v. put_le 2 v ++ drop 6 message ≡ drop 4 message) a.version_field
          (field 2 4 (omega arith)) in
      let start : put_le 4 magic ++ drop 4 message ≡ message =
        subst (λ v. put_le 4 v ++ drop 4 message ≡ message) a.magic_field
          (field 4 0 (omega arith)) in
      rw
        (
          to_unsigned-to_signed (get_le 8 (drop 24 message))
              (omega (arith, get_le-lt 8 (drop 24 message) (AreBytes-drop 24 message bytes))),
          field 8 24 (omega arith),
          field 8 16 (omega arith),
          field 8 8 (omega arith),
          status_number-status_code_of (get_le 2 (drop 6 message)) a.status_field,
          field 2 6 (omega arith),
          version,
          start,
        )
        refl

module _ (message : List ℕ) (magic : ℕ) {h : Header} {payload : List ℕ} where
  decoded-is_foreign : decode message magic ≡ some (h, payload) → is_foreign message magic ≡ false
  unfolding decode
  decoded-is_foreign e = ground arith

  decoded-parts :
      decode message magic ≡ some (h, payload)
      → (header_at message magic ≡ h) × (drop 32 message ≡ payload)
  unfolding decode
  decoded-parts e =
      let fine = decoded-is_foreign e in
      let e' : ◌≡◌ {A = Option (Header × List ℕ)} (some (header_at message magic, drop 32 message))
          (some (h, payload)) =
        rw fine at e in
      (cc, cc)

-- A message is decoded just where it is the encoding of a valid header of that kind and a payload,
-- and then to them.
pub decode-encode_iff :
    (message payload : List ℕ) (magic : ℕ) (h : Header)
    → AreBytes message
    → (decode message magic ≡ some (h, payload))
      ↔ (IsHeader h × ((h.magic ≡ magic) × (message ≡ encode h payload)))
decode-encode_iff message payload magic h bytes = (there, back)
  where
    there :
        decode message magic ≡ some (h, payload)
        → IsHeader h × ((h.magic ≡ magic) × (message ≡ encode h payload))
    there e =
        let a = is_foreign-Accepted message magic (decoded-is_foreign message magic e) in
        let (hs, ps) = decoded-parts message magic e in
        (
          subst IsHeader hs (header_at-IsHeader message magic bytes a),
          (
            ap (λ (k : Header). k.magic) (sym hs),
            sym (
                subst (λ k. encode k payload ≡ message) hs
                  (subst (λ l. encode (header_at message magic) l ≡ message) ps
                    (encode-header_at message magic bytes a))),
          ),
        )

    back :
        IsHeader h × ((h.magic ≡ magic) × (message ≡ encode h payload))
        → decode message magic ≡ some (h, payload)
    back (valid, (em, e)) = rw (← em, e) (decode-encode h payload valid)
