-- ===== src/Transport/Recording/Decoding.antt =====
-- src/transport/recording.cpp: the body of a record is decoded to what it was made of.
use Prim.Native.String.compare as clauses
use mathlib.Core.List.{append_assoc, append-nil}
use native.Mathlib.Nat.{mod-eq_of_lt}
use puppet_master.Base.{
  ℕ, ◌%◌, ◌^◌, ◌≤◌, ◌<◌, String, List, [], ◌∷◌, ◌++◌, length, length-append, none, some, true,
  false, drop, arith, ◌≡◌, refl, All, before, lookup, emplace,
}
use puppet_master.Base.Int.{pos}
use puppet_master.Core.Result.{value}
use puppet_master.Transport.Recording.Bytes.{put_u32, put_u64, put_string, codes}
use puppet_master.Transport.Recording.Laws.{
  get_u32-put, get_u64-put, length-put_u32, length-put_u64, drop-append_eq, read_u32-put,
  read_string-put,
}
use puppet_master.Transport.Recording.Types.{RecordedTopic}
use puppet_master.Transport.Recording.Writer.{topic_head, message_head}
use puppet_master.Transport.Recording.Reader.{
  Reader, find_topic, put_parameter, read_parameters, read_topic, decode_message,
}
use puppet_master.Transport.Recording.Entries.{
  parameter_bytes, body_bytes, topic_entry, message_entry, AreTexts, IsMap, IsTopic,
}

-- The order of texts does not hold both ways.
before_asym : (s t : String) → before s t ≡ true → before t s ≡ false
before_asym String.[] String.[] h = refl
before_asym String.[] (String.◌∷◌ d t) h = rw (clauses.cons-nil d t) refl
before_asym (String.◌∷◌ c s) String.[] h =
    let no_ : false ≡ true = rw (clauses.cons-nil c s) at h in cc
before_asym (String.◌∷◌ c s) (String.◌∷◌ d t) h =
    rw (clauses.cons-cons d c t s)
      (ground (arith, rw (clauses.cons-cons c d s t) at h, before_asym s t))

module _ (key text : String) where
  lookup-last :
      (m : List (String × String)) → All (λ p. before p.0 key ≡ true) m → lookup key m ≡ none
  unfolding lookup
  lookup-last [] h = refl
  lookup-last ((j, v) ∷ m) (hj, h) = ground (arith, lookup-last m h)

  emplace-last :
      (m : List (String × String))
      → All (λ p. before p.0 key ≡ true) m
      → emplace key text m ≡ m ++ (key, text) ∷ []
  unfolding emplace
  emplace-last [] h = refl
  emplace-last ((j, v) ∷ m) (hj, h) = rw (before_asym j key hj, emplace-last m h) refl

  -- A key behind all others is put at the end of the map.
  put_parameter-last :
      (m : List (String × String))
      → All (λ p. before p.0 key ≡ true) m
      → put_parameter key text m ≡ m ++ (key, text) ∷ []
  unfolding put_parameter
  put_parameter-last m h = rw (put_parameter, lookup-last m h) (emplace-last m h)

-- The keys in front of a key in a map stand before it.
keys_before :
    (m : List (String × String)) (key text : String) (rest : List (String × String))
    → IsMap (m ++ (key, text) ∷ rest)
    → All (λ p. before p.0 key ≡ true) m
keys_before [] key text rest h = tt
keys_before ((j, v) ∷ m) key text rest (hj, h) = (first m hj, keys_before m key text rest h)
  where
    first :
        (m : List (String × String))
        → All (λ p. before j p.0 ≡ true) (m ++ (key, text) ∷ rest)
        → before j key ≡ true
    first [] (h, _) = h
    first (_ ∷ m) (_, h) = first m h

-- The bytes of a text or of a parameter are part of those of the parameters.
codes-le : (s : String) → length (codes s) ≤ length (put_string s)
unfolding put_string
codes-le s = omega (arith, length-append (put_u32 (length (codes s) % 2 ^ 32)) (codes s))

read_parameters-parameter_bytes :
    (ps m : List (String × String))
    → AreTexts ps
    → IsMap (m ++ ps)
    → length (parameter_bytes ps) < 2 ^ 32
    → read_parameters (length ps) (parameter_bytes ps) m ≡ some (m ++ ps)
unfolding read_parameters parameter_bytes
read_parameters-parameter_bytes [] m texts sorted small = rw (append-nil m) refl
read_parameters-parameter_bytes ((key, text) ∷ ps) m ((hk, ht), texts) sorted small =
    let tail = parameter_bytes ps in
    let sizes = length-append (put_string key ++ put_string text) tail in
    let sizes' = length-append (put_string key) (put_string text) in
    let key_fits : length (codes key) < 2 ^ 32 = omega (arith, sizes, sizes', codes-le key) in
    let text_fits : length (codes text) < 2 ^ 32 = omega (arith, sizes, sizes', codes-le text) in
    rw
      (
        append_assoc (put_string key) (put_string text) tail,
        read_string-put key (put_string text ++ tail) hk key_fits,
        read_string-put text tail ht text_fits,
        put_parameter-last key text m (keys_before m key text ps sorted),
        read_parameters-parameter_bytes ps (m ++ (key, text) ∷ []) texts
            (rw (append_assoc m ((key, text) ∷ []) ps) sorted) (omega (arith, sizes)),
        append_assoc m ((key, text) ∷ []) ps,
      )
      refl

topic_bytes_split :
    (t : RecordedTopic)
    → body_bytes (topic_entry t)
      ≡ put_u32 t.id
        ++ (put_string t.name
            ++ (put_string t.descriptor.type_name
                ++ (put_string t.descriptor.encoding
                    ++ (put_u32 t.descriptor.version
                        ++ (put_u32 (length t.parameters % 2 ^ 32)
                            ++ parameter_bytes t.parameters)))))
unfolding topic_head
topic_bytes_split t = simp append_assoc

record Sizes (t : RecordedTopic) : Type 0 where
  name : length (codes t.name) < 2 ^ 32
  type_name : length (codes t.descriptor.type_name) < 2 ^ 32
  encoding : length (codes t.descriptor.encoding) < 2 ^ 32
  parameters : length (parameter_bytes t.parameters) < 2 ^ 32

length-split {ℓ} :
    {A : Type ℓ} (xs ys : List A) (n : ℕ)
    → length (xs ++ ys) < n
    → (length xs < n) × (length ys < n)
length-split xs ys n h = omega (arith, length-append xs ys)

-- Each part of a topic's record fits where the whole does.
topic-Sizes : (t : RecordedTopic) → length (body_bytes (topic_entry t)) < 2 ^ 32 → Sizes t
topic-Sizes t h =
    let whole = rw (topic_bytes_split t) at h in
    let n = 2 ^ 32 in
    let a = (length-split (put_u32 t.id) _ n whole).1 in
    let b = length-split (put_string t.name) _ n a in
    let c = length-split (put_string t.descriptor.type_name) _ n b.1 in
    let d = length-split (put_string t.descriptor.encoding) _ n c.1 in
    let e = (length-split (put_u32 t.descriptor.version) _ n d.1).1 in
    let f = (length-split (put_u32 (length t.parameters % 2 ^ 32)) _ n e).1 in
    record {
      name = omega (arith, b.0, codes-le t.name);
      type_name = omega (arith, c.0, codes-le t.descriptor.type_name);
      encoding = omega (arith, d.0, codes-le t.descriptor.encoding);
      parameters = f;
    }

length-put_string : (s : String) → 4 ≤ length (put_string s)
unfolding put_string
length-put_string s =
    let size = put_u32 (length (codes s) % 2 ^ 32) in
    omega (arith, length-append size (codes s), length-put_u32 (length (codes s) % 2 ^ 32))

-- A parameter takes bytes of its own.
length-parameter_bytes : (ps : List (String × String)) → length ps ≤ length (parameter_bytes ps)
unfolding parameter_bytes
length-parameter_bytes [] = omega arith
length-parameter_bytes ((key, text) ∷ ps) = omega (
  arith,
  length-append (put_string key ++ put_string text) (parameter_bytes ps),
  length-append (put_string key) (put_string text),
  length-put_string key,
  length-parameter_bytes ps,
)

pub read_topic-body_bytes :
    (t : RecordedTopic)
    → t.id < 2 ^ 32
    → IsTopic t
    → length (body_bytes (topic_entry t)) < 2 ^ 32
    → read_topic (body_bytes (topic_entry t)) ≡ some t
unfolding read_topic
read_topic-body_bytes t id v small =
    let s = topic-Sizes t small in
    let n_fits : length t.parameters < 2 ^ 32 =
      omega (arith, s.parameters, length-parameter_bytes t.parameters) in
    rw
      (
        topic_bytes_split t,
        mod-eq_of_lt n_fits,
        read_u32-put t.id _ id,
        read_string-put t.name _ v.name s.name,
        read_string-put t.descriptor.type_name _ v.type_name s.type_name,
        read_string-put t.descriptor.encoding _ v.encoding s.encoding,
        read_u32-put t.descriptor.version _ v.version,
        read_u32-put (length t.parameters) _ n_fits,
        read_parameters-parameter_bytes t.parameters [] v.texts v.sorted s.parameters,
      )
      refl

message_bytes_split :
    (topic time sequence : ℕ) (payload : List ℕ)
    → body_bytes (message_entry topic time sequence payload)
      ≡ put_u32 topic ++ (put_u64 time ++ (put_u64 sequence ++ payload))
unfolding message_head
message_bytes_split topic time sequence payload = simp append_assoc

pub decode_message-body_bytes :
    (topic time sequence : ℕ) (payload : List ℕ) (r : Reader) {t : RecordedTopic}
    → topic < 2 ^ 32
    → time < 2 ^ 63
    → sequence < 2 ^ 64
    → find_topic topic r.topics ≡ some t
    → decode_message (body_bytes (message_entry topic time sequence payload)) r
      ≡ value (record { topic = topic; time = pos time; sequence = sequence; payload = payload })
unfolding decode_message
decode_message-body_bytes topic time sequence payload r ht htime hs found =
    let a = put_u32 topic in
    let b = put_u64 time in
    let c = put_u64 sequence in
    let la = length-put_u32 topic in
    let lb = length-put_u64 time in
    let lc = length-put_u64 sequence in
    let twelve : drop 12 (a ++ (b ++ (c ++ payload))) ≡ c ++ payload =
      rw (← append_assoc a b (c ++ payload))
        (drop-append_eq 12 (a ++ b) (c ++ payload) (omega (arith, length-append a b, la, lb))) in
    let twenty : drop 20 (a ++ (b ++ (c ++ payload))) ≡ payload =
      rw (← append_assoc b c payload, ← append_assoc a (b ++ c) payload)
        (drop-append_eq 20 (a ++ (b ++ c)) payload
          (omega (arith, length-append a (b ++ c), length-append b c, la, lb, lc))) in
    rw
      (
        message_bytes_split topic time sequence payload,
        get_u32-put topic (b ++ (c ++ payload)) ht,
        drop-append_eq 4 a (b ++ (c ++ payload)) la,
        get_u64-put time (c ++ payload) (omega arith),
        found,
        message_bytes_split topic time sequence payload,
        get_u32-put topic (b ++ (c ++ payload)) ht,
        drop-append_eq 4 a (b ++ (c ++ payload)) la,
        get_u64-put time (c ++ payload) (omega arith),
        twelve,
        twenty,
        get_u64-put sequence payload hs,
      )
      (ground (
        arith,
        length-append a (b ++ (c ++ payload)),
        length-append b (c ++ payload),
        length-append c payload,
        la,
        lb,
        lc,
      ))
