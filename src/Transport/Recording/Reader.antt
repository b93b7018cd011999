-- ===== src/Transport/Recording/Reader.antt =====
-- src/transport/recording.cpp, RecordingReader. The input stream is what is left of the file.
use puppet_master.Base.{
  ℕ, zero, suc, ◌+◌, ◌-◌, ◌^◌, min, String, ◌<>◌, List, [], ◌∷◌, ◌++◌, length, Option, none, some,
  Bool, true, false, not, ◌||◌, ltb, ◌==◌, if◌then◌else◌, take, drop, lookup, assign, emplace,
  to_decimal,
}
use puppet_master.Base.Int.{pos}
use puppet_master.Core.Status.{
  Status, ok_status, error, is_ok, invalid_argument, not_found, unsupported, data_loss,
}
use puppet_master.Core.Result.{Result, value, failure, from_status}
use puppet_master.Transport.Recording.Bytes.{get_u32, get_u64, read_u32, read_string, ◌>>=◌}
use puppet_master.Transport.Recording.Types.{
  RecordedTopic, RecordedMessage, magic, format_version, file_header_size, record_header_size,
  topic_record, message_record, message_fixed_size,
}

-- `RecordingReader::Impl`, without its buffer for a record's body.
pub record Reader : Type 0 where
  pub path : String
  pub input : List ℕ
  pub topics : List RecordedTopic
  pub file_size : ℕ
  pub position : ℕ
  pub truncated : Bool
  pub ended : Bool

-- `Corrupt`.
abbrev pub corrupt : String → Reader → Status
corrupt what r = error data_loss ("recording " <> r.path <> ": " <> what)

-- `FindTopic`.
unfoldable pub find_topic : ℕ → List RecordedTopic → Option RecordedTopic
find_topic id [] = none
find_topic id (topic ∷ topics) = if topic.id == id then some topic else find_topic id topics

-- Equality of two lists of bytes of the same length, `memcmp`.
unfoldable pub same_bytes : List ℕ → List ℕ → Bool
same_bytes [] [] = true
same_bytes (a ∷ as_) (b ∷ bs) = if a == b then same_bytes as_ bs else false
same_bytes _ _ = false

-- `RecordingReader::Open` of a file, if there is one.
unfoldable pub open_recording : String → Option (List ℕ) → Result Reader
open_recording path file = elim file [
  | none ↦ from_status (error not_found ("cannot open recording " <> path))
  | some bytes ↦
      let header = take file_header_size bytes in
      let version = get_u32 (drop 8 header) in
      let r : Reader = record {
        path = path;
        input = drop file_header_size bytes;
        topics = [];
        file_size = length bytes;
        position = file_header_size;
        truncated = false;
        ended = false;
      } in
      if not (length header == file_header_size) || not (same_bytes (take 8 header) magic)
      then from_status (error invalid_argument (path <> " is not a PuppetMaster recording"))
      else if not (version == format_version)
      then from_status (
          error unsupported (
            "recording "
            <> path
            <> " has format version "
            <> to_decimal version
            <> ", expected "
            <> to_decimal format_version))
      else value r
]

-- `parameters[key] = text`.
unfoldable pub put_parameter : String → String → List (String × String) → List (String × String)
put_parameter key text m = elim (lookup key m) [
  | none ↦ emplace key text m
  | some _ ↦ assign key text m
]

-- The loop of `DecodeTopic` over the parameters, with those read so far; what is left of the body
-- behind them is not looked at.
unfoldable pub read_parameters :
    ℕ → List ℕ → List (String × String) → Option (List (String × String))
read_parameters zero left m = some m
read_parameters (suc count) left m = do
  (key, left) ← read_string left
  (text, left) ← read_string left
  read_parameters count left (put_parameter key text m)

unfoldable pub read_topic : List ℕ → Option RecordedTopic
read_topic body = do
  (id, left) ← read_u32 body
  (name, left) ← read_string left
  (type_name, left) ← read_string left
  (encoding, left) ← read_string left
  (version, left) ← read_u32 left
  (count, left) ← read_u32 left
  parameters ← read_parameters count left []
  some (record {
    id = id;
    name = name;
    descriptor = record { type_name = type_name; encoding = encoding; version = version };
    parameters = parameters;
  })

-- `DecodeTopic`.
unfoldable pub decode_topic : List ℕ → Reader → Reader × Status
decode_topic body r = elim (read_topic body) [
  | none ↦ (r, corrupt "malformed topic record" r)
  | some topic ↦ elim (find_topic topic.id r.topics) [
    | none ↦
        if topic.id == 0
        then (r, corrupt ("topic id " <> to_decimal topic.id <> " is invalid or declared twice") r)
        else (record r { topics = r.topics ++ topic ∷ [] }, ok_status)
    | some _ ↦
        (r, corrupt ("topic id " <> to_decimal topic.id <> " is invalid or declared twice") r)
  ]
]

-- The part of `Next` that reads a message from a record's body.
unfoldable pub decode_message : List ℕ → Reader → Result RecordedMessage
decode_message body r =
    let topic = get_u32 body in
    let time = get_u64 (drop 4 body) in
    if ltb (length body) message_fixed_size
    then from_status (corrupt "malformed message record" r)
    else if ltb (2 ^ 63 - 1) time
    then from_status (corrupt "message time out of range" r)
    else elim (find_topic topic r.topics) [
      | none ↦ from_status (corrupt ("message of undeclared topic id " <> to_decimal topic) r)
      | some _ ↦ value (record {
        topic = topic;
        time = pos time;
        sequence = get_u64 (drop 12 body);
        payload = drop message_fixed_size body;
      })
    ]

-- What one round of the loop of `Next` reads: the end of the recording, or a record.
pub data Round : Type 0 where
  stopped : Reader → Round
  body_of : ℕ → List ℕ → Reader → Round

abbrev cut_off : Bool → Reader → Reader
cut_off truncated r = record r { truncated = truncated; ended = true }

unfoldable pub read_record : Reader → Round
read_record r =
    let header = take record_header_size r.input in
    let kind = get_u32 header in
    let size = get_u32 (drop 4 header) in
    let headed = record r {
      input = drop record_header_size r.input;
      position = r.position + record_header_size;
    } in
    let body = take size headed.input in
    let bodied = record headed { input = drop size headed.input } in
    if not (length header == record_header_size)
    then stopped
        (cut_off (not (length header == 0)) (record r { input = drop record_header_size r.input }))
    else if ltb (headed.file_size - min headed.file_size headed.position) size
    then stopped (cut_off true headed)
    else if not (length body == size)
    then stopped (cut_off true bodied)
    else body_of kind body (record bodied { position = headed.position + size })

-- The loop of `Next`, which goes on where the source does; `none` is the end of the fuel.
unfoldable pub next_loop : ℕ → Reader → Option (Reader × Result (Option RecordedMessage))
next_loop zero r = none
next_loop (suc fuel) r = elim r.ended [
  | true ↦ some (r, value none)
  | false ↦ elim (read_record r) [
    | stopped r ↦ some (r, value none)
    | body_of kind body r ↦ elim (kind == topic_record) [
      | true ↦
          let (r, status) = decode_topic body r in
          elim (is_ok status) [ true ↦ next_loop fuel r | false ↦ some (r, from_status status) ]
      | false ↦ elim (kind == message_record) [
        | true ↦ elim (decode_message body r) [
          | value message ↦ some (r, value (some message))
          | failure e ↦ some (r, failure e)
        ]
        | false ↦ next_loop fuel r
      ]
    ]
  ]
]

-- `RecordingReader::Next`: every round but the last takes a header off the input.
unfoldable pub next : Reader → Option (Reader × Result (Option RecordedMessage))
next r = next_loop (suc (length r.input)) r
