-- ===== src/Transport/Recording/Writer.antt =====
-- src/transport/recording.cpp, RecordingWriter. An output stream is buffered: what it takes reaches the
-- device when the library chooses to push it, at the latest when it is flushed or closed.
use puppet_master.Base.{
  ℕ, ◌+◌, ◌-◌, ◌%◌, ◌^◌, String, ◌<>◌, List, [], ◌∷◌, ◌++◌, length, Bool, true, false, not, ◌||◌,
  ltb, leb, ◌==◌, if◌then◌else◌, take, to_decimal, min, max,
}
use puppet_master.Base.Int.{ℤ, pos, negsuc}
use puppet_master.Core.Status.{
  Status, ok_status, error, is_ok, invalid_argument, failed_precondition, unavailable,
}
use puppet_master.Core.Result.{Result, value, failure, from_status}
use puppet_master.Core.Names.{validate_name}
use puppet_master.Transport.Message.{validate_descriptor}
use puppet_master.Transport.Recording.Bytes.{put_u32, put_u64, put_string, codes}
use puppet_master.Transport.Recording.Types.{
  RecordedTopic, max_record_size, topic_record, message_record, file_header,
}

-- `std::ofstream`: all that it took, how much of that is on the device, and what the device has room
-- for. `buffering` stands for the library's choice, at each write, of how much to push: it is given what
-- is on the device and the total taken.
pub record OutStream : Type 0 where
  pub contents : List ℕ
  pub stored : ℕ
  pub room : ℕ
  pub good : Bool
  pub buffering : ℕ → ℕ → ℕ

-- `write`: a push that does not fit fills the device and fails, and a stream that failed takes nothing.
unfoldable pub stream_write : List ℕ → OutStream → OutStream
stream_write bytes o =
    let total = length o.contents + length bytes in
    let pushed = min total (o.buffering o.stored total) in
    if not o.good || length bytes == 0
    then o
    else if leb pushed o.room
    then record o { contents = o.contents ++ bytes; stored = max o.stored pushed }
    else record o {
      contents = o.contents ++ take (o.room - length o.contents) bytes;
      stored = o.room;
      good = false;
    }

-- `flush`, which pushes everything; `close` does so too.
unfoldable pub push_out : OutStream → OutStream
push_out o =
    if not o.good
    then o
    else if leb (length o.contents) o.room
    then record o { stored = length o.contents }
    else record o { stored = o.room; good = false }

-- The file as a reader finds it, or as a crash leaves it.
abbrev pub file_of : OutStream → List ℕ
file_of o = take o.stored o.contents

-- `RecordingWriter::Impl`, without its scratch buffer.
pub record Writer : Type 0 where
  pub path : String
  pub out : OutStream
  pub topics : List ℕ
  pub messages : ℕ
  pub closed : Bool

-- `Failed`.
abbrev pub failed : String → Writer → Status
failed what w = error unavailable (what <> " " <> w.path <> " failed")

-- The header, the body and the tail of a record, one after the other.
unfoldable pub put_record : ℕ → List ℕ → List ℕ → OutStream → OutStream
put_record kind body tail o =
    let headed = stream_write (put_u32 kind ++ put_u32 (length body + length tail)) o in
    let bodied = stream_write body headed in
    if not (length tail == 0) then stream_write tail bodied else bodied

-- `Emit`.
unfoldable pub emit : ℕ → List ℕ → List ℕ → Writer → Writer × Status
emit kind body tail w =
    let size = length body + length tail in
    if w.closed
    then (w, error failed_precondition ("recording " <> w.path <> " is closed"))
    else if ltb max_record_size size
    then (w, error invalid_argument ("record of " <> to_decimal size <> " bytes is too large"))
    else let out = put_record kind body tail w.out in
      (record w { out = out }, if out.good then ok_status else failed "writing" w)

-- The stream of a file that was just opened and is empty.
abbrev pub empty_stream : ℕ → (ℕ → ℕ → ℕ) → OutStream
empty_stream room buffering = record {
  contents = [];
  stored = 0;
  room = room;
  good = true;
  buffering = buffering;
}

-- `RecordingWriter::Create` on a device with room for `room` bytes, which can be opened or not.
unfoldable pub create : Bool → ℕ → (ℕ → ℕ → ℕ) → String → Result Writer
create opens room buffering path =
    let out = stream_write file_header (empty_stream room buffering) in
    let w : Writer = record { path = path; out = out; topics = []; messages = 0; closed = false } in
    if not opens
    then failure (error unavailable ("cannot create recording " <> path))
    else if out.good
    then value w
    else from_status (failed "writing" w)

-- `TooLong`.
abbrev pub too_long : String → Bool
too_long text = ltb (2 ^ 32 - 1) (length (codes text))

-- The loop of `AddTopic` over the parameters, which follow what `body` holds.
unfoldable pub put_parameters : List ℕ → List (String × String) → Result (List ℕ)
put_parameters body [] = value body
put_parameters body ((key, text) ∷ rest) = elim (too_long key || too_long text) [
  | true ↦ from_status (error invalid_argument "topic parameter is too long")
  | false ↦ put_parameters (body ++ put_string key ++ put_string text) rest
]

unfoldable pub topic_head : ℕ → RecordedTopic → List ℕ
topic_head id topic =
    put_u32 id
    ++ put_string topic.name
    ++ put_string topic.descriptor.type_name
    ++ put_string topic.descriptor.encoding
    ++ put_u32 topic.descriptor.version
    ++ put_u32 (length topic.parameters % 2 ^ 32)

-- The end of `AddTopic`: the topic is declared once its record is written.
unfoldable pub put_topic : ℕ → List ℕ → Writer → Writer × Result ℕ
put_topic id body w =
    let (emitted, status) = emit topic_record body [] w in
    if is_ok status
    then (record emitted { topics = emitted.topics ++ id ∷ [] }, value id)
    else (emitted, from_status status)

-- `RecordingWriter::AddTopic`.
unfoldable pub add_topic : RecordedTopic → Writer → Writer × Result ℕ
add_topic topic w =
    let named = validate_name "topic name" topic.name in
    let status = if is_ok named then validate_descriptor topic.descriptor else named in
    let id = (length w.topics + 1) % 2 ^ 32 in
    if not (is_ok status)
    then (w, from_status status)
    else elim (put_parameters (topic_head id topic) topic.parameters) [
      | failure e ↦ (w, failure e)
      | value body ↦ put_topic id body w
    ]

unfoldable pub message_head : ℕ → ℕ → ℕ → List ℕ
message_head topic time sequence = put_u32 topic ++ put_u64 time ++ put_u64 sequence

-- The end of `Write`.
unfoldable pub put_message : ℕ → ℕ → ℕ → List ℕ → Writer → Writer × Status
put_message topic count sequence payload w =
    let (emitted, status) = emit message_record (message_head topic count sequence) payload w in
    (if is_ok status then record emitted { messages = emitted.messages + 1 } else emitted, status)

-- `RecordingWriter::Write`; the test that the time is not negative stands before its conversion.
unfoldable pub write : ℕ → ℤ → ℕ → List ℕ → Writer → Writer × Status
write topic time sequence payload w =
    if topic == 0 || ltb (length w.topics) topic
    then (w, error invalid_argument ("topic id " <> to_decimal topic <> " was not added"))
    else elim time [
      | negsuc n ↦ (w, error invalid_argument "message time must not be negative")
      | pos count ↦ put_message topic count sequence payload w
    ]

-- `RecordingWriter::Flush`.
unfoldable pub flush : Writer → Writer × Status
flush w =
    let out = push_out w.out in
    if w.closed
    then (w, error failed_precondition ("recording " <> w.path <> " is closed"))
    else (record w { out = out }, if out.good then ok_status else failed "flushing" w)

-- `RecordingWriter::Close`.
unfoldable pub close : Writer → Writer × Status
close w =
    let out = push_out w.out in
    if w.closed
    then (w, ok_status)
    else (record w { out = out; closed = true }, if out.good then ok_status else failed "closing" w)

abbrev pub message_count : Writer → ℕ
message_count w = w.messages
