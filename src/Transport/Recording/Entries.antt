-- ===== src/Transport/Recording/Entries.antt =====
-- What a recording holds, entry by entry, and the bytes of each: the layout at the head of
-- src/transport/recording.cpp, written down once for the writer and the reader.
use puppet_master.Base.{
  ℕ, suc, ◌^◌, ◌≤◌, ◌<◌, String, List, [], ◌∷◌, ◌++◌, length, ◌≡◌, All, true, before,
}
use puppet_master.Base.Int.{pos}
use puppet_master.Transport.Recording.Bytes.{put_u32, put_string, IsBytes}
use puppet_master.Transport.Recording.Types.{
  RecordedTopic, RecordedMessage, topic_record, message_record,
}
use puppet_master.Transport.Recording.Writer.{topic_head, message_head}

pub data Entry : Type 0 where
  topic_entry : RecordedTopic → Entry
  message_entry : ℕ → ℕ → ℕ → List ℕ → Entry

unfoldable pub parameter_bytes : List (String × String) → List ℕ
parameter_bytes [] = []
parameter_bytes ((key, text) ∷ rest) = (put_string key ++ put_string text) ++ parameter_bytes rest

-- The kind of an entry's record, and the record's body.
abbrev pub kind_of : Entry → ℕ
kind_of (topic_entry t) = topic_record
kind_of (message_entry topic time sequence payload) = message_record

abbrev pub body_bytes : Entry → List ℕ
body_bytes (topic_entry t) = topic_head t.id t ++ parameter_bytes t.parameters
body_bytes (message_entry topic time sequence payload) = message_head topic time sequence ++ payload

unfoldable pub record_bytes : ℕ → List ℕ → List ℕ
record_bytes kind body = (put_u32 kind ++ put_u32 (length body)) ++ body

abbrev pub entry_bytes : Entry → List ℕ
entry_bytes e = record_bytes (kind_of e) (body_bytes e)

unfoldable pub bytes_of : List Entry → List ℕ
bytes_of [] = []
bytes_of (e ∷ es) = entry_bytes e ++ bytes_of es

-- The messages and the topics among the entries.
unfoldable pub messages_of : List Entry → List RecordedMessage
messages_of [] = []
messages_of (topic_entry t ∷ es) = messages_of es
messages_of (message_entry topic time sequence payload ∷ es) =
    record { topic = topic; time = pos time; sequence = sequence; payload = payload }
    ∷ messages_of es

unfoldable pub topics_of : List Entry → List RecordedTopic
topics_of [] = []
topics_of (topic_entry t ∷ es) = t ∷ topics_of es
topics_of (message_entry topic time sequence payload ∷ es) = topics_of es

-- Texts of bytes, and the keys of a `std::map` in their order.
abbrev pub AreTexts : List (String × String) → Type 0
AreTexts = All (λ p. IsBytes p.0 × IsBytes p.1)

abbrev pub IsMap : List (String × String) → Type 0
IsMap [] = Unit
IsMap ((key, text) ∷ rest) = All (λ p. before key p.0 ≡ true) rest × IsMap rest

-- A topic whose members are values of their types.
pub record IsTopic (t : RecordedTopic) : Type 0 where
  pub name : IsBytes t.name
  pub type_name : IsBytes t.descriptor.type_name
  pub encoding : IsBytes t.descriptor.encoding
  pub version : t.descriptor.version < 2 ^ 32
  pub texts : AreTexts t.parameters
  pub sorted : IsMap t.parameters

-- An entry that may stand behind `n` topics.
abbrev pub Fits : ℕ → Entry → Type 0
Fits n (topic_entry t) =
    (t.id ≡ suc n) × (suc n < 2 ^ 32) × IsTopic t × (length (body_bytes (topic_entry t)) < 2 ^ 32)
Fits n (message_entry topic time sequence payload) =
    (0 < topic)
    × (topic ≤ n)
    × (n < 2 ^ 32)
    × (time < 2 ^ 63)
    × (sequence < 2 ^ 64)
    × (length (body_bytes (message_entry topic time sequence payload)) < 2 ^ 32)

abbrev pub topics_behind : ℕ → Entry → ℕ
topics_behind n (topic_entry t) = suc n
topics_behind n (message_entry topic time sequence payload) = n

abbrev pub AllFit : ℕ → List Entry → Type 0
AllFit n [] = Unit
AllFit n (e ∷ es) = Fits n e × AllFit (topics_behind n e) es

-- The beginning of a record that was cut off before its end; nothing at all is one.
pub record Torn (bytes : List ℕ) : Type 0 where
  pub kind : ℕ
  pub body : List ℕ
  pub missing : List ℕ
  pub parts : bytes ++ missing ≡ record_bytes kind body
  pub some_missing : 0 < length missing
  pub kind_fits : kind < 2 ^ 32
  pub size_fits : length body < 2 ^ 32
