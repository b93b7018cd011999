-- ===== src/Transport/Recording/Types.antt =====
-- include/puppet_master/transport/recording.h and src/transport/recording.cpp: what a recording holds.
use puppet_master.Base.{ℕ, ◌+◌, ◌^◌, ◌-◌, String, List, [], ◌∷◌, ◌++◌}
use puppet_master.Base.Int.{ℤ}
use puppet_master.Transport.Message.{MessageDescriptor}
use puppet_master.Transport.Recording.Bytes.{put_u32}

pub record RecordedTopic : Type 0 where
  pub id : ℕ
  pub name : String
  pub descriptor : MessageDescriptor
  pub parameters : List (String × String)

pub record RecordedMessage : Type 0 where
  pub topic : ℕ
  pub time : ℤ
  pub sequence : ℕ
  pub payload : List ℕ

-- "PMREC001".
abbrev pub magic : List ℕ
magic = 80 ∷ 77 ∷ 82 ∷ 69 ∷ 67 ∷ 48 ∷ 48 ∷ 49 ∷ []

abbrev pub format_version : ℕ
format_version = 1

abbrev pub file_header_size : ℕ
file_header_size = 16

abbrev pub record_header_size : ℕ
record_header_size = 8

abbrev pub topic_record : ℕ
topic_record = 1

abbrev pub message_record : ℕ
message_record = 2

abbrev pub message_fixed_size : ℕ
message_fixed_size = 4 + 8 + 8

abbrev pub max_record_size : ℕ
max_record_size = 2 ^ 32 - 1

-- What `Create` writes first.
unfoldable pub file_header : List ℕ
unfolding put_u32
file_header = magic ++ put_u32 format_version ++ put_u32 0
