-- ===== src/Transport/Recording/Tests.antt =====
-- A recording of one topic and two messages, on a device that has room for it and on one that has not.
use puppet_master.Base.{
  ℕ, ◌+◌, ◌<◌, List, [], ◌∷◌, ◌++◌, length, take, All, true, false, ltb, to_decimal, arith, ◌≡◌,
  refl, ap,
}
use puppet_master.Base.Int.{pos, negsuc}
use puppet_master.Core.Result.{value}
use puppet_master.Core.Status.{is_ok}
use puppet_master.Core.Names.{validate_name, has_control}
use puppet_master.Transport.Message.{validate_descriptor}
use puppet_master.Transport.Recording.Bytes.{codes, put_u32, put_u64, put_le, put_string}
use puppet_master.Transport.Recording.Types.{RecordedTopic, file_header}
use puppet_master.Transport.Recording.Writer.{
  Writer, create, stream_write, put_record, emit, put_parameters, topic_head, put_topic, add_topic,
  message_head, put_message, write, close, flush, push_out, OutStream, file_of,
}
use puppet_master.Transport.Recording.Entries.{
  Entry, topic_entry, message_entry, entry_bytes, bytes_of,
}
use puppet_master.Transport.Recording.Session.{
  Call, call_add_topic, call_write, call_flush, IsCall, perform, perform_all, closing, end_with,
}
use puppet_master.Transport.Recording.RoundTrip.{ReadsAs, read_all-perform_all, read_all-take}

abbrev imu : RecordedTopic
imu = record {
  id = 0;
  name = "/imu";
  descriptor = record { type_name = "Imu"; encoding = "raw"; version = 2 };
  parameters = ("domain", "0") ∷ ("slots", "8") ∷ [];
}

abbrev header : List ℕ
header = 80 ∷ 77 ∷ 82 ∷ 69 ∷ 67 ∷ 48 ∷ 48 ∷ 49 ∷ 1 ∷ 0 ∷ 0 ∷ 0 ∷ 0 ∷ 0 ∷ 0 ∷ 0 ∷ []

-- The library pushes nothing before it is told to.
abbrev lazily : ℕ → ℕ → ℕ
lazily stored total = stored

abbrev device : ℕ → OutStream
device room = record { contents = header; stored = 0; room = room; good = true; buffering = lazily }

abbrev new_writer : Writer
new_writer = record {
  path = "drive.pmrec";
  out = device 1000;
  topics = [];
  messages = 0;
  closed = false;
}

creates_test : create true 1000 lazily "drive.pmrec" ≡ value new_writer
unfolding create stream_write file_header put_le
creates_test = refl

abbrev calls : List Call
calls =
    call_add_topic imu
    ∷ call_write 1 (pos 5) 7 (1 ∷ 2 ∷ [])
    ∷ call_write 2 (pos 6) 8 []
    ∷ call_write 1 (negsuc 0) 9 []
    ∷ call_write 1 (pos 9) 10 []
    ∷ call_flush
    ∷ []

-- A message of a topic that was not added and one before the beginning are refused.
abbrev entries : List Entry
entries =
    topic_entry (record imu { id = 1 })
    ∷ message_entry 1 5 7 (1 ∷ 2 ∷ [])
    ∷ message_entry 1 9 10 []
    ∷ []

records_test : (perform_all calls new_writer).1 ≡ entries
unfolding perform_all add_topic validate_name has_control validate_descriptor put_parameters codes
    put_topic emit topic_head put_u32 put_le put_string put_record stream_write write put_message
    to_decimal put_u64 perform flush push_out message_head
records_test = refl

length_test : length (perform_all calls new_writer).0.out.contents ≡ 145
unfolding perform_all add_topic validate_name has_control validate_descriptor put_parameters codes
    put_topic emit topic_head put_u32 put_le put_string put_record stream_write write put_message
    to_decimal put_u64 perform flush push_out message_head
length_test = refl

typed : All IsCall calls
typed = ground arith

few_entries : length (perform_all calls new_writer).1 < 10
few_entries = omega (arith, ap length records_test)

opened_test : (perform_all calls new_writer).0.closed ≡ false
unfolding perform_all add_topic validate_name has_control validate_descriptor put_parameters codes
    put_topic emit topic_head put_u32 put_le put_string put_record stream_write write put_message
    to_decimal put_u64 perform flush push_out message_head
opened_test = refl

closes_test : is_ok (close (perform_all calls new_writer).0).1 ≡ true
unfolding perform_all add_topic validate_name has_control validate_descriptor put_parameters codes
    put_topic emit topic_head put_u32 put_le put_string put_record stream_write write put_message
    to_decimal put_u64 perform flush push_out message_head close
closes_test = refl

-- On a device without room the calls succeed, and only the end shows that the records are lost.
abbrev small_writer : Writer
small_writer = record new_writer { out = device 20 }

abbrev one_topic : List Call
one_topic = call_add_topic imu ∷ []

lost_test :
    ((perform_all one_topic small_writer).1 ≡ topic_entry (record imu { id = 1 }) ∷ [])
    × (is_ok (close (perform_all one_topic small_writer).0).1 ≡ false)
    × (length (file_of (close (perform_all one_topic small_writer).0).0.out) ≡ 20)
unfolding perform_all add_topic validate_name has_control validate_descriptor put_parameters codes
    put_topic emit topic_head put_u32 put_le put_string put_record stream_write write put_message
    to_decimal put_u64 perform flush push_out message_head close
lost_test = (refl, refl, refl)

read_all-perform_all_example :
    ReadsAs "drive.pmrec" 10
      (file_of (end_with closing (perform_all calls new_writer).0).0.out)
      (perform_all calls new_writer).1
      false
read_all-perform_all_example =
    read_all-perform_all true 1000 lazily "drive.pmrec" new_writer calls creates_test typed
      (omega arith) closing "drive.pmrec" 10 opened_test closes_test few_entries

-- The last message is cut off.
read_all-take_example :
    (front : List Entry) × (back : List Entry) × ((perform_all calls new_writer).1 ≡ front ++ back)
    × ReadsAs "drive.pmrec" 10
        (take 130 (perform_all calls new_writer).0.out.contents)
        front
        (ltb (16 + length (bytes_of front)) 130)
    × ((e : Entry) (rest : List Entry)
        → back ≡ e ∷ rest
        → 130 < 16 + length (bytes_of front) + length (entry_bytes e))
read_all-take_example =
    read_all-take true 1000 lazily "drive.pmrec" new_writer calls creates_test typed (omega arith)
      "drive.pmrec" 10 130 few_entries (omega arith) (omega (arith, length_test))
