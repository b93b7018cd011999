-- ===== src/Transport/InMemory/Channel.antt =====
-- src/transport/inmemory/inmemory_transport.cpp, `TopicChannel`: one topic and its readers. A weak
-- pointer to a mailbox is `none` once the reader is destroyed.
pub mod Gone
pub mod Threads
pub mod Copies
pub mod Once
use puppet_master.Base.{
  ℕ, ◌+◌, ◌%◌, ◌^◌, String, ◌<>◌, List, [], ◌∷◌, ◌++◌, Bool, true, false, ◌&&◌, ◌||◌, not, Option,
  none, some, all, any, ◌==◌, if◌then◌else◌,
}
use puppet_master.Core.Status.{
  Status, ok_status, error, is_ok, failed_precondition, not_found, invalid_argument,
}
use puppet_master.Core.Names.{TopicLifetime, shared, reader_owned}
use puppet_master.Transport.Message.{MessageDescriptor, Message}
use puppet_master.Transport.InMemory.Mailbox
use puppet_master.Transport.InMemory.Mailbox.{Mailbox, pushed, push_waits, push, closed_error}

-- An entry of `readers_`, under the reader's number.
pub record Slot : Type 0 where
  pub reader : ℕ
  pub mailbox : Option Mailbox

pub record TopicChannel : Type 0 where
  pub topic : String
  pub descriptor : MessageDescriptor
  pub lifetime : TopicLifetime
  pub readers : List Slot
  pub next_sequence : ℕ
  pub had_reader : Bool
  pub closed : Bool

abbrev pub new_channel : String → MessageDescriptor → TopicLifetime → TopicChannel
new_channel topic descriptor lifetime = record {
  topic = topic;
  descriptor = descriptor;
  lifetime = lifetime;
  readers = [];
  next_sequence = 1;
  had_reader = false;
  closed = false;
}

-- `operator==` of `TopicLifetime`.
abbrev pub lifetime_eq : TopicLifetime → TopicLifetime → Bool
lifetime_eq shared shared = true
lifetime_eq reader_owned reader_owned = true
lifetime_eq _ _ = false

-- `weak_ptr::expired`.
abbrev pub expired : Slot → Bool
expired slot = elim slot.mailbox [ none ↦ true | some mb ↦ false ]

-- `GoneLocked`.
unfoldable pub gone : TopicChannel → Bool
gone c =
    if not (lifetime_eq c.lifetime reader_owned) || not c.had_reader
    then false
    else all expired c.readers

abbrev pub channel_closed : TopicChannel → Status
channel_closed c = error failed_precondition ("in-memory topic channel is closed: " <> c.topic)

-- `AddReader`.
unfoldable pub add_reader : ℕ → Mailbox → TopicChannel → Status × TopicChannel
add_reader id mb c = if c.closed then (channel_closed c, c) else (
  ok_status,
  record c {
    readers = c.readers ++ (record { reader = id; mailbox = some mb }) ∷ [];
    had_reader = true;
  },
)

-- `remove_if` of the expired readers.
unfoldable pub live_readers : List Slot → List Slot
live_readers [] = []
live_readers (s ∷ ss) = if expired s then live_readers ss else s ∷ live_readers ss

-- `ByteView::Validate`: `none` is a null pointer with a size.
abbrev pub validate_view : Option (List ℕ) → Status
validate_view none = error invalid_argument "byte view data is null but size is non-zero"
validate_view (some bytes) = ok_status

abbrev pub view_bytes : Option (List ℕ) → List ℕ
view_bytes none = []
view_bytes (some bytes) = bytes

-- The message of a publication at `now`; a source timestamp of zero stands for none.
abbrev pub make_message : List ℕ → ℕ → ℕ → TopicChannel → Message
make_message payload source now c = record {
  payload = payload;
  metadata = record {
    sequence = c.next_sequence;
    source_timestamp = if source == 0 then now else source;
    reception_timestamp = now;
  };
}

-- The critical section of `Publish`: the channel with its number spent and expired readers gone.
abbrev pub begin_publish : TopicChannel → TopicChannel
begin_publish c = record c {
  next_sequence = (c.next_sequence + 1) % 2 ^ 64;
  readers = live_readers c.readers;
}

-- The numbers of the readers that a publication has locked, in order.
unfoldable pub numbers : List Slot → List ℕ
numbers [] = []
numbers (s ∷ ss) = s.reader ∷ numbers ss

-- A publication that has left the critical section: its message, the readers that it keeps alive, those
-- that it still has to push to, and the first failure so far.
pub record Sending : Type 0 where
  pub message : Message
  pub held : List ℕ
  pub left : List ℕ
  pub result : Status

pub data Publication : Type 0 where
  refused : Status → Publication
  sending : TopicChannel → Sending → Publication

-- `Publish` up to the end of its critical section.
unfoldable pub publish : Option (List ℕ) → ℕ → ℕ → TopicChannel → Publication
unfolding gone live_readers numbers
publish payload source now c =
    let status = validate_view payload in
    let c' = begin_publish c in
    if not (is_ok status)
    then refused status
    else if c.closed
    then refused (channel_closed c)
    else if gone c
    then refused (error not_found ("in-memory topic " <> c.topic <> " was closed by its reader"))
    else sending c' (record {
      message = make_message (view_bytes payload) source now c;
      held = numbers c'.readers;
      left = numbers c'.readers;
      result = ok_status;
    })

-- The mailbox of a reader, and the channel's readers after a change of it.
unfoldable pub find_mailbox : ℕ → List Slot → Option Mailbox
find_mailbox id [] = none
find_mailbox id (s ∷ ss) = if s.reader == id then s.mailbox else find_mailbox id ss

unfoldable pub put_mailbox : ℕ → Mailbox → List Slot → List Slot
put_mailbox id mb [] = []
put_mailbox id mb (s ∷ ss) =
    if s.reader == id then record s { mailbox = some mb } ∷ ss else s ∷ put_mailbox id mb ss

abbrev pub first_failure : Status → Status → Status
first_failure result status = if is_ok result && not (is_ok status) then status else result

abbrev pub pushed_one : List ℕ → Status → Sending → Sending
pushed_one left status f = record f { left = left; result = first_failure f.result status }

-- One round of the loop of `Publish` over its readers, which runs without the channel's mutex: `none` if
-- none is left, or while the mailbox makes the publication wait for room. A reader that is not in the
-- channel any more was closed with the channel, and refuses the message.
unfoldable pub push_next : (ℕ → Bool) → Sending → List Slot → Option (List Slot × Sending)
unfolding find_mailbox put_mailbox
push_next throws f ss = elim f.left [
  | [] ↦ none
  | id ∷ rest ↦ elim (find_mailbox id ss) [
    | none ↦ some (ss, pushed_one rest closed_error f)
    | some mb ↦ elim (push throws mb f.message) [
      | push_waits ↦ none
      | pushed mb' status ↦ some (put_mailbox id mb' ss, pushed_one rest status f)
    ]
  ]
]

abbrev pub close_slot : Slot → Slot
close_slot s = record s {
  mailbox = elim s.mailbox [ none ↦ none | some mb ↦ some (Mailbox.close mb) ];
}

-- The mailboxes after `Close`, which only their readers still know.
unfoldable pub close_readers : List Slot → List Slot
close_readers [] = []
close_readers (s ∷ ss) = close_slot s ∷ close_readers ss

-- `Close`: the closed mailboxes, and the channel without readers.
unfoldable pub close : TopicChannel → List Slot × TopicChannel
unfolding close_readers
close c = (close_readers c.readers, record c { closed = true; readers = [] })

-- The destruction of a reader that no publication keeps alive: its mailbox expires.
unfoldable pub drop_reader : ℕ → List Slot → List Slot
drop_reader id [] = []
drop_reader id (s ∷ ss) =
    if s.reader == id
    then record s { mailbox = none } ∷ drop_reader id ss
    else s ∷ drop_reader id ss
