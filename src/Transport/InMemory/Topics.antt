-- ===== src/Transport/InMemory/Topics.antt =====
-- src/transport/inmemory/inmemory_transport.cpp, `InMemoryTransport`: the channels of a transport.
-- The heap holds every channel under its address, with the number of readers and writers that own
-- it, and the closed mailboxes that only their readers still know. A weak pointer to a channel is an
-- address, expired once nobody owns the channel.
pub mod Sharing
pub mod Connection
use puppet_master.Base.{
  ℕ, suc, ◌+◌, ◌-◌, ◌≡◌, String, ◌<>◌, List, [], ◌∷◌, ◌++◌, Bool, true, false, ◌&&◌, ◌||◌, not,
  Option, none, some, length, get_elem?, set, ◌==◌, if◌then◌else◌, lookup, emplace, ◌=ₛ◌,
}
use puppet_master.Core.Status.{
  Status, ok_status, error, is_ok, failed_precondition, not_found, invalid_argument,
}
use puppet_master.Core.Result.{Result, value, failure, from_status}
use puppet_master.Core.Names.{TransportKind, in_memory, lifetime_to_string, reader_owned}
use puppet_master.Transport.Message.{
  MessageDescriptor, EndpointConfig, validate_endpoint, descriptor_eq, descriptor_to_string,
}
use puppet_master.Transport.InMemory.Mailbox.{Mailbox, new_mailbox}
use puppet_master.Transport.InMemory.Channel
use puppet_master.Transport.InMemory.Channel.{
  Slot, TopicChannel, new_channel, gone, lifetime_eq, add_reader, drop_reader,
}

pub record Held : Type 0 where
  pub channel : TopicChannel
  pub owners : ℕ
  pub detached : List Slot

-- `InMemoryTransport::State`.
pub record State : Type 0 where
  pub channels : List (String × ℕ)
  pub open_ : Bool
  pub heap : List Held

abbrev pub is_in_memory : TransportKind → Bool
is_in_memory in_memory = true
is_in_memory _ = false

-- `ValidateInMemoryEndpoint`.
unfoldable pub validate_in_memory_endpoint : EndpointConfig → Status
validate_in_memory_endpoint e =
    let status = validate_endpoint e in
    if not (is_ok status)
    then status
    else if not (is_in_memory e.topic.transport)
    then error invalid_argument "in-memory transport requires topic transport kind to be in_memory"
    else ok_status

-- `weak_ptr::lock`.
unfoldable pub lock : ℕ → List Held → Option TopicChannel
lock address heap = elim (get_elem? heap address) [
  | none ↦ none
  | some h ↦ if h.owners == 0 then none else some h.channel
]

-- The sweep of the expired entries.
unfoldable pub sweep : List Held → List (String × ℕ) → List (String × ℕ)
unfolding lock
sweep heap [] = []
sweep heap ((k, address) ∷ cs) = elim (lock address heap) [
  | none ↦ sweep heap cs
  | some c ↦ (k, address) ∷ sweep heap cs
]

-- `channels.erase(found)`, for the entry of that key.
unfoldable pub erase_key : String → List (String × ℕ) → List (String × ℕ)
erase_key k [] = []
erase_key k ((j, a) ∷ cs) = if j =ₛ k then erase_key k cs else (j, a) ∷ erase_key k cs

-- The end of `GetOrCreateChannel`: no channel of the topic is to be used.
unfoldable pub create_channel : EndpointConfig → Bool → State → Result ℕ × State
create_channel e writer s =
    if writer && lifetime_eq e.topic.lifetime reader_owned
    then (from_status (error not_found ("in-memory topic " <> e.topic.name <> " has no reader")), s)
    else (
      value (length s.heap),
      record s {
        channels = emplace e.topic.name (length s.heap) s.channels;
        heap =
            s.heap
            ++ (record {
              channel = new_channel e.topic.name e.message e.topic.lifetime;
              owners = 0;
              detached = [];
            })
              ∷ [];
      },
    )

-- The existing channel of the topic, which the endpoint must agree with.
unfoldable pub join_channel : EndpointConfig → Bool → State → ℕ → TopicChannel → Result ℕ × State
unfolding create_channel
join_channel e writer s address existing =
    if not (lifetime_eq existing.lifetime e.topic.lifetime)
    then (
      from_status (
          error invalid_argument (
            "in-memory topic "
            <> e.topic.name
            <> " is "
            <> lifetime_to_string existing.lifetime
            <> ", not "
            <> lifetime_to_string e.topic.lifetime)),
      s,
    )
    else if not (descriptor_eq existing.descriptor e.message)
    then (
      from_status (
          error invalid_argument (
            "in-memory topic "
            <> e.topic.name
            <> " carries "
            <> descriptor_to_string existing.descriptor
            <> ", not "
            <> descriptor_to_string e.message)),
      s,
    )
    else if not (gone existing)
    then (value address, s)
    else create_channel e writer (record s { channels = erase_key e.topic.name s.channels })

-- `GetOrCreateChannel`.
unfoldable pub get_or_create_channel : EndpointConfig → Bool → State → Result ℕ × State
unfolding join_channel sweep
get_or_create_channel e writer s =
    let status = validate_in_memory_endpoint e in
    let swept = record s { channels = sweep s.heap s.channels } in
    if not (is_ok status)
    then (from_status status, s)
    else if not s.open_
    then (
      from_status
          (error failed_precondition "in-memory transport must be open before creating endpoints"),
      s,
    )
    else elim (lookup e.topic.name swept.channels) [
      | none ↦ create_channel e writer swept
      | some address ↦ elim (lock address s.heap) [
        | none ↦
            create_channel e writer
              (record swept { channels = erase_key e.topic.name swept.channels })
        | some existing ↦ join_channel e writer swept address existing
      ]
    ]

-- One more owner of the channel, which is then `c`.
abbrev pub hold : ℕ → TopicChannel → List Held → List Held
hold address c heap = elim (get_elem? heap address) [
  | none ↦ heap
  | some h ↦ set heap address (record h { channel = c; owners = h.owners + 1 })
]

abbrev pub channel_at : ℕ → List Held → Option TopicChannel
channel_at address heap = elim (get_elem? heap address) [ none ↦ none | some h ↦ some h.channel ]

-- The rest of `CreateReader` once it has a channel, which the shared pointer keeps in the heap.
unfoldable pub attach_reader : ℕ → EndpointConfig → ℕ → State → Result ℕ × State
attach_reader id e address s = elim (channel_at address s.heap) [
  | none ↦ (value address, s)
  | some c ↦
      let added = add_reader id (new_mailbox e.topic.name e.message e.topic.message_policy) c in
      if is_ok added.0
      then (value address, record s { heap = hold address added.1 s.heap })
      else (from_status added.0, s)
]

abbrev pub and_attach : (ℕ → State → Result ℕ × State) → Result ℕ × State → Result ℕ × State
and_attach attach (failure status, s) = (failure status, s)
and_attach attach (value address, s) = attach address s

-- `CreateReader`, for the reader of that number.
unfoldable pub create_reader : ℕ → EndpointConfig → State → Result ℕ × State
unfolding get_or_create_channel attach_reader
create_reader id e s = and_attach (attach_reader id e) (get_or_create_channel e false s)

unfoldable pub attach_writer : ℕ → State → Result ℕ × State
attach_writer address s = elim (channel_at address s.heap) [
  | none ↦ (value address, s)
  | some c ↦ (value address, record s { heap = hold address c s.heap })
]

-- `CreateWriter`.
unfoldable pub create_writer : EndpointConfig → State → Result ℕ × State
unfolding get_or_create_channel attach_writer
create_writer e s = and_attach attach_writer (get_or_create_channel e true s)

-- The destruction of a writer, and of a reader.
abbrev pub release_owner : ℕ → TopicChannel → List Held → List Held
release_owner address c heap = elim (get_elem? heap address) [
  | none ↦ heap
  | some h ↦ set heap address (record h { channel = c; owners = h.owners - 1 })
]

unfoldable pub destroy_writer : ℕ → State → State
destroy_writer address s = elim (channel_at address s.heap) [
  | none ↦ s
  | some c ↦ record s { heap = release_owner address c s.heap }
]

unfoldable pub destroy_reader : ℕ → ℕ → State → State
destroy_reader id address s = elim (get_elem? s.heap address) [
  | none ↦ s
  | some h ↦ record s {
    heap = set s.heap address (record {
      channel = record (h.channel) { readers = drop_reader id h.channel.readers };
      owners = h.owners - 1;
      detached = drop_reader id h.detached;
    });
  }
]

-- `Open` and `Close`.
abbrev pub open_transport : State → State
open_transport s = record s { open_ = true }

abbrev pub close_held : Held → Held
close_held h =
    let (closed, c) = Channel.close h.channel in
    if h.owners == 0 then h else record h { channel = c; detached = h.detached ++ closed }

unfoldable pub close_channels : List (String × ℕ) → List Held → List Held
close_channels [] heap = heap
close_channels ((k, address) ∷ cs) heap = elim (get_elem? heap address) [
  | none ↦ close_channels cs heap
  | some h ↦ close_channels cs (set heap address (close_held h))
]

unfoldable pub close_transport : State → State
unfolding close_channels
close_transport s = elim s.open_ [
  | true ↦ record { channels = []; open_ = false; heap = close_channels s.channels s.heap }
  | false ↦ elim s.channels [
    | [] ↦ s
    | _ ∷ _ ↦ record { channels = []; open_ = false; heap = close_channels s.channels s.heap }
  ]
]
