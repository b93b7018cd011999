-- ===== src/Transport/InMemory/Mailbox.antt =====
-- src/transport/inmemory/inmemory_transport.cpp, `InMemoryReader::Mailbox`: one reader's queue.
-- The mutex makes each operation one step; one that waits on a condition variable changes nothing
-- and is run again when it is woken.
pub mod Bounds
pub mod History
pub mod Delivery
use puppet_master.Base.{
  ℕ, String, List, [], ◌∷◌, ◌++◌, Bool, true, false, ◌&&◌, not, Option, none, some, ltb, length,
  if◌then◌else◌,
}
use puppet_master.Base.Int.{ℤ, pos, ltb_ℤ}
use puppet_master.Core.Status.{
  Status, ok_status, error, is_ok, failed_precondition, resource_exhausted, unavailable,
  deadline_exceeded, internal,
}
use puppet_master.Core.Result.{Result, value, failure, from_status}
use puppet_master.Core.Policy.{
  MessagePolicy, FreshnessPolicy, latest, queued, RetentionPolicy, keep_last, keep_all,
  QueueOverflowPolicy, drop_oldest, drop_newest, reject, block,
}
use puppet_master.Transport.Message.{MessageDescriptor, Message}

abbrev pub is_queued : FreshnessPolicy → Bool
is_queued queued = true
is_queued latest = false

abbrev pub is_keep_all : RetentionPolicy → Bool
is_keep_all keep_all = true
is_keep_all keep_last = false

-- `UsesUnboundedQueue`.
unfoldable pub uses_unbounded_queue : MessagePolicy → Bool
uses_unbounded_queue p = is_queued p.freshness && is_keep_all p.retention

-- `QueueCapacity`.
unfoldable pub queue_capacity : MessagePolicy → ℕ
queue_capacity p = if is_queued p.freshness then p.queue_depth else 1

-- The callback is named by a number.
pub record Mailbox : Type 0 where
  pub topic : String
  pub descriptor : MessageDescriptor
  pub policy : MessagePolicy
  pub messages : List Message
  pub callback : Option ℕ
  pub closed : Bool

-- The constructor.
abbrev pub new_mailbox : String → MessageDescriptor → MessagePolicy → Mailbox
new_mailbox topic descriptor policy = record {
  topic = topic;
  descriptor = descriptor;
  policy = policy;
  messages = [];
  callback = none;
  closed = false;
}

-- An operation returns, or it waits for another one.
pub data Push : Type 0 where
  pushed : Mailbox → Status → Push
  push_waits : Push

pub data Read : Type 0 where
  did_read : Mailbox → Result Message → Read
  read_waits : Read

abbrev pub put_messages : List Message → Mailbox → Mailbox
put_messages ms mb = record mb { messages = ms }

abbrev pub append : Message → Mailbox → Mailbox
append m mb = put_messages (mb.messages ++ m ∷ []) mb

abbrev pub tail : List Message → List Message
tail [] = []
tail (m ∷ ms) = ms

abbrev pub closed_error : Status
closed_error = error failed_precondition "in-memory reader mailbox is closed"

-- The wait of `PushQueued` on a full queue, each time that it is woken.
unfoldable pub push_blocked : Mailbox → Message → Push
push_blocked mb m =
    if mb.closed
    then pushed mb closed_error
    else if ltb (length mb.messages) (queue_capacity mb.policy)
    then pushed (append m mb) ok_status
    else push_waits

-- The `switch` of `PushQueued` on a full queue.
unfoldable pub overflow : QueueOverflowPolicy → Mailbox → Message → Push
unfolding push_blocked
overflow drop_oldest mb m = pushed (put_messages (tail mb.messages ++ m ∷ []) mb) ok_status
overflow drop_newest mb m = pushed mb ok_status
overflow reject mb m = pushed mb (error resource_exhausted "in-memory reader queue is full")
overflow block mb m = push_blocked mb m

-- `PushQueued`.
unfoldable pub push_queued : Mailbox → Message → Push
unfolding overflow
push_queued mb m =
    if uses_unbounded_queue mb.policy
    then pushed (append m mb) ok_status
    else if ltb (length mb.messages) (queue_capacity mb.policy)
    then pushed (append m mb) ok_status
    else overflow mb.policy.overflow mb m

-- `callback()` after a message is stored: `throws` says which callbacks throw.
abbrev pub notify : (ℕ → Bool) → Option ℕ → Status
notify throws none = ok_status
notify throws (some f) =
    if throws f then error internal "in-memory reader callback failed" else ok_status

-- The rest of `Push` once the message is stored or refused.
abbrev pub and_notify : (ℕ → Bool) → Push → Push
and_notify throws push_waits = push_waits
and_notify throws (pushed mb status) =
    if is_ok status then pushed mb (notify throws mb.callback) else pushed mb status

-- `Push`.
unfoldable pub push : (ℕ → Bool) → Mailbox → Message → Push
unfolding push_queued
push throws mb m =
    if mb.closed
    then pushed mb closed_error
    else if is_queued mb.policy.freshness
    then and_notify throws (push_queued mb m)
    else pushed (put_messages (m ∷ []) mb) (notify throws mb.callback)

-- The end of `Read`, with nothing to wait for.
abbrev pub pop : Mailbox → Read
pop mb = elim mb.messages [
  | [] ↦ did_read mb (from_status (error unavailable "no in-memory message is available"))
  | m ∷ ms ↦ did_read (put_messages ms mb) (value m)
]

abbrev pub has_messages : List Message → Bool
has_messages [] = false
has_messages (m ∷ ms) = true

-- `Read`: `expired` says that the timeout has passed.
unfoldable pub read : Bool → ℤ → Bool → Mailbox → Read
read wait timeout expired mb =
    if not wait
    then pop mb
    else if mb.closed
    then pop mb
    else if has_messages mb.messages
    then pop mb
    else if ltb_ℤ (pos 0) timeout && expired
    then did_read mb
        (from_status (error deadline_exceeded "timed out waiting for in-memory message"))
    else read_waits

-- `SetDataAvailableCallback`, `PendingMessageCount` and `Close`.
abbrev pub set_callback : Option ℕ → Mailbox → Mailbox
set_callback f mb = record mb { callback = f }

abbrev pub pending_message_count : Mailbox → ℕ
pending_message_count mb = length mb.messages

abbrev pub close : Mailbox → Mailbox
close mb = record mb { closed = true }
