-- ===== src/Transport/InMemory/Tests.antt =====
-- The in-memory transport at concrete inputs.
use puppet_master.Base.{
  one_if, ltb, ◌≤◌, ℕ, ◌≡◌, refl, List, [], ◌∷◌, ◌++◌, Bool, true, false, some, arith, lookup,
  emplace,
}
use puppet_master.Base.Int.{pos}
use puppet_master.Core.Status.{ok_status, is_ok}
use puppet_master.Core.Result.{value}
use puppet_master.Core.Names.{in_memory, reader_owned, validate_name, has_control, validate_topic}
use puppet_master.Core.Policy.{MessagePolicy, reliable, keep_last, queued, drop_oldest, block}
use puppet_master.Transport.Message.{
  Message, MessageDescriptor, EndpointConfig, validate_descriptor, validate_endpoint,
}
use puppet_master.Transport.InMemory.Mailbox.{
  Mailbox, push_queued, new_mailbox, push, pushed, read, did_read, queue_capacity,
  uses_unbounded_queue,
}
use puppet_master.Transport.InMemory.Mailbox.Bounds.{OnPushed, Fits, push-Bounded}
use puppet_master.Transport.InMemory.Mailbox.History.{push_each, kept, new_mailbox-kept}
use puppet_master.Transport.InMemory.Mailbox.Delivery.{
  Sublist, Run, begins, pushes, reads, Run-Sublist, is_lossless, Run-lossless,
}
use puppet_master.Transport.InMemory.Channel.{
  TopicChannel, publish, new_channel, add_reader, Sending, gone, live_readers, numbers, push_next,
  find_mailbox, put_mailbox,
}
use puppet_master.Transport.InMemory.Channel.Threads.{
  TopicThreads, Reached, opens, step, joins, begins, pushes,
}
use puppet_master.Transport.InMemory.Channel.Copies.{copies}
use puppet_master.Transport.InMemory.Channel.Once.{Reached-once}
use puppet_master.Transport.InMemory.Topics.{
  State, create_reader, create_writer, validate_in_memory_endpoint,
}
use puppet_master.Transport.InMemory.Topics.Connection.{reader-create_writer}

abbrev quiet : ℕ → Bool
quiet f = false

abbrev descriptor : MessageDescriptor
descriptor = record { type_name = "Image"; encoding = "raw"; version = 1 }

abbrev newest : MessagePolicy
newest = record {
  delivery = reliable;
  retention = keep_last;
  freshness = queued;
  overflow = drop_oldest;
  queue_depth = 2;
}

abbrev waiting : MessagePolicy
waiting = record newest { overflow = block }

abbrev message : ℕ → Message
message n = record {
  payload = n ∷ [];
  metadata = record { sequence = n; source_timestamp = 0; reception_timestamp = 0 };
}

abbrev mailbox : MessagePolicy → List Message → Mailbox
mailbox p ms = record (new_mailbox "image" descriptor p) { messages = ms }

-- Two of three messages are kept.
kept_test : kept newest (message 1 ∷ message 2 ∷ message 3 ∷ []) ≡ message 2 ∷ message 3 ∷ []
unfolding kept
kept_test = refl

new_mailbox-kept_example :
    (push_each quiet
      (new_mailbox "image" descriptor newest)
      (message 1 ∷ message 2 ∷ message 3 ∷ [])).messages
    ≡ kept newest (message 1 ∷ message 2 ∷ message 3 ∷ [])
new_mailbox-kept_example =
    new_mailbox-kept quiet "image" descriptor newest (message 1 ∷ message 2 ∷ message 3 ∷ []) refl
      (omega arith)

pushes_test :
    push quiet (mailbox waiting []) (message 1)
    ≡ pushed (mailbox waiting (message 1 ∷ [])) ok_status
unfolding push uses_unbounded_queue queue_capacity
pushes_test = refl

reads_test :
    read false (pos 0) false (mailbox waiting (message 1 ∷ []))
    ≡ did_read (mailbox waiting []) (value (message 1))
unfolding read
reads_test = refl

run : Run quiet (mailbox waiting []) (message 1 ∷ []) (message 1 ∷ []) (mailbox waiting [])
run = reads false (pos 0) false (pushes (message 1) ok_status begins pushes_test) reads_test

Run-Sublist_example : Sublist ((message 1 ∷ []) ++ []) (message 1 ∷ [])
Run-Sublist_example =
    Run-Sublist quiet (mailbox waiting []) refl (message 1 ∷ []) (message 1 ∷ [])
      (mailbox waiting []) run

lossless_test : is_lossless waiting ≡ true
unfolding is_lossless uses_unbounded_queue
lossless_test = refl

Run-lossless_example : (message 1 ∷ []) ++ [] ≡ message 1 ∷ []
Run-lossless_example =
    Run-lossless quiet (mailbox waiting []) refl lossless_test (message 1 ∷ []) (message 1 ∷ [])
      (mailbox waiting []) run refl

bounded_test : uses_unbounded_queue newest ≡ false
unfolding uses_unbounded_queue
bounded_test = refl

capacity_test : queue_capacity newest ≡ 2
unfolding queue_capacity
capacity_test = refl

abbrev full : Mailbox
full = mailbox newest (message 1 ∷ message 2 ∷ [])

push-Bounded_example : OnPushed (Fits (queue_capacity newest) newest) (push quiet full (message 3))
push-Bounded_example =
    push-Bounded quiet full (message 3) bounded_test (omega (arith, capacity_test))
      (omega (arith, capacity_test))

abbrev channel : TopicChannel
channel = record (new_channel "image" descriptor reader_owned) {
  readers = (record { reader = 7; mailbox = some full }) ∷ [];
  next_sequence = 3;
  had_reader = true;
}

-- A topic of one reader, with two publications that have begun and pushed nothing yet.
abbrev joined : TopicChannel
joined = record (new_channel "image" descriptor reader_owned) {
  readers = (record { reader = 0; mailbox = some (mailbox newest []) }) ∷ [];
  had_reader = true;
}

abbrev sent : ℕ → List ℕ → Sending
sent n left = record {
  message = record {
    payload = 9 ∷ [];
    metadata = record { sequence = n; source_timestamp = 100; reception_timestamp = 100 };
  };
  held = 0 ∷ [];
  left = left;
  result = ok_status;
}

abbrev threads : ℕ → List Message → List Sending → TopicThreads
threads next_ ms sendings = record {
  channel = record joined {
    readers = (record { reader = 0; mailbox = some (mailbox newest ms) }) ∷ [];
    next_sequence = next_;
  };
  detached = [];
  sendings = sendings;
  got = [];
  joined = 1;
}

joins_test : Reached quiet "image" descriptor reader_owned (threads 1 [] [])
unfolding add_reader
joins_test = step opens (joins newest)

begins_test :
    Reached quiet "image" descriptor reader_owned
      (threads 3 [] (sent 1 (0 ∷ []) ∷ sent 2 (0 ∷ []) ∷ []))
unfolding publish gone live_readers numbers
begins_test =
    step (step joins_test (begins (some (9 ∷ [])) 0 100 (omega arith) refl))
      (begins (some (9 ∷ [])) 0 100 (omega arith) refl)

-- The second publication overtakes the first one.
overtakes_test :
    Reached quiet "image" descriptor reader_owned
      (threads 3 ((sent 2 []).message ∷ (sent 1 []).message ∷ []) (sent 1 [] ∷ sent 2 [] ∷ []))
unfolding push_next find_mailbox put_mailbox push push_queued uses_unbounded_queue queue_capacity
overtakes_test = step (step begins_test (pushes 1 refl refl)) (pushes 0 refl refl)

Reached-once_example :
    copies 0 2
      (threads 3 ((sent 2 []).message ∷ (sent 1 []).message ∷ []) (sent 1 [] ∷ sent 2 [] ∷ []))
    ≤ one_if (ltb 2 3)
Reached-once_example = Reached-once quiet "image" descriptor reader_owned _ overtakes_test 0 2

abbrev endpoint : EndpointConfig
endpoint = record {
  topic = record {
    name = "image";
    transport = in_memory;
    message_policy = newest;
    lifetime = reader_owned;
  };
  message = descriptor;
}

abbrev opened : State
opened = record { channels = []; open_ = true; heap = [] }

valid_test : is_ok (validate_in_memory_endpoint endpoint) ≡ true
unfolding validate_in_memory_endpoint validate_endpoint validate_topic validate_name has_control
    validate_descriptor
valid_test = refl

abbrev with_reader : State
with_reader = record {
  channels = ("image", 0) ∷ [];
  open_ = true;
  heap =
      (record {
        channel = record (new_channel "image" descriptor reader_owned) {
          readers = (record { reader = 7; mailbox = some (mailbox newest []) }) ∷ [];
          had_reader = true;
        };
        owners = 1;
        detached = [];
      })
      ∷ [];
}

creates_test : create_reader 7 endpoint opened ≡ (value 0, with_reader)
unfolding create_reader validate_in_memory_endpoint validate_endpoint validate_topic validate_name
    has_control validate_descriptor lookup add_reader emplace
creates_test = refl

reader-create_writer_example : (create_writer endpoint with_reader).0 ≡ value 0
reader-create_writer_example =
    reader-create_writer 7 endpoint opened with_reader 0 valid_test creates_test
