-- ===== src/Transport/InMemory/Channel/Threads.antt =====
-- src/transport/inmemory/inmemory_transport.cpp, `TopicChannel`: the threads of one topic. The channel's
-- mutex is held up to the end of a publication's critical section; each push to a mailbox, each read
-- and each change of the readers is a step of its own, in any order.
use puppet_master.Base.{
  ℕ, ◌+◌, ◌^◌, ◌<◌, ◌≡◌, List, [], ◌∷◌, ◌++◌, Bool, false, Option, none, some, get_elem?, set,
  erase_idx, any, ◌==◌, String,
}
use puppet_master.Base.Int.{ℤ}
use puppet_master.Core.Result.{value}
use puppet_master.Core.Names.{TopicLifetime}
use puppet_master.Core.Policy.{MessagePolicy}
use puppet_master.Transport.Message.{Message, MessageDescriptor}
use puppet_master.Transport.InMemory.Mailbox.{Mailbox, new_mailbox, read, did_read}
use puppet_master.Transport.InMemory.Channel
use puppet_master.Transport.InMemory.Channel.{
  Slot, TopicChannel, new_channel, add_reader, Sending, publish, sending, push_next, close_slot,
}

-- The channel; the closed mailboxes that left it, which their readers may still read; the publications
-- that are pushing; what each reader has read, and how many readers there were.
pub record TopicThreads : Type 0 where
  pub channel : TopicChannel
  pub detached : List Slot
  pub sendings : List Sending
  pub got : List (ℕ × Message)
  pub joined : ℕ

-- A publication keeps the reader alive.
abbrev pub holds : ℕ → Sending → Bool
holds id f = any (λ r. r == id) f.held

module _ (throws : ℕ → Bool) where
  -- A step of one thread: a reader joins, a publication begins, pushes to one reader or returns, a reader
  -- reads from the channel's mailboxes or from those that left it, is destroyed, expires once no
  -- publication keeps it alive, or the channel is closed.
  pub data TopicStep (t : TopicThreads) : TopicThreads → Type 0 where
    joins :
        (policy : MessagePolicy)
        → TopicStep t (record t {
          channel =
              (add_reader t.joined
                (new_mailbox t.channel.topic t.channel.descriptor policy)
                t.channel).1;
          joined = t.joined + 1;
        })
    begins :
        {c : TopicChannel} {f : Sending} (payload : Option (List ℕ)) (source now : ℕ)
        → t.channel.next_sequence + 1 < 2 ^ 64
        → publish payload source now t.channel ≡ sending c f
        → TopicStep t (record t { channel = c; sendings = t.sendings ++ f ∷ [] })
    pushes :
        {f f' : Sending} {ss : List Slot} (i : ℕ)
        → get_elem? t.sendings i ≡ some f
        → push_next throws f t.channel.readers ≡ some (ss, f')
        → TopicStep t (record t {
          channel = record (t.channel) { readers = ss };
          sendings = set t.sendings i f';
        })
    returns :
        {f : Sending} (i : ℕ)
        → get_elem? t.sendings i ≡ some f
        → f.left ≡ []
        → TopicStep t (record t { sendings = erase_idx t.sendings i })
    reads :
        {s : Slot} {mb mb' : Mailbox} {m : Message} (i : ℕ) (wait : Bool) (timeout : ℤ)
        (expired : Bool)
        → get_elem? t.channel.readers i ≡ some s
        → s.mailbox ≡ some mb
        → read wait timeout expired mb ≡ did_read mb' (value m)
        → TopicStep t (record t {
          channel = record (t.channel) {
            readers = set t.channel.readers i (record s { mailbox = some mb' });
          };
          got = (s.reader, m) ∷ t.got;
        })
    reads_detached :
        {s : Slot} {mb mb' : Mailbox} {m : Message} (i : ℕ) (wait : Bool) (timeout : ℤ)
        (expired : Bool)
        → get_elem? t.detached i ≡ some s
        → s.mailbox ≡ some mb
        → read wait timeout expired mb ≡ did_read mb' (value m)
        → TopicStep t (record t {
          detached = set t.detached i (record s { mailbox = some mb' });
          got = (s.reader, m) ∷ t.got;
        })
    destroys :
        {s : Slot} (i : ℕ)
        → get_elem? t.channel.readers i ≡ some s
        → TopicStep t (record t {
          channel = record (t.channel) { readers = set t.channel.readers i (close_slot s) };
        })
    expires :
        {s : Slot} (i : ℕ)
        → get_elem? t.channel.readers i ≡ some s
        → any (holds s.reader) t.sendings ≡ false
        → TopicStep t (record t {
          channel = record (t.channel) {
            readers = set t.channel.readers i (record s { mailbox = none });
          };
        })
    closes : TopicStep t (record t {
      channel = (Channel.close t.channel).1;
      detached = (Channel.close t.channel).0 ++ t.detached;
    })

  -- The threads of a new topic, after any steps.
  pub data Reached (topic : String) (descriptor : MessageDescriptor) (lifetime : TopicLifetime)
      : TopicThreads → Type 0 where
    opens : Reached topic descriptor lifetime (record {
      channel = new_channel topic descriptor lifetime;
      detached = [];
      sendings = [];
      got = [];
      joined = 0;
    })
    step :
        {t t' : TopicThreads}
        → Reached topic descriptor lifetime t
        → TopicStep t t'
        → Reached topic descriptor lifetime t'
