-- ===== src/Transport/InMemory/Channel/Once.antt =====
-- No reader of a topic gets a message twice, whatever its threads do.
use puppet_master.Base.{
  ℕ, ◌+◌, ◌≤◌, ◌≡◌, refl, List, [], ◌∷◌, Bool, none, some, ltb, arith, total, total-append,
  total-set, total-erase_idx, one_if, inl, inr, Option-cases, get_elem?, ap, subst, set, String,
}
use puppet_master.Core.Result.{value}
use puppet_master.Base.Int.{ℤ}
use puppet_master.Core.Names.{TopicLifetime}
use puppet_master.Transport.Message.{Message, MessageDescriptor}
use puppet_master.Transport.InMemory.Mailbox.{Mailbox, new_mailbox, read, did_read}
use puppet_master.Transport.InMemory.Mailbox.Delivery.{read-front}
use puppet_master.Transport.InMemory.Channel
use puppet_master.Transport.InMemory.Channel.{
  Slot, TopicChannel, Sending, publish, sending, refused, push_next, close_slot, close_readers,
  add_reader,
}
use puppet_master.Transport.InMemory.Channel.Threads.{
  TopicThreads, TopicStep, joins, begins, pushes, returns, reads, reads_detached, destroys, expires,
  closes, Reached, opens, step,
}
use puppet_master.Transport.InMemory.Channel.Copies.{
  numbered, queued, in_slot, to_push, was_read, copies, is_slot_of, OnNext, push_next-Moves,
  OnBegun, publish-Begun,
}

-- For each reader there is one copy of each number spent at most, and none of the others; and there is
-- one slot at most.
pub record Inv (t : TopicThreads) : Type 0 where
  pub once : (r n : ℕ) → copies r n t ≤ one_if (ltb n t.channel.next_sequence)
  pub slots : (r : ℕ) → total (is_slot_of r) t.channel.readers ≤ one_if (ltb r t.joined)

-- A read takes one copy from the queue.
read-numbered :
    (r n : ℕ) (s : Slot) (mb mb' : Mailbox) (m : Message) (wait : Bool) (timeout : ℤ)
    (expired : Bool)
    → s.mailbox ≡ some mb
    → read wait timeout expired mb ≡ did_read mb' (value m)
    → in_slot r n (record s { mailbox = some mb' }) + was_read r n (s.reader, m) ≡ in_slot r n s
read-numbered r n s mb mb' m wait timeout expired there h =
    let front = ap (numbered n) (read-front wait timeout expired mb mb' m h).0 in
    let whole_ : queued s.mailbox n ≡ numbered n mb.messages = ap (λ b. queued b n) there in
    ground (arith, front, whole_)

close_slot-copies : (r n : ℕ) (s : Slot) → in_slot r n (close_slot s) ≡ in_slot r n s
close_slot-copies r n s = elim (Option-cases s.mailbox) [
  | inl none_ ↦ rw none_ refl
  | inr (mb, there) ↦ rw there refl
]

close_readers-copies :
    (r n : ℕ) (ss : List Slot) → total (in_slot r n) (close_readers ss) ≡ total (in_slot r n) ss
unfolding close_readers
close_readers-copies r n [] = refl
close_readers-copies r n (s ∷ ss) =
    omega (arith, close_readers-copies r n ss, close_slot-copies r n s)

-- The slots after one of them changed.
one_slot :
    (w : Slot → ℕ) (ss : List Slot) (i : ℕ) (s s' : Slot)
    → get_elem? ss i ≡ some s
    → w s' ≤ w s
    → total w (set ss i s') ≤ total w ss
one_slot w ss i s s' there le = omega (arith, total-set w ss i s s' there, le)

-- At most one slot is added.
add_reader-total :
    (w : Slot → ℕ) (id : ℕ) (mb : Mailbox) (c : TopicChannel)
    → ((add_reader id mb c).1.next_sequence ≡ c.next_sequence)
      × (total w (add_reader id mb c).1.readers
          ≤ total w c.readers + w (record { reader = id; mailbox = some mb }))
unfolding add_reader
add_reader-total w id mb c =
    ground (arith, total-append w c.readers ((record { reader = id; mailbox = some mb }) ∷ []))

TopicStep-Inv : (throws : ℕ → Bool) {t t' : TopicThreads} → TopicStep throws t t' → Inv t → Inv t'
unfolding Channel.close
TopicStep-Inv throws {t = t} (joins policy) h =
    let mb = new_mailbox t.channel.topic t.channel.descriptor policy in
    record {
      once = λ r n.
          let (same, added) = add_reader-total (in_slot r n) t.joined mb t.channel in
          ground (arith, h.once r n, same, added);
      slots = λ r.
          let (same, added) = add_reader-total (is_slot_of r) t.joined mb t.channel in
          ground (arith, h.slots r, same, added);
    }
TopicStep-Inv throws {t = t} (begins {c = c} {f = f} payload source now room e) h =
    let b = subst (OnBegun t.channel) e (publish-Begun payload source now t.channel) in
    record {
      once = λ r n. ground (
        arith,
        room,
        b.spent,
        b.numbered_,
        b.fewer (in_slot r n),
        b.once r,
        h.once r n,
        h.slots r,
        total-append (to_push r n) t.sendings (f ∷ []),
      );
      slots = λ r. omega (arith, b.fewer (is_slot_of r), h.slots r);
    }
TopicStep-Inv throws {t = t} (pushes {f = f} {f' = f'} {ss = ss} i there e) h =
    let moves = subst (OnNext t.channel.readers f) e (push_next-Moves throws f t.channel.readers) in
    record {
      once = λ r n.
          omega
            (arith, h.once r n, moves.copies r n, total-set (to_push r n) t.sendings i f f' there);
      slots = λ r. omega (arith, h.slots r, moves.slots r);
    }
TopicStep-Inv throws {t = t} (returns {f = f} i there done_) h = record {
  once = λ r n. omega (arith, h.once r n, total-erase_idx (to_push r n) t.sendings i f there);
  slots = h.slots;
}
TopicStep-Inv throws {t = t}
      (reads {s = s} {mb = mb} {mb' = mb'} {m = m} i wait timeout expired there has e) h =
    let s' = record s { mailbox = some mb' } in
    record {
      once = λ r n. omega (
        arith,
        h.once r n,
        total-set (in_slot r n) t.channel.readers i s s' there,
        read-numbered r n s mb mb' m wait timeout expired has e,
      );
      slots =
          λ r. omega (arith, h.slots r, total-set (is_slot_of r) t.channel.readers i s s' there);
    }
TopicStep-Inv throws {t = t}
      (reads_detached {s = s} {mb = mb} {mb' = mb'} {m = m} i wait timeout expired there has e) h =
    let s' = record s { mailbox = some mb' } in
    record {
      once = λ r n. omega (
        arith,
        h.once r n,
        total-set (in_slot r n) t.detached i s s' there,
        read-numbered r n s mb mb' m wait timeout expired has e,
      );
      slots = h.slots;
    }
TopicStep-Inv throws {t = t} (destroys {s = s} i there) h = record {
  once = λ r n. omega (
    arith,
    h.once r n,
    one_slot (in_slot r n) t.channel.readers i s (close_slot s) there
        (omega (arith, close_slot-copies r n s)),
  );
  slots = λ r.
      omega (arith, h.slots r, total-set (is_slot_of r) t.channel.readers i s (close_slot s) there);
}
TopicStep-Inv throws {t = t} (expires {s = s} i there alone) h =
    let s' = record s { mailbox = none } in
    record {
      once = λ r n.
          omega (
            arith,
            h.once r n,
            one_slot (in_slot r n) t.channel.readers i s s' there (ground arith),
          );
      slots =
          λ r. omega (arith, h.slots r, total-set (is_slot_of r) t.channel.readers i s s' there);
    }
TopicStep-Inv throws {t = t} closes h = record {
  once = λ r n. omega (
    arith,
    h.once r n,
    close_readers-copies r n t.channel.readers,
    total-append (in_slot r n) (close_readers t.channel.readers) t.detached,
  );
  slots = λ r. omega arith;
}

-- Whatever the threads of a topic do, in any order: for each reader and each sequence number there is at
-- most one copy among the messages that the reader has read, those queued for it, and those that
-- publications still have to push to it, and none of a number that the topic has not given out, as long
-- as the counter of the numbers does not wrap.
pub Reached-once :
    (throws : ℕ → Bool) (topic : String) (descriptor : MessageDescriptor) (lifetime : TopicLifetime)
    (t : TopicThreads)
    → Reached throws topic descriptor lifetime t
    → (r n : ℕ) → copies r n t ≤ one_if (ltb n t.channel.next_sequence)
Reached-once throws topic descriptor lifetime t run = (inv run).once
  where
    inv : {t : TopicThreads} → Reached throws topic descriptor lifetime t → Inv t
    inv opens = record { once = λ r n. omega arith; slots = λ r. omega arith }
    inv (step run s) = TopicStep-Inv throws s (inv run)
