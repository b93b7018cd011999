-- ===== src/Transport/InMemory/Channel/Copies.antt =====
-- How many copies of a message there are for a reader of a topic, whatever its threads do.
use puppet_master.Base.{
  ℕ, ◌+◌, ◌≤◌, ◌≡◌, refl, List, [], ◌∷◌, Bool, Option, none, some, ◌==◌, if◌then◌else◌, arith,
  total, total-append, one_if, inl, inr, ap, not, if_both, ◌%◌, ◌^◌,
}
use puppet_master.Core.Status.{Status, is_ok}
use puppet_master.Transport.Message.{Message}
use puppet_master.Transport.InMemory.Mailbox.{
  Mailbox, Push, pushed, push_waits, push, tail, closed_error,
}
use puppet_master.Transport.InMemory.Mailbox.Bounds.{OnPushed}
use puppet_master.Transport.InMemory.Mailbox.Delivery.{Effect, push-Effect}
use puppet_master.Transport.InMemory.Channel.{
  Slot, TopicChannel, Sending, publish, sending, refused, push_next, find_mailbox, put_mailbox,
  numbers, live_readers, pushed_one, gone, validate_view, Publication,
}
use puppet_master.Transport.InMemory.Channel.Threads.{TopicThreads}

abbrev pub numbered : ℕ → List Message → ℕ
numbered n ms = total (λ m. one_if (m.metadata.sequence == n)) ms

abbrev pub queued : Option Mailbox → ℕ → ℕ
queued none n = 0
queued (some mb) n = numbered n mb.messages

-- The copies of message `n` for reader `r`: in the mailbox of a slot, still to be pushed, and read.
module _ (r n : ℕ) where
  abbrev pub in_slot : Slot → ℕ
  in_slot s = if s.reader == r then queued s.mailbox n else 0

  abbrev pub to_push : Sending → ℕ
  to_push f = if f.message.metadata.sequence == n then total (λ id. one_if (id == r)) f.left else 0

  abbrev pub was_read : ℕ × Message → ℕ
  was_read e = if e.0 == r then one_if (e.1.metadata.sequence == n) else 0

  abbrev pub copies : TopicThreads → ℕ
  copies t =
      total in_slot t.channel.readers
      + total in_slot t.detached
      + total to_push t.sendings
      + total was_read t.got

abbrev pub is_slot_of : ℕ → Slot → ℕ
is_slot_of r s = one_if (s.reader == r)

live_readers-total : (w : Slot → ℕ) (ss : List Slot) → total w (live_readers ss) ≤ total w ss
unfolding live_readers
live_readers-total w [] = omega arith
live_readers-total w (s ∷ ss) = ground (arith, live_readers-total w ss)

numbers-total :
    (r : ℕ) (ss : List Slot) → total (λ id. one_if (id == r)) (numbers ss) ≡ total (is_slot_of r) ss
unfolding numbers
numbers-total r [] = refl
numbers-total r (s ∷ ss) = ap (λ k. one_if (s.reader == r) + k) (numbers-total r ss)

tail-numbered : (n : ℕ) (ms : List Message) → numbered n (tail ms) ≤ numbered n ms
tail-numbered n [] = omega arith
tail-numbered n (m ∷ ms) = omega arith

-- A push adds one copy of its message at most.
Effect-numbered :
    (n : ℕ) (old new : List Message) (m : Message)
    → Effect old m new
    → numbered n new ≤ numbered n old + one_if (m.metadata.sequence == n)
Effect-numbered n old new m (inl same) = rw same (omega arith)
Effect-numbered n old new m (inr (inl added)) =
    rw (added, total-append (λ k. one_if (k.metadata.sequence == n)) old (m ∷ [])) (omega arith)
Effect-numbered n old new m (inr (inr (inl shifted))) =
    rw (shifted, total-append (λ k. one_if (k.metadata.sequence == n)) (tail old) (m ∷ []))
      (omega (arith, tail-numbered n old))
Effect-numbered n old new m (inr (inr (inr replaced))) = rw replaced (omega arith)

put_mailbox-copies :
    (r n k id : ℕ) (mb mb' : Mailbox) (ss : List Slot)
    → find_mailbox id ss ≡ some mb
    → numbered n mb'.messages ≤ numbered n mb.messages + k
    → total (in_slot r n) (put_mailbox id mb' ss)
      ≤ total (in_slot r n) ss + (if id == r then k else 0)
unfolding find_mailbox put_mailbox
put_mailbox-copies r n k id mb mb' [] there le = cc
put_mailbox-copies r n k id mb mb' (s ∷ ss) there le =
    ground (arith, put_mailbox-copies r n k id mb mb' ss)

put_mailbox-slots :
    (r id : ℕ) (mb : Mailbox) (ss : List Slot)
    → total (is_slot_of r) (put_mailbox id mb ss) ≡ total (is_slot_of r) ss
unfolding put_mailbox
put_mailbox-slots r id mb [] = refl
put_mailbox-slots r id mb (s ∷ ss) = ground (arith, put_mailbox-slots r id mb ss)

-- A change of the slots and of one publication that makes no copy and no slot.
pub record Moves (ss ss' : List Slot) (f f' : Sending) : Type 0 where
  pub copies :
      (r n : ℕ) → total (in_slot r n) ss' + to_push r n f' ≤ total (in_slot r n) ss + to_push r n f
  pub slots : (r : ℕ) → total (is_slot_of r) ss' ≡ total (is_slot_of r) ss

pushed_one-Moves :
    (f : Sending) (id : ℕ) (rest : List ℕ) (status : Status) (ss ss' : List Slot)
    → f.left ≡ id ∷ rest
    → ((r n : ℕ)
        → total (in_slot r n) ss'
          ≤ total (in_slot r n) ss
            + (if id == r then one_if (f.message.metadata.sequence == n) else 0))
    → ((r : ℕ) → total (is_slot_of r) ss' ≡ total (is_slot_of r) ss)
    → Moves ss ss' f (pushed_one rest status f)
pushed_one-Moves f id rest status ss ss' first_ le same = record {
  copies = λ r n.
      let split : total (λ i. one_if (i == r)) f.left
          ≡ one_if (id == r) + total (λ i. one_if (i == r)) rest =
        ap (total (λ i. one_if (i == r))) first_ in
      ground (arith, le r n, split);
  slots = same;
}

abbrev pub OnNext : List Slot → Sending → Option (List Slot × Sending) → Type 0
OnNext ss f none = Unit
OnNext ss f (some (ss', f')) = Moves ss ss' f f'

pub push_next-Moves :
    (throws : ℕ → Bool) (f : Sending) (ss : List Slot) → OnNext ss f (push_next throws f ss)
unfolding push_next
push_next-Moves throws f ss = by_left f.left refl
  where
    by_push :
        (id : ℕ) (rest : List ℕ) (mb : Mailbox) (r : Push)
        → f.left ≡ id ∷ rest
        → find_mailbox id ss ≡ some mb
        → OnPushed (λ mb'. Effect mb.messages f.message mb'.messages) r
        → OnNext ss f (elim r [
          | push_waits ↦ none
          | pushed mb' status ↦ some (put_mailbox id mb' ss, pushed_one rest status f)
        ])
    by_push id rest mb push_waits first_ there effect = tt
    by_push id rest mb (pushed mb' status) first_ there effect =
        pushed_one-Moves f id rest status ss (put_mailbox id mb' ss) first_
          (λ r n.
            put_mailbox-copies r n (one_if (f.message.metadata.sequence == n)) id mb mb' ss there
              (Effect-numbered n mb.messages mb'.messages f.message effect))
          (λ r. put_mailbox-slots r id mb' ss)

    by_mailbox :
        (id : ℕ) (rest : List ℕ) (found : Option Mailbox)
        → f.left ≡ id ∷ rest
        → find_mailbox id ss ≡ found
        → OnNext ss f (elim found [
          | none ↦ some (ss, pushed_one rest closed_error f)
          | some mb ↦ elim (push throws mb f.message) [
            | push_waits ↦ none
            | pushed mb' status ↦ some (put_mailbox id mb' ss, pushed_one rest status f)
          ]
        ])
    by_mailbox id rest none first_ there =
        pushed_one-Moves f id rest closed_error ss ss first_ (λ r n. omega arith) (λ r. refl)
    by_mailbox id rest (some mb) first_ there =
        by_push id rest mb (push throws mb f.message) first_ there (push-Effect throws mb f.message)

    by_left :
        (left : List ℕ)
        → f.left ≡ left
        → OnNext ss f (elim left [
          | [] ↦ none
          | id ∷ rest ↦ elim (find_mailbox id ss) [
            | none ↦ some (ss, pushed_one rest closed_error f)
            | some mb ↦ elim (push throws mb f.message) [
              | push_waits ↦ none
              | pushed mb' status ↦ some (put_mailbox id mb' ss, pushed_one rest status f)
            ]
          ]
        ])
    by_left [] first_ = tt
    by_left (id ∷ rest) first_ = by_mailbox id rest (find_mailbox id ss) first_ refl

-- A publication begins: it spends the channel's next number, and has one copy to push for each slot.
pub record Begun (c c' : TopicChannel) (f : Sending) : Type 0 where
  pub fewer : (w : Slot → ℕ) → total w c'.readers ≤ total w c.readers
  pub spent : c'.next_sequence ≡ (c.next_sequence + 1) % 2 ^ 64
  pub numbered_ : f.message.metadata.sequence ≡ c.next_sequence
  pub once : (r : ℕ) → total (λ id. one_if (id == r)) f.left ≤ total (is_slot_of r) c.readers

abbrev pub OnBegun : TopicChannel → Publication → Type 0
OnBegun c (refused status) = Unit
OnBegun c (sending c' f) = Begun c c' f

pub publish-Begun :
    (payload : Option (List ℕ)) (source now : ℕ) (c : TopicChannel)
    → OnBegun c (publish payload source now c)
unfolding publish
publish-Begun payload source now c =
    if_both (OnBegun c) (not (is_ok (validate_view payload))) _ _ tt (
      if_both (OnBegun c) c.closed _ _ tt (
        if_both (OnBegun c) (gone c) _ _ tt (record {
          fewer = λ w. live_readers-total w c.readers;
          spent = refl;
          numbered_ = refl;
          once = λ r. omega (
            arith,
            numbers-total r (live_readers c.readers),
            live_readers-total (is_slot_of r) c.readers,
          );
        })))
