-- ===== src/Transport/InMemory/Mailbox/History.antt =====
-- What a reader's queue holds after a number of messages: the part that its policy promises.
use puppet_master.Base.{
  ℕ, zero, suc, ◌-◌, ◌≤◌, ◌<◌, ◌≡◌, refl, ap, List, [], ◌∷◌, ◌++◌, Bool, true, false, arith, length,
  length-append, Bool-cases, inl, inr, ltb, take, drop, if◌then◌else◌, String, subst,
}
use mathlib.Core.List.{append_assoc, append-nil}
use puppet_master.Core.Policy.{
  MessagePolicy, QueueOverflowPolicy, drop_oldest, block, latest, queued, keep_all, keep_last,
}
use puppet_master.Transport.Message.{Message, MessageDescriptor}
use puppet_master.Transport.InMemory.Mailbox.{
  Mailbox, Push, pushed, push_waits, push, push_queued, overflow, queue_capacity,
  uses_unbounded_queue, is_queued, new_mailbox, tail,
}

abbrev pub is_block : QueueOverflowPolicy → Bool
is_block block = true
is_block _ = false

-- Of all messages sent, those that the queue holds: the last one for the freshness `latest`; else
-- all for the retention `keep_all`; else the newest or the oldest ones, up to the depth.
unfoldable pub kept : MessagePolicy → List Message → List Message
kept p ms = elim p.freshness [
  | latest ↦ drop (length ms - 1) ms
  | queued ↦ elim p.retention [
    | keep_all ↦ ms
    | keep_last ↦ elim p.overflow [
      | drop_oldest ↦ drop (length ms - p.queue_depth) ms
      | _ ↦ take p.queue_depth ms
    ]
  ]
]

-- The mailbox after each of the messages is pushed with no read between.
unfoldable pub push_each : (ℕ → Bool) → Mailbox → List Message → Mailbox
push_each throws mb [] = mb
push_each throws mb (m ∷ ms) = elim (push throws mb m) [
  | push_waits ↦ mb
  | pushed mb' status ↦ push_each throws mb' ms
]

drop_last : (hs : List Message) (ys : List Message) → drop (length hs) (hs ++ ys) ≡ ys
drop_last [] ys = refl
drop_last (h ∷ hs) ys = drop_last hs ys

drop_none : (k : ℕ) → drop {A = Message} k [] ≡ []
drop_none zero = refl
drop_none (suc k) = refl

take_none : (k : ℕ) → take {A = Message} k [] ≡ []
take_none zero = refl
take_none (suc k) = refl

drop-suc : (k : ℕ) (hs : List Message) → drop (suc k) hs ≡ tail (drop k hs)
drop-suc zero [] = refl
drop-suc zero (h ∷ hs) = refl
drop-suc (suc k) [] = refl
drop-suc (suc k) (h ∷ hs) = drop-suc k hs

drop-append : (k : ℕ) (hs ys : List Message) → k ≤ length hs → drop k (hs ++ ys) ≡ drop k hs ++ ys
drop-append zero hs ys h = refl
drop-append (suc k) [] ys h = absurd (omega arith)
drop-append (suc k) (x ∷ hs) ys h = drop-append k hs ys (omega arith)

length-drop : (k : ℕ) (hs : List Message) → length (drop k hs) ≡ length hs - k
length-drop zero hs = ground arith
length-drop (suc k) [] = ground arith
length-drop (suc k) (h ∷ hs) = ground (arith, length-drop k hs)

length-take : (k : ℕ) (hs : List Message) → k ≤ length hs → length (take k hs) ≡ k
length-take zero hs h = refl
length-take (suc k) [] h = absurd (omega arith)
length-take (suc k) (x ∷ hs) h = ap suc (length-take k hs (omega arith))

take_all : (k : ℕ) (hs : List Message) → length hs ≤ k → take k hs ≡ hs
take_all zero [] h = refl
take_all zero (x ∷ hs) h = absurd (omega arith)
take_all (suc k) [] h = refl
take_all (suc k) (x ∷ hs) h = ap (λ t. x ∷ t) (take_all k hs (omega arith))

take-append : (k : ℕ) (hs ys : List Message) → k ≤ length hs → take k (hs ++ ys) ≡ take k hs
take-append zero hs ys h = refl
take-append (suc k) [] ys h = absurd (omega arith)
take-append (suc k) (x ∷ hs) ys h = ap (λ t. x ∷ t) (take-append k hs ys (omega arith))

-- A queue that drops its oldest message holds the newest ones.
newest_step :
    (d : ℕ) (hs : List Message) (m : Message)
    → 0 < d
    → drop (length (hs ++ m ∷ []) - d) (hs ++ m ∷ []) ≡ (
        if ltb (length (drop (length hs - d) hs)) d
        then drop (length hs - d) hs ++ m ∷ []
        else tail (drop (length hs - d) hs) ++ m ∷ [])
newest_step d hs m some_ = elim (Bool-cases (ltb (length hs) d)) [
  | inl small ↦ ground (arith, length-append hs (m ∷ []), length-drop (length hs - d) hs)
  | inr full ↦
      let e : length (hs ++ m ∷ []) - d ≡ suc (length hs - d) =
        ground (arith, length-append hs (m ∷ [])) in
      rw e (
        ground (
          arith,
          length-drop (length hs - d) hs,
          drop-append (suc (length hs - d)) hs (m ∷ []),
          drop-suc (length hs - d) hs,
        ))
]

-- A queue that refuses what it has no room for holds the oldest ones.
oldest_step :
    (d : ℕ) (hs : List Message) (m : Message)
    → take d (hs ++ m ∷ [])
      ≡ (if ltb (length (take d hs)) d then take d hs ++ m ∷ [] else take d hs)
oldest_step d hs m = elim (Bool-cases (ltb (length hs) d)) [
  | inl small ↦ ground (arith, take_all d hs, take_all d (hs ++ m ∷ []), length-append hs (m ∷ []))
  | inr full ↦ ground (arith, length-take d hs, take-append d hs (m ∷ []))
]

-- The mailbox is open, has the policy, and holds what is kept of the messages sent.
pub record Holds (p : MessagePolicy) (sent : List Message) (mb : Mailbox) : Type 0 where
  pub policy : mb.policy ≡ p
  pub open_ : mb.closed ≡ false
  pub messages : mb.messages ≡ kept p sent

-- The push returns, with a mailbox of which `P` holds.
abbrev Returns : (Mailbox → Type 0) → Push → Type 0
Returns P (pushed mb status) = P mb
Returns P push_waits = false ≡ true

push_queued-Holds :
    (p : MessagePolicy) (sent : List Message) (mb : Mailbox) (m : Message)
    → is_queued p.freshness ≡ true
    → is_block p.overflow ≡ false
    → 0 < p.queue_depth
    → Holds p sent mb
    → Returns (Holds p (sent ++ m ∷ [])) (push_queued mb m)
unfolding push_queued overflow kept queue_capacity uses_unbounded_queue
push_queued-Holds p sent mb m queues no_block some_ h = ground (
  arith,
  h.policy,
  h.open_,
  h.messages,
  newest_step p.queue_depth sent m,
  oldest_step p.queue_depth sent m,
)

push-Holds :
    (throws : ℕ → Bool) (p : MessagePolicy) (sent : List Message) (mb : Mailbox) (m : Message)
    → is_block p.overflow ≡ false
    → 0 < p.queue_depth
    → Holds p sent mb
    → Returns (Holds p (sent ++ m ∷ [])) (push throws mb m)
unfolding push kept uses_unbounded_queue
push-Holds throws p sent mb m no_block some_ h = ground (
  arith,
  h.policy,
  h.open_,
  h.messages,
  push_queued-Holds p sent mb m,
  drop_last sent (m ∷ []),
  length-append sent (m ∷ []),
)

-- What follows a push that returns.
then_each :
    (throws : ℕ → Bool) (P Q : Mailbox → Type 0) (mb : Mailbox) (ms : List Message) (r : Push)
    → Returns P r
    → ((mb' : Mailbox) → P mb' → Q (push_each throws mb' ms))
    → Q (elim r [ push_waits ↦ mb | pushed mb' status ↦ push_each throws mb' ms ])
then_each throws P Q mb ms (pushed mb' status) h k = k mb' h
then_each throws P Q mb ms push_waits h k = absurd (ground arith)

-- After any messages, in a mailbox that was new and has a policy that does not block, the queue
-- holds exactly what the policy keeps of them.
push_each-kept :
    (throws : ℕ → Bool) (p : MessagePolicy) (sent ms : List Message) (mb : Mailbox)
    → is_block p.overflow ≡ false
    → 0 < p.queue_depth
    → Holds p sent mb
    → Holds p (sent ++ ms) (push_each throws mb ms)
unfolding push_each
push_each-kept throws p sent [] mb no_block some_ h = rw append-nil h
push_each-kept throws p sent (m ∷ ms) mb no_block some_ h =
    then_each throws (Holds p (sent ++ m ∷ [])) (Holds p (sent ++ m ∷ ms)) mb ms (push throws mb m)
      (push-Holds throws p sent mb m no_block some_ h)
      (λ mb' h'.
        subst (λ all_. Holds p all_ (push_each throws mb' ms)) (append_assoc sent (m ∷ []) ms)
          (push_each-kept throws p (sent ++ m ∷ []) ms mb' no_block some_ h'))

-- In a new mailbox whose policy does not block and has a depth above zero, the queue holds, after
-- any messages with no read between, exactly those that the policy promises to keep: the last one for
-- the freshness `latest`; else all of them for the retention `keep_all`; else the newest ones up to the
-- depth, or the oldest ones where the overflow policy is not to drop the oldest.
pub new_mailbox-kept :
    (throws : ℕ → Bool) (topic : String) (d : MessageDescriptor) (p : MessagePolicy)
    (ms : List Message)
    → is_block p.overflow ≡ false
    → 0 < p.queue_depth
    → (push_each throws (new_mailbox topic d p) ms).messages ≡ kept p ms
unfolding kept
new_mailbox-kept throws topic d p ms no_block some_ =
    (push_each-kept throws p [] ms (new_mailbox topic d p) no_block some_ (record {
      policy = refl;
      open_ = refl;
      messages =
          ground (arith, take_none p.queue_depth, drop_none (0 - 1), drop_none (0 - p.queue_depth));
    })).messages
