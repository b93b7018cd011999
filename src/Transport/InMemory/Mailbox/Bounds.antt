-- ===== src/Transport/InMemory/Mailbox/Bounds.antt =====
-- The bound on a reader's queue.
use puppet_master.Base.{
  ℕ, ◌≤◌, ◌<◌, ◌≡◌, List, [], ◌∷◌, ◌++◌, Bool, false, arith, length, length-append,
}
use puppet_master.Core.Policy.{MessagePolicy}
use puppet_master.Transport.Message.{Message}
use puppet_master.Transport.InMemory.Mailbox.{
  Mailbox, Push, pushed, push_waits, push, push_queued, push_blocked, overflow, queue_capacity,
  uses_unbounded_queue, tail,
}

-- What holds of the mailbox after a push that returns.
abbrev pub OnPushed {ℓ} : (Mailbox → Type ℓ) → Push → Type ℓ
OnPushed P (pushed mb status) = P mb
OnPushed P push_waits = Unit

abbrev pub Fits : ℕ → MessagePolicy → Mailbox → Type 0
Fits n p mb = (length mb.messages ≤ n) × (mb.policy ≡ p)

length-tail :
    (m : Message) (ms : List Message) → 0 < length ms → length (tail ms ++ m ∷ []) ≡ length ms
length-tail m [] h = ground arith
length-tail m (n ∷ ms) h = ground (arith, length-append ms (m ∷ []))

push_blocked-Fits :
    (mb : Mailbox) (m : Message)
    → length mb.messages ≤ queue_capacity mb.policy
    → OnPushed (Fits (queue_capacity mb.policy) mb.policy) (push_blocked mb m)
unfolding push_blocked
push_blocked-Fits mb m h = ground (arith, length-append mb.messages (m ∷ []))

push_queued-Fits :
    (mb : Mailbox) (m : Message)
    → uses_unbounded_queue mb.policy ≡ false
    → 0 < queue_capacity mb.policy
    → length mb.messages ≤ queue_capacity mb.policy
    → OnPushed (Fits (queue_capacity mb.policy) mb.policy) (push_queued mb m)
unfolding push_queued overflow
push_queued-Fits mb m bounded some_ h =
    ground
      (arith, length-append mb.messages (m ∷ []), length-tail m mb.messages, push_blocked-Fits mb m)

-- A push keeps a bounded queue within its capacity, which for the latest message is one.
pub push-Bounded :
    (throws : ℕ → Bool) (mb : Mailbox) (m : Message)
    → uses_unbounded_queue mb.policy ≡ false
    → 0 < queue_capacity mb.policy
    → length mb.messages ≤ queue_capacity mb.policy
    → OnPushed (Fits (queue_capacity mb.policy) mb.policy) (push throws mb m)
unfolding push
push-Bounded throws mb m bounded some_ h = ground (arith, push_queued-Fits mb m)
