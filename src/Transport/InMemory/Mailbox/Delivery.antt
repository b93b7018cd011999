-- ===== src/Transport/InMemory/Mailbox/Delivery.antt =====
-- What a reader gets: messages in the order in which they were sent, none twice.
use mathlib.Core.List.{append_assoc}
use puppet_master.Base.{
  ℕ, ◌≡◌, refl, ap, subst, sym, ◌∙◌, List, [], ◌∷◌, ◌++◌, Bool, true, false, arith, inl, inr, ◌⊎◌,
  ◌||◌, ◌&&◌,
}
use puppet_master.Base.Int.{ℤ}
use puppet_master.Core.Status.{Status}
use puppet_master.Core.Result.{value}
use puppet_master.Core.Policy.{MessagePolicy}
use puppet_master.Transport.Message.{Message}
use puppet_master.Transport.InMemory.Mailbox.{
  Mailbox, pushed, push, push_queued, push_blocked, overflow, uses_unbounded_queue, is_queued, tail,
  did_read, read, close,
}
use puppet_master.Transport.InMemory.Mailbox.Bounds.{OnPushed}
use puppet_master.Transport.InMemory.Mailbox.History.{is_block}

-- The first list is the second with some elements left out.
pub data Sublist {ℓ} {A : Type ℓ} : List A → List A → Type ℓ where
  end : Sublist [] []
  keep : {x : A} {xs ys : List A} → Sublist xs ys → Sublist (x ∷ xs) (x ∷ ys)
  skip : {y : A} {xs ys : List A} → Sublist xs ys → Sublist xs (y ∷ ys)

module _ {ℓ} {A : Type ℓ} where
  Sublist-skip_last : {xs ys : List A} (y : A) → Sublist xs ys → Sublist xs (ys ++ y ∷ [])
  Sublist-skip_last y end = skip end
  Sublist-skip_last y (keep s) = keep (Sublist-skip_last y s)
  Sublist-skip_last y (skip s) = skip (Sublist-skip_last y s)

  Sublist-keep_last :
      {xs ys : List A} (y : A) → Sublist xs ys → Sublist (xs ++ y ∷ []) (ys ++ y ∷ [])
  Sublist-keep_last y end = keep end
  Sublist-keep_last y (keep s) = keep (Sublist-keep_last y s)
  Sublist-keep_last y (skip s) = skip (Sublist-keep_last y s)

  Sublist-none : (ys : List A) → Sublist [] ys
  Sublist-none [] = end
  Sublist-none (y ∷ ys) = skip (Sublist-none ys)

  Sublist-append_left : (xs ys : List A) → Sublist xs (xs ++ ys)
  Sublist-append_left [] ys = Sublist-none ys
  Sublist-append_left (x ∷ xs) ys = keep (Sublist-append_left xs ys)

  -- Leaving the elements of the middle out.
  Sublist-refl : (xs : List A) → Sublist xs xs
  Sublist-refl [] = end
  Sublist-refl (x ∷ xs) = keep (Sublist-refl xs)

  Sublist-drop_middle : (xs ms zs : List A) → Sublist (xs ++ zs) (xs ++ (ms ++ zs))
  Sublist-drop_middle [] [] zs = Sublist-refl zs
  Sublist-drop_middle [] (m ∷ ms) zs = skip (Sublist-drop_middle [] ms zs)
  Sublist-drop_middle (x ∷ xs) ms zs = keep (Sublist-drop_middle xs ms zs)

  Sublist-trans : {ys zs : List A} → Sublist ys zs → {xs : List A} → Sublist xs ys → Sublist xs zs
  Sublist-trans end s = s
  Sublist-trans (skip t) s = skip (Sublist-trans t s)
  Sublist-trans (keep t) (keep s) = keep (Sublist-trans t s)
  Sublist-trans (keep t) (skip s) = skip (Sublist-trans t s)

-- What a push can do to the queue.
abbrev pub Effect : List Message → Message → List Message → Type 0
Effect old m new = (new ≡ old) ⊎ (new ≡ old ++ m ∷ []) ⊎ (new ≡ tail old ++ m ∷ []) ⊎ (new ≡ m ∷ [])

pub push-Effect :
    (throws : ℕ → Bool) (mb : Mailbox) (m : Message)
    → OnPushed (λ mb'. Effect mb.messages m mb'.messages) (push throws mb m)
unfolding push push_queued overflow push_blocked
push-Effect throws mb m = ground arith

Effect-Sublist :
    (got sent old new : List Message) (m : Message)
    → Effect old m new
    → Sublist (got ++ old) sent
    → Sublist (got ++ new) (sent ++ m ∷ [])
Effect-Sublist got sent old new m (inl same) s = rw same (Sublist-skip_last m s)
Effect-Sublist got sent old new m (inr (inl added)) s =
    rw (added, sym (append_assoc got old (m ∷ []))) (Sublist-keep_last m s)
Effect-Sublist got sent [] new m (inr (inr (inl shifted))) s = rw shifted (
    subst (λ xs. Sublist xs (sent ++ m ∷ [])) (append_assoc got [] (m ∷ []))
      (Sublist-keep_last m s))
Effect-Sublist got sent (o ∷ old) new m (inr (inr (inl shifted))) s =
    rw (shifted, sym (append_assoc got old (m ∷ [])))
      (Sublist-keep_last m (Sublist-trans s (Sublist-drop_middle got (o ∷ []) old)))
Effect-Sublist got sent old new m (inr (inr (inr replaced))) s =
    rw replaced (Sublist-keep_last m (Sublist-trans s (Sublist-append_left got old)))

-- A mailbox after some operations: the messages sent to it, and those read from it.
pub data Run (throws : ℕ → Bool) (start : Mailbox)
    : List Message → List Message → Mailbox → Type 0 where
  begins : Run throws start [] [] start
  pushes :
      {sent got : List Message} {mb mb' : Mailbox} (m : Message) (status : Status)
      → Run throws start sent got mb
      → push throws mb m ≡ pushed mb' status
      → Run throws start (sent ++ m ∷ []) got mb'
  reads :
      {sent got : List Message} {mb mb' : Mailbox} {m : Message} (wait : Bool) (timeout : ℤ)
      (expired : Bool)
      → Run throws start sent got mb
      → read wait timeout expired mb ≡ did_read mb' (value m)
      → Run throws start sent (got ++ m ∷ []) mb'
  closes :
      {sent got : List Message} {mb : Mailbox}
      → Run throws start sent got mb
      → Run throws start sent got (close mb)

-- A read that gives a message takes the first one.
pub read-front :
    (wait : Bool) (timeout : ℤ) (expired : Bool) (mb mb' : Mailbox) (m : Message)
    → read wait timeout expired mb ≡ did_read mb' (value m)
    → (mb.messages ≡ m ∷ mb'.messages) × (mb'.closed ≡ mb.closed) × (mb'.policy ≡ mb.policy)
unfolding read
read-front wait timeout expired mb mb' m h = ground arith

-- In any run of a mailbox that was empty, what was read and then what is still queued are messages
-- of those sent, in their order, none more than once.
pub Run-Sublist :
    (throws : ℕ → Bool) (start : Mailbox)
    → start.messages ≡ []
    → (sent got : List Message) (mb : Mailbox) → Run throws start sent got mb
    → Sublist (got ++ mb.messages) sent
Run-Sublist throws start empty sent got mb begins = rw empty end
Run-Sublist throws start empty sent got mb' (pushes {sent = sent'} {mb = mb} m status r h) =
    Effect-Sublist got sent' mb.messages mb'.messages m
      (subst (OnPushed (λ new. Effect mb.messages m new.messages)) h (push-Effect throws mb m))
      (Run-Sublist throws start empty sent' got mb r)
Run-Sublist throws start empty sent got mb'
      (reads {got = got'} {mb = mb} {m = m} wait timeout expired r h) =
    let s = Run-Sublist throws start empty sent got' mb r in
    rw append_assoc (rw ((read-front wait timeout expired mb mb' m h).0) at s)
Run-Sublist throws start empty sent got mb' (closes {mb = mb} r) =
    Run-Sublist throws start empty sent got mb r

-- Policies that lose nothing: a queue without bound, and one whose writers wait.
unfoldable pub is_lossless : MessagePolicy → Bool
is_lossless p = is_queued p.freshness && (uses_unbounded_queue p || is_block p.overflow)

push-same :
    (throws : ℕ → Bool) (mb : Mailbox) (m : Message)
    → OnPushed (λ new. (new.policy ≡ mb.policy) × (new.closed ≡ mb.closed)) (push throws mb m)
unfolding push push_queued overflow push_blocked
push-same throws mb m = ground arith

push-appended :
    (throws : ℕ → Bool) (mb : Mailbox) (m : Message)
    → is_lossless mb.policy ≡ true
    → mb.closed ≡ false
    → OnPushed (λ new. new.messages ≡ mb.messages ++ m ∷ []) (push throws mb m)
unfolding push push_queued overflow push_blocked is_lossless
push-appended throws mb m lossless open_ = ground arith

Run-policy :
    (throws : ℕ → Bool) (start : Mailbox) (sent got : List Message) (mb : Mailbox)
    → Run throws start sent got mb
    → mb.policy ≡ start.policy
Run-policy throws start sent got mb begins = refl
Run-policy throws start sent got mb' (pushes {sent = sent'} {mb = mb} m status r h) =
    (subst (OnPushed (λ new. (new.policy ≡ mb.policy) × (new.closed ≡ mb.closed))) h
      (push-same throws mb m)).0
    ∙ Run-policy throws start sent' got mb r
Run-policy throws start sent got mb'
      (reads {got = got'} {mb = mb} {m = m} wait timeout expired r h) =
    (read-front wait timeout expired mb mb' m h).2 ∙ Run-policy throws start sent got' mb r
Run-policy throws start sent got mb' (closes {mb = mb} r) = Run-policy throws start sent got mb r

-- A reader with a policy that loses nothing, in any run of a mailbox that was empty, has read or
-- will read exactly what was sent while its mailbox is open.
pub Run-lossless :
    (throws : ℕ → Bool) (start : Mailbox)
    → start.messages ≡ []
    → is_lossless start.policy ≡ true
    → (sent got : List Message) (mb : Mailbox) → Run throws start sent got mb
    → mb.closed ≡ false
    → got ++ mb.messages ≡ sent
Run-lossless throws start empty lossless sent got mb begins open_ = empty
Run-lossless throws start empty lossless sent got mb' (pushes {sent = sent'} {mb = mb} m status r h)
      open_ =
    let same =
      (subst (OnPushed (λ new. (new.policy ≡ mb.policy) × (new.closed ≡ mb.closed))) h
        (push-same throws mb m)).1 in
    let was_open = sym same ∙ open_ in
    let keeps : is_lossless mb.policy ≡ true =
      ap is_lossless (Run-policy throws start sent' got mb r) ∙ lossless in
    let e =
      subst (OnPushed (λ new. new.messages ≡ mb.messages ++ m ∷ [])) h
        (push-appended throws mb m keeps was_open) in
    ap (λ q. got ++ q) e
    ∙ sym (append_assoc got mb.messages (m ∷ []))
    ∙ ap (λ q. q ++ m ∷ []) (Run-lossless throws start empty lossless sent' got mb r was_open)
Run-lossless throws start empty lossless sent got mb'
      (reads {got = got'} {mb = mb} {m = m} wait timeout expired r h) open_ =
    let front = read-front wait timeout expired mb mb' m h in
    append_assoc got' (m ∷ []) mb'.messages
    ∙ ap (λ q. got' ++ q) (sym front.0)
    ∙ Run-lossless throws start empty lossless sent got' mb r (sym front.1 ∙ open_)
Run-lossless throws start empty lossless sent got mb' (closes {mb = mb} r) open_ =
    absurd (ground arith)
