-- ===== src/Transport/InMemory/Topics/Connection.antt =====
-- A reader and the writers that come after it.
use puppet_master.Base.{
  ℕ, ◌+◌, ◌≡◌, ap, subst, sym, ◌∙◌, List, [], ◌∷◌, ◌++◌, true, false, arith, ◌==◌, if◌then◌else◌,
  none, some, get_elem?, set, if_cases, get_elem?-set, all-snoc,
}
use puppet_master.Core.Status.{is_ok}
use puppet_master.Core.Result.{Result, value, failure, from_status}
use puppet_master.Transport.Message.{EndpointConfig}
use puppet_master.Transport.InMemory.Mailbox.{Mailbox, new_mailbox}
use puppet_master.Transport.InMemory.Channel.{TopicChannel, gone, expired, add_reader}
use puppet_master.Transport.InMemory.Topics.{
  Held, State, validate_in_memory_endpoint, get_or_create_channel, create_reader, create_writer,
  attach_reader, attach_writer, and_attach, hold, channel_at,
}
use puppet_master.Transport.InMemory.Topics.Sharing.{
  Found, Found-get_or_create_channel, OnGot, IsFound, get_or_create_channel-Found,
}

-- The channel of the topic is held, and has a reader if its readers own it.
abbrev pub IsLive : EndpointConfig → ℕ → State → Type 0
IsLive e address s =
    (h : Held) × Found e address s h × ((h.owners == 0) ≡ false) × (gone h.channel ≡ false)

joined : ℕ → Mailbox → TopicChannel → TopicChannel
joined id mb c = record c {
  readers = c.readers ++ (record { reader = id; mailbox = some mb }) ∷ [];
  had_reader = true;
}

joined-gone : (id : ℕ) (mb : Mailbox) (c : TopicChannel) → gone (joined id mb c) ≡ false
unfolding joined gone
joined-gone id mb c =
    ground (arith, all-snoc expired c.readers (record { reader = id; mailbox = some mb }))

add_reader-joined :
    (id : ℕ) (mb : Mailbox) (c : TopicChannel)
    → is_ok (add_reader id mb c).0 ≡ true
    → (add_reader id mb c).1 ≡ joined id mb c
unfolding add_reader joined
add_reader-joined id mb c added = ground arith

hold-set :
    (address : ℕ) (c : TopicChannel) (heap : List Held) (h : Held)
    → get_elem? heap address ≡ some h
    → hold address c heap ≡ set heap address (record h { channel = c; owners = h.owners + 1 })
hold-set address c heap h stored =
    ap
      (λ o. elim o [
        | none ↦ heap
        | some h ↦ set heap address (record h { channel = c; owners = h.owners + 1 })
      ])
      stored

joined-Live :
    (id : ℕ) (e : EndpointConfig) (address : ℕ) (s : State) (h : Held) (mb : Mailbox)
    → Found e address s h
    → IsLive e address (record s { heap = hold address (joined id mb h.channel) s.heap })
unfolding joined
joined-Live id e address s h mb f =
    let h' : Held = record h { channel = joined id mb h.channel; owners = h.owners + 1 } in
    (
      h',
      record {
        open_ = f.open_;
        known = f.known;
        stored =
            ap (λ heap. get_elem? heap address)
              (hold-set address (joined id mb h.channel) s.heap h f.stored)
            ∙ get_elem?-set s.heap address h' f.stored;
        lifetime = f.lifetime;
        descriptor = f.descriptor;
      },
      ground arith,
      joined-gone id mb h.channel,
    )

attach_reader-Live :
    (id : ℕ) (e : EndpointConfig) (address : ℕ) (s : State)
    → IsFound e address s
    → OnGot (IsLive e) (attach_reader id e address s)
unfolding attach_reader
attach_reader-Live id e address s (h, f) =
    let mb = new_mailbox e.topic.name e.message e.topic.message_policy in
    let at : channel_at address s.heap ≡ some h.channel =
      ap (λ o. elim o [ none ↦ none | some h ↦ some h.channel ]) f.stored in
    let body : TopicChannel → Result ℕ × State = λ c.
      let added = add_reader id mb c in
      if is_ok added.0
      then (value address, record s { heap = hold address added.1 s.heap })
      else (from_status added.0, s) in
    subst (λ o. OnGot (IsLive e) (elim o [ none ↦ (value address, s) | some c ↦ body c ])) (sym at)
      (if_cases (OnGot (IsLive e)) (is_ok (add_reader id mb h.channel).0) _ _
        (λ added.
          subst (λ c. IsLive e address (record s { heap = hold address c s.heap }))
            (sym (add_reader-joined id mb h.channel added)) (joined-Live id e address s h mb f))
        (λ refused. tt))

and_attach-Got :
    (P Q : ℕ → State → Type 0) (attach : ℕ → State → Result ℕ × State) (r : Result ℕ × State)
    → OnGot P r
    → ((address : ℕ) (s : State) → P address s → OnGot Q (attach address s))
    → OnGot Q (and_attach attach r)
and_attach-Got P Q attach (failure status, s) h k = tt
and_attach-Got P Q attach (value address, s) h k = k address s h

create_reader-Live :
    (id : ℕ) (e : EndpointConfig) (s : State) → OnGot (IsLive e) (create_reader id e s)
unfolding create_reader
create_reader-Live id e s =
    and_attach-Got (IsFound e) (IsLive e) (attach_reader id e) (get_or_create_channel e false s)
      (get_or_create_channel-Found e false s) (attach_reader-Live id e)

attach_writer-address : (address : ℕ) (s : State) → (attach_writer address s).0 ≡ value address
unfolding attach_writer
attach_writer-address address s = ground arith

and_attach-address :
    (r : Result ℕ × State) (address : ℕ)
    → r.0 ≡ value address
    → (and_attach attach_writer r).0 ≡ value address
and_attach-address (failure status, s) address h = ground arith
and_attach-address (value a, s) address h = attach_writer-address a s ∙ h

-- When a reader was created for a valid endpoint, a writer created next for the same endpoint is
-- attached to the reader's channel.
pub reader-create_writer :
    (id : ℕ) (e : EndpointConfig) (s s' : State) (address : ℕ)
    → is_ok (validate_in_memory_endpoint e) ≡ true
    → create_reader id e s ≡ (value address, s')
    → (create_writer e s').0 ≡ value address
unfolding create_writer
reader-create_writer id e s s' address valid made =
    let (h, f, held, live) = subst (OnGot (IsLive e)) made (create_reader-Live id e s) in
    and_attach-address (get_or_create_channel e true s') address
      (Found-get_or_create_channel e true address s' h valid f held live)
