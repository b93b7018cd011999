-- ===== src/Transport/InMemory/Topics/Sharing.antt =====
-- Endpoints of one topic share its channel.
use text.Mathlib.TextEquality.{eq_iff}
use text.Mathlib.TextPositions.{eq_refl}
use puppet_master.Base.{
  ℕ, ◌≡◌, refl, String, List, [], ◌∷◌, Bool, true, false, not, arith, ◌==◌, ◌&&◌, none, some,
  lookup, length, get_elem?, Bool-cases, Option-cases, if_both, if_cases, option_cases, inl, inr,
  get_elem?-length, lookup-emplace,
}
use puppet_master.Core.Status.{is_ok}
use puppet_master.Core.Result.{Result, value, failure}
use puppet_master.Core.Names.{reader_owned, TopicLifetime, shared}
use puppet_master.Transport.Message.{EndpointConfig, MessageDescriptor, descriptor_eq}
use puppet_master.Transport.InMemory.Channel.{TopicChannel, gone, lifetime_eq, new_channel}
use puppet_master.Transport.InMemory.Topics.{
  Held, State, lock, sweep, erase_key, validate_in_memory_endpoint, create_channel, join_channel,
  get_or_create_channel,
}

-- The transport has a channel at the address for the topic of the endpoint, which agrees with it.
pub record Found (e : EndpointConfig) (address : ℕ) (s : State) (h : Held) : Type 0 where
  pub open_ : s.open_ ≡ true
  pub known : lookup e.topic.name s.channels ≡ some address
  pub stored : get_elem? s.heap address ≡ some h
  pub lifetime : lifetime_eq h.channel.lifetime e.topic.lifetime ≡ true
  pub descriptor : descriptor_eq h.channel.descriptor e.message ≡ true

pub lock-sweep :
    (heap : List Held) (k : String) (address : ℕ) (c : TopicChannel) (cs : List (String × ℕ))
    → lookup k cs ≡ some address
    → lock address heap ≡ some c
    → lookup k (sweep heap cs) ≡ some address
unfolding lookup sweep
lock-sweep heap k address c [] h live = ground arith
lock-sweep heap k address c ((j, a) ∷ cs) h live =
    ground (arith, lock-sweep heap k address c cs, eq_iff j k)

pub lookup-erase_key : (k : String) (cs : List (String × ℕ)) → lookup k (erase_key k cs) ≡ none
unfolding lookup erase_key
lookup-erase_key k [] = refl
lookup-erase_key k ((j, a) ∷ cs) = ground (arith, lookup-erase_key k cs)

-- A valid endpoint of the topic joins the channel that somebody holds and that is not gone.
pub Found-get_or_create_channel :
    (e : EndpointConfig) (writer : Bool) (address : ℕ) (s : State) (h : Held)
    → is_ok (validate_in_memory_endpoint e) ≡ true
    → Found e address s h
    → (h.owners == 0) ≡ false
    → gone h.channel ≡ false
    → (get_or_create_channel e writer s).0 ≡ value address
unfolding get_or_create_channel join_channel lock
Found-get_or_create_channel e writer address s h valid f held live = ground (
  arith,
  f.open_,
  f.known,
  f.stored,
  f.lifetime,
  f.descriptor,
  lock-sweep s.heap e.topic.name address h.channel s.channels f.known (ground (arith, f.stored)),
)

-- What holds of the address and the state, if there is an address.
abbrev pub OnGot {ℓ} : (ℕ → State → Type ℓ) → Result ℕ × State → Type ℓ
OnGot P r = elim r.0 [ failure status ↦ Unit | value address ↦ P address r.1 ]

abbrev pub IsFound : EndpointConfig → ℕ → State → Type 0
IsFound e address s = (h : Held) × Found e address s h

pub lifetime_eq_refl : (l : TopicLifetime) → lifetime_eq l l ≡ true
lifetime_eq_refl shared = refl
lifetime_eq_refl reader_owned = refl

pub descriptor_eq_refl : (d : MessageDescriptor) → descriptor_eq d d ≡ true
descriptor_eq_refl d = ground (arith, eq_refl d.type_name, eq_refl d.encoding)

pub create_channel-Found :
    (e : EndpointConfig) (writer : Bool) (s : State)
    → s.open_ ≡ true
    → lookup e.topic.name s.channels ≡ none
    → OnGot (IsFound e) (create_channel e writer s)
unfolding create_channel
create_channel-Found e writer s open_ absent =
    let new : Held = record {
      channel = new_channel e.topic.name e.message e.topic.lifetime;
      owners = 0;
      detached = [];
    } in
    if_both (OnGot (IsFound e)) (writer && lifetime_eq e.topic.lifetime reader_owned) _ _ tt (
      new,
      record {
        open_ = open_;
        known = ground (
          arith,
          lookup-emplace e.topic.name e.topic.name (length s.heap) s.channels absent,
          eq_refl e.topic.name,
        );
        stored = get_elem?-length s.heap new;
        lifetime = lifetime_eq_refl e.topic.lifetime;
        descriptor = descriptor_eq_refl e.message;
      },
    )

pub lock-stored :
    (address : ℕ) (heap : List Held) (c : TopicChannel)
    → lock address heap ≡ some c
    → (h : Held) × (get_elem? heap address ≡ some h) × (h.channel ≡ c)
unfolding lock
lock-stored address heap c live = elim (Option-cases (get_elem? heap address)) [
  | inl out ↦ absurd (ground arith)
  | inr (h, there) ↦ (h, there, ground arith)
]

module _ (e : EndpointConfig) (writer : Bool) (s : State) (open_ : s.open_ ≡ true) where
  join_channel-Found :
      (address : ℕ) (c : TopicChannel)
      → lookup e.topic.name s.channels ≡ some address
      → lock address s.heap ≡ some c
      → OnGot (IsFound e) (join_channel e writer s address c)
  unfolding join_channel
  join_channel-Found address c known live =
      elim (Bool-cases (lifetime_eq c.lifetime e.topic.lifetime)) [
        | inr other ↦ rw (other, join_channel) tt
        | inl same ↦ elim (Bool-cases (descriptor_eq c.descriptor e.message)) [
          | inr other ↦ rw (same, other, join_channel) tt
          | inl agrees ↦ elim (Bool-cases (gone c)) [
            | inr here ↦
                let (h, stored, is_c) = lock-stored address s.heap c live in
                rw (same, agrees, here, join_channel)
                  (
                    h,
                    record {
                      open_ = open_;
                      known = known;
                      stored = stored;
                      lifetime = rw is_c same;
                      descriptor = rw is_c agrees;
                    },
                  )
            | inl left ↦
                rw (same, agrees, left, join_channel)
                  (create_channel-Found e writer
                    (record s { channels = erase_key e.topic.name s.channels }) open_
                    (lookup-erase_key e.topic.name s.channels))
          ]
        ]
      ]

pub get_or_create_channel-Found :
    (e : EndpointConfig) (writer : Bool) (s : State)
    → OnGot (IsFound e) (get_or_create_channel e writer s)
unfolding get_or_create_channel
get_or_create_channel-Found e writer s =
    let s' : State = record s { channels = sweep s.heap s.channels } in
    if_both (OnGot (IsFound e)) (not (is_ok (validate_in_memory_endpoint e))) _ _ tt (
      if_cases (OnGot (IsFound e)) (not s.open_) _ _ (λ shut. tt)
        (λ open'.
          let open_ : s.open_ ≡ true = ground arith in
          option_cases (OnGot (IsFound e)) (lookup e.topic.name s'.channels) _ _
            (λ absent. create_channel-Found e writer s' open_ absent)
            (λ address known.
              option_cases (OnGot (IsFound e)) (lock address s.heap) _ _
                (λ dead.
                  create_channel-Found e writer
                    (record s' { channels = erase_key e.topic.name s'.channels }) open_
                    (lookup-erase_key e.topic.name s'.channels))
                (λ c live. join_channel-Found e writer s' open_ address c known live))))
