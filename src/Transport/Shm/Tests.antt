-- ===== src/Transport/Shm/Tests.antt =====
-- A segment with three slots.
use puppet_master.Base.{
  ◌==◌, if◌then◌else◌, Bool-cases, inl, inr, ◌⊎◌, subst, ℕ, ◌+◌, ◌-◌, ◌≤◌, ◌≡◌, refl, [], ◌∷◌, some,
  arith,
}
use puppet_master.Core.Result.{value}
use puppet_master.Transport.Shm.Layout.{
  SegmentGeometry, size_max, slot_payload_offset, segment_size, slot_at, slot_at-Within,
  slot_at-Apart,
}
use puppet_master.Transport.Shm.Ring.{
  ShmSlot, Ring, mark_writing, Fill, committed, publish_with, try_read, clamp_cursor,
}
use puppet_master.Transport.Shm.Ring.Retention.{Retains, Publishes, publish_with-Retains}
use puppet_master.Transport.Shm.Ring.Reading.{Due, try_read-Retains}
use puppet_master.Transport.Shm.Seqlock.{
  Shared, unlocked, filling, update_slot, Write, begins, Passes, begun, writes, loads, loads_seq,
  loads_size, loads_timestamp, copies, accepts, accepted,
}
use puppet_master.Transport.Shm.Seqlock.Writing.{Consistent, SlotOf}
use puppet_master.Transport.Shm.Seqlock.Reading.{Copied, accepted-Copied}

abbrev geometry : SegmentGeometry
geometry = record { slot_payload_size = 100; slot_count = 3 }

size_test : segment_size 3000 geometry ≡ 3576
unfolding segment_size
size_test = refl

slot_at-Within_example :
    (segment_size 3000 geometry ≤ size_max)
    × (3000 ≤ slot_at 3000 geometry 5)
    × (slot_at 3000 geometry 5 + slot_payload_offset + 100 ≤ segment_size 3000 geometry)
slot_at-Within_example = slot_at-Within 3000 5 geometry (omega arith) (omega (arith, size_test))

slot_at-Apart_example :
    (slot_at 3000 geometry 5 + slot_payload_offset + 100 ≤ slot_at 3000 geometry 6)
    ⊎ (slot_at 3000 geometry 6 + slot_payload_offset + 100 ≤ slot_at 3000 geometry 5)
slot_at-Apart_example =
    slot_at-Apart 3000 5 6 geometry (omega (arith, size_test)) (λ same. omega (arith, same))

-- Every message is the byte 7.
abbrev history : ℕ → ShmSlot
history s = committed s 0 1 (7 ∷ [])

abbrev empty_slot : ShmSlot
empty_slot = record { seq = 0; source_timestamp = 0; payload_size = 0; payload = [] }

abbrev ring : Ring
ring = record {
  slot_payload_size = 100;
  slot_count = 3;
  write_seq = 1;
  slots = empty_slot ∷ history 1 ∷ empty_slot ∷ [];
}

Retains-ring : Retains history ring
Retains-ring = record {
  full = refl;
  some_slot = omega arith;
  stored = λ s recent. let e : s ≡ 1 = omega (arith, recent.0, recent.1) in rw e refl;
  numbered = λ s recent. (refl, omega arith);
}

abbrev fill : ℕ → Fill
fill capacity = record { used = value 1; buffer = 9 ∷ [] }

publish_with-Retains_example :
    Publishes history ring 50 (fill 1) (publish_with (value 0) 1 fill 50 ring)
publish_with-Retains_example =
    publish_with-Retains history ring (value 0) 1 50 fill (omega arith) Retains-ring

clamp_test : clamp_cursor 1 1 2 ≡ 1
unfolding clamp_cursor
clamp_test = refl

try_read-Retains_example :
    (c : ℕ) × Due ring 1 2 c
    × (try_read 1 2 ring ≡ record { message = some (history c); dropped = c - 1; cursor = c + 1 })
try_read-Retains_example =
    try_read-Retains history ring 1 2 (omega arith) (omega arith) (omega arith) (omega arith)
      Retains-ring

-- A reader of message 1 while a writer begins message 2.
abbrev messages : ℕ → ShmSlot
messages s = if s == 1 then history 1 else empty_slot

abbrev quiet : Shared
quiet = record { ring = ring; phase = unlocked; history = messages }

abbrev busy : Shared
busy = record quiet {
  ring = record ring {
    slots = empty_slot ∷ history 1 ∷ (record empty_slot { seq = mark_writing 2 }) ∷ [];
  };
  phase = filling 2;
}

Consistent-quiet : Consistent quiet
Consistent-quiet = record {
  agrees = λ c slot le at word. elim (Bool-cases (c == 1)) [
    | inl one ↦
        let e : c ≡ 1 = ground arith in
        let at' = subst (λ k. SlotOf ring k slot) e at in ground arith
    | inr other ↦
        let e : c ≡ 0 = ground (arith, le) in
        let at' = subst (λ k. SlotOf ring k slot) e at in ground arith
  ];
  phase = tt;
}

begins_test : Write quiet busy
unfolding update_slot
begins_test = begins refl (omega arith)

pass : Passes 1 quiet busy (accepted 1 0 (7 ∷ []))
pass =
    loads
      (loads
        (loads
          (loads (writes (loads begun (loads_seq (history 1) refl refl)) begins_test)
            (loads_size (history 1) refl))
          (loads_timestamp 1 (history 1) refl (omega arith)))
        (copies 1 0 7 [] (history 1) refl refl (omega arith)))
      (accepts 1 0 (7 ∷ []) (history 1) refl refl refl)

accepted-Copied_example : Copied (messages 1) 1 1 0 (7 ∷ [])
accepted-Copied_example =
    accepted-Copied 1 quiet busy 1 0 (7 ∷ []) Consistent-quiet (omega arith) pass
