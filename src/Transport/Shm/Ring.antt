-- ===== src/Transport/Shm/Ring.antt =====
-- src/transport/shm/segment.cpp, the ring of slots of one topic. Writers hold the segment's lock from
-- the start of a publication to its end.
pub mod Retention
pub mod Reading
use puppet_master.Base.{
  ℕ, zero, suc, ◌+◌, ◌-◌, ◌%◌, ◌^◌, min, max, List, [], Bool, true, false, Option, none, some, ltb,
  leb, ◌==◌, if◌then◌else◌, length, get_elem?, set, String, ◌<>◌, to_decimal,
}
use puppet_master.Core.Status.{Status, error, out_of_range}
use puppet_master.Core.Result.{Result, value, failure, from_status}

-- A slot: its header's words and the bytes of its payload.
pub record ShmSlot : Type 0 where
  pub seq : ℕ
  pub source_timestamp : ℕ
  pub payload_size : ℕ
  pub payload : List ℕ

pub record Ring : Type 0 where
  pub slot_payload_size : ℕ
  pub slot_count : ℕ
  pub write_seq : ℕ
  pub slots : List ShmSlot

-- `kWritingBit`, and `sequence | kWritingBit`.
abbrev pub writing_bit : ℕ
writing_bit = 2 ^ 63

abbrev pub mark_writing : ℕ → ℕ
mark_writing sequence = if ltb sequence writing_bit then sequence + writing_bit else sequence

-- `ClampCursor`.
unfoldable pub clamp_cursor : ℕ → ℕ → ℕ → ℕ
clamp_cursor cursor newest depth = max cursor (if leb depth newest then newest - depth + 1 else 1)

abbrev pub slot_index : ℕ → Ring → ℕ
slot_index sequence r = sequence % r.slot_count

-- `++` on a 64-bit number.
abbrev pub next_sequence : ℕ → ℕ
next_sequence n = (n + 1) % 2 ^ 64

-- What `fill` reports, and what it wrote into the buffer; an exception counts as an internal error.
pub record Fill : Type 0 where
  pub used : Result ℕ
  pub buffer : List ℕ

-- `InvokeFill`.
unfoldable pub invoke_fill : ℕ → Result ℕ → Result ℕ
invoke_fill capacity (failure status) = failure status
invoke_fill capacity (value used) =
    if ltb capacity used
    then from_status (
        error out_of_range (
          "fill function reported "
          <> to_decimal used
          <> " bytes for a "
          <> to_decimal capacity
          <> "-byte buffer"))
    else value used

abbrev pub put_slot : ℕ → ShmSlot → Ring → Ring
put_slot sequence slot r = record r { slots = set r.slots (slot_index sequence r) slot }

-- The slot while it is written, and once it is committed.
abbrev pub written : ℕ → List ℕ → ShmSlot → ShmSlot
written sequence bytes slot = record slot { seq = mark_writing sequence; payload = bytes }

abbrev pub committed : ℕ → ℕ → ℕ → List ℕ → ShmSlot
committed sequence timestamp used bytes = record {
  seq = sequence;
  source_timestamp = timestamp;
  payload_size = used;
  payload = bytes;
}

-- The publication once the lock is held. There is a slot at every index below the count.
unfoldable pub publish_locked : ℕ → Fill → ℕ → Ring → Result ℕ × Ring
unfolding invoke_fill
publish_locked capacity fill timestamp r =
    let sequence = next_sequence r.write_seq in
    elim (invoke_fill capacity fill.used) [
      | failure status ↦ (
        failure status,
        elim (get_elem? r.slots (slot_index sequence r)) [
          | none ↦ r
          | some slot ↦ put_slot sequence (written sequence fill.buffer slot) r
        ],
      )
      | value used ↦ (
        value sequence,
        record (put_slot sequence (committed sequence timestamp used fill.buffer) r) {
          write_seq = sequence;
        },
      )
    ]

-- `PublishWith`: `locked` is what the segment's lock answered.
unfoldable pub publish_with : Result ℕ → ℕ → (ℕ → Fill) → ℕ → Ring → Result ℕ × Ring
unfolding publish_locked
publish_with locked capacity fill timestamp r =
    if ltb r.slot_payload_size capacity
    then (
      from_status (
          error out_of_range (
            "payload of "
            <> to_decimal capacity
            <> " bytes exceeds the shm slot size of "
            <> to_decimal r.slot_payload_size)),
      r,
    )
    else elim locked [
      | failure status ↦ (from_status status, r)
      | value _ ↦ publish_locked capacity (fill capacity) timestamp r
    ]

-- `ReadOutcome`, with the message and the cursor.
pub record ReadOutcome : Type 0 where
  pub message : Option ShmSlot
  pub dropped : ℕ
  pub cursor : ℕ

abbrev pub effective_depth : ℕ → Ring → ℕ
effective_depth depth r = max 1 (min depth r.slot_count)

-- What a pass finds at the cursor: the committed message of that number, or none.
unfoldable pub read_slot : ℕ → Ring → Option ShmSlot
read_slot cursor r = elim (get_elem? r.slots (slot_index cursor r)) [
  | none ↦ none
  | some slot ↦
      if slot.seq == cursor
      then (if leb slot.payload_size r.slot_payload_size then some slot else none)
      else none
]

-- The passes of `TryRead` while no writer is at work, on fuel for `ring + 16` of them.
unfoldable pub read_passes : ℕ → ℕ → Ring → ℕ → ℕ → ReadOutcome
unfolding read_slot clamp_cursor
read_passes zero depth r dropped cursor = record {
  message = none;
  dropped = dropped;
  cursor = cursor;
}
read_passes (suc passes) depth r dropped cursor =
    let clamped = clamp_cursor cursor r.write_seq depth in
    let skipped = dropped + (clamped - cursor) in
    let rest = read_passes passes depth r (skipped + 1) (next_sequence clamped) in
    if ltb r.write_seq cursor
    then record { message = none; dropped = dropped; cursor = cursor }
    else elim (read_slot clamped r) [
      | none ↦ rest
      | some slot ↦ record {
        message = some slot;
        dropped = skipped;
        cursor = next_sequence clamped;
      }
    ]

-- `TryRead`.
unfoldable pub try_read : ℕ → ℕ → Ring → ReadOutcome
unfolding read_passes
try_read cursor depth r = read_passes (r.slot_count + 16) (effective_depth depth r) r 0 cursor

-- `Pending`.
unfoldable pub pending : ℕ → ℕ → Ring → ℕ
unfolding clamp_cursor
pending cursor depth r =
    if ltb r.write_seq cursor
    then 0
    else r.write_seq - clamp_cursor cursor r.write_seq (effective_depth depth r) + 1
