-- ===== src/Transport/Shm/Seqlock.antt =====
-- src/transport/shm/segment.cpp, `PublishWith` and `TryRead` word by word: a reader runs while writers
-- change the slot that it reads. Loads and stores are interleaved in one order. A writer that fails
-- or dies leaves its slot as it is, and the lock is free again.
pub mod Writing
pub mod Reading
use puppet_master.Base.{
  ℕ, suc, ◌+◌, ◌≡◌, ◌≤◌, ◌<◌, List, [], ◌∷◌, ◌++◌, Option, none, some, get_elem?, set, length,
}
use puppet_master.Transport.Shm.Ring.{ShmSlot, Ring, slot_index, mark_writing, writing_bit}
use puppet_master.Transport.Shm.Ring.Retention.{extend}

-- Where the holder of the lock is: before its first store, filling the slot, or with the slot's
-- sequence word stored and `write_seq` not yet.
pub data Phase : Type 0 where
  unlocked : Phase
  filling sealed : ℕ → Phase

-- The shared memory, with the slots as they were when their messages were committed.
pub record Shared : Type 0 where
  pub ring : Ring
  pub phase : Phase
  pub history : ℕ → ShmSlot

unfoldable pub update_slot : (ShmSlot → ShmSlot) → ℕ → Ring → Ring
update_slot f sequence r = elim (get_elem? r.slots (slot_index sequence r)) [
  | none ↦ r
  | some slot ↦ record r { slots = set r.slots (slot_index sequence r) (f slot) }
]

-- `slot_header->seq.store`, and the stores of the rest of a slot.
abbrev pub store_seq : ℕ → ShmSlot → ShmSlot
store_seq word slot = record slot { seq = word }

abbrev pub store_rest : ℕ → ℕ → List ℕ → ShmSlot → ShmSlot
store_rest timestamp size bytes slot = record slot {
  source_timestamp = timestamp;
  payload_size = size;
  payload = bytes;
}

-- The steps of writers.
pub data Write (m : Shared) : Shared → Type 0 where
  begins :
      m.phase ≡ unlocked
      → m.ring.write_seq + 1 < writing_bit
      → Write m (record m {
        ring =
            update_slot
              (store_seq (mark_writing (m.ring.write_seq + 1)))
              (m.ring.write_seq + 1)
              m.ring;
        phase = filling (m.ring.write_seq + 1);
      })
  stores :
      (s timestamp size : ℕ) (bytes : List ℕ)
      → m.phase ≡ filling s
      → Write m (record m { ring = update_slot (store_rest timestamp size bytes) s m.ring })
  seals :
      (s : ℕ)
      → m.phase ≡ filling s
      → Write m (record m { ring = update_slot (store_seq s) s m.ring; phase = sealed s })
  commits :
      (s : ℕ) (slot : ShmSlot)
      → m.phase ≡ sealed s
      → get_elem? m.ring.slots (slot_index s m.ring) ≡ some slot
      → Write m (record {
        ring = record (m.ring) { write_seq = s };
        phase = unlocked;
        history = extend m.history s slot;
      })
  abandons : Write m (record m { phase = unlocked })

-- Where a reader is in one pass over its slot: what it has loaded.
pub data Pass : Type 0 where
  at_seq at_size : Pass
  at_timestamp : ℕ → Pass
  copying accepted : ℕ → ℕ → List ℕ → Pass

-- The steps of a reader at that cursor.
pub data Load (cursor : ℕ) (m : Shared) : Pass → Pass → Type 0 where
  loads_seq :
      (slot : ShmSlot)
      → get_elem? m.ring.slots (slot_index cursor m.ring) ≡ some slot
      → slot.seq ≡ cursor
      → Load cursor m at_seq at_size
  loads_size :
      (slot : ShmSlot)
      → get_elem? m.ring.slots (slot_index cursor m.ring) ≡ some slot
      → Load cursor m at_size (at_timestamp slot.payload_size)
  loads_timestamp :
      (size : ℕ) (slot : ShmSlot)
      → get_elem? m.ring.slots (slot_index cursor m.ring) ≡ some slot
      → size ≤ m.ring.slot_payload_size
      → Load cursor m (at_timestamp size) (copying size slot.source_timestamp [])
  copies :
      (size timestamp byte : ℕ) (bytes : List ℕ) (slot : ShmSlot)
      → get_elem? m.ring.slots (slot_index cursor m.ring) ≡ some slot
      → get_elem? slot.payload (length bytes) ≡ some byte
      → length bytes < size
      → Load cursor m (copying size timestamp bytes) (copying size timestamp (bytes ++ byte ∷ []))
  accepts :
      (size timestamp : ℕ) (bytes : List ℕ) (slot : ShmSlot)
      → get_elem? m.ring.slots (slot_index cursor m.ring) ≡ some slot
      → slot.seq ≡ cursor
      → length bytes ≡ size
      → Load cursor m (copying size timestamp bytes) (accepted size timestamp bytes)

-- A pass that began when the newest message was at the cursor or beyond, and what happened since.
pub data Passes (cursor : ℕ) (start : Shared) : Shared → Pass → Type 0 where
  begun : Passes cursor start start at_seq
  writes : {m n : Shared} {p : Pass} → Passes cursor start m p → Write m n → Passes cursor start n p
  loads :
      {m : Shared} {p q : Pass}
      → Passes cursor start m p
      → Load cursor m p q
      → Passes cursor start m q
