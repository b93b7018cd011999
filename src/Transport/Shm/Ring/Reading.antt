-- ===== src/Transport/Shm/Ring/Reading.antt =====
-- What `TryRead` gives while no writer is at work.
use puppet_master.Base.{ℕ, suc, ◌+◌, ◌-◌, ◌^◌, ◌≤◌, ◌<◌, ◌≡◌, ap, ◌∙◌, some, max, ◌⊎◌, arith}
use puppet_master.Transport.Shm.Ring.{
  ShmSlot, Ring, next_sequence, clamp_cursor, effective_depth, read_slot, read_passes, try_read,
}
use puppet_master.Transport.Shm.Ring.Retention.{Retains, Recent}

clamp_cursor-Recent :
    (r : Ring) (cursor depth : ℕ)
    → 1 ≤ cursor
    → cursor ≤ r.write_seq
    → 1 ≤ depth
    → depth < r.slot_count
    → Recent r (clamp_cursor cursor r.write_seq depth)
unfolding clamp_cursor
clamp_cursor-Recent r cursor depth pos_ le some_ lt = ground arith

read_slot-Recent :
    (history : ℕ → ShmSlot) (r : Ring) (s : ℕ)
    → Retains history r
    → Recent r s
    → read_slot s r ≡ some (history s)
unfolding read_slot
read_slot-Recent history r s h recent =
    ground (arith, h.stored s recent, (h.numbered s recent).0, (h.numbered s recent).1)

-- The first pass, when it finds a message.
read_passes-found :
    (passes depth : ℕ) (r : Ring) (dropped cursor : ℕ) (slot : ShmSlot)
    → cursor ≤ r.write_seq
    → read_slot (clamp_cursor cursor r.write_seq depth) r ≡ some slot
    → read_passes (suc passes) depth r dropped cursor ≡ record {
      message = some slot;
      dropped = dropped + (clamp_cursor cursor r.write_seq depth - cursor);
      cursor = next_sequence (clamp_cursor cursor r.write_seq depth);
    }
unfolding read_passes
read_passes-found passes depth r dropped cursor slot le found = ground (arith, found, le)

-- The message that a reader is due: the first one that it has not read and that is among the newest
-- ones that its depth allows. A depth of zero counts as one.
abbrev pub Due : Ring → ℕ → ℕ → ℕ → Type 0
Due r cursor depth c =
    (cursor ≤ c)
    × (c ≤ r.write_seq)
    × (r.write_seq < c + max 1 depth)
    × ((c ≡ cursor) ⊎ (c + max 1 depth ≡ r.write_seq + 1))

clamp_cursor-Due :
    (r : Ring) (cursor depth : ℕ)
    → 1 ≤ cursor
    → cursor ≤ r.write_seq
    → Due r cursor depth (clamp_cursor cursor r.write_seq (max 1 depth))
unfolding clamp_cursor
clamp_cursor-Due r cursor depth pos_ le = ground arith

-- A reader whose depth is below the number of slots and that has not read everything gets, in one
-- call, the message that it is due: the first one that it has not read and that is among the newest
-- ones that its depth allows. The call reports how many it skipped, and the reader goes on behind it.
pub try_read-Retains :
    (history : ℕ → ShmSlot) (r : Ring) (cursor depth : ℕ)
    → r.write_seq + 1 < 2 ^ 64
    → 1 ≤ cursor
    → cursor ≤ r.write_seq
    → max 1 depth < r.slot_count
    → Retains history r
    → (c : ℕ) × Due r cursor depth c
      × (try_read cursor depth r
          ≡ record { message = some (history c); dropped = c - cursor; cursor = c + 1 })
unfolding try_read
try_read-Retains history r cursor depth room pos_ le lt h =
    let d = max 1 depth in
    let deep : effective_depth depth r ≡ d = ground arith in
    let c = clamp_cursor cursor r.write_seq d in
    let recent = clamp_cursor-Recent r cursor d pos_ le (ground arith) lt in
    let found = read_slot-Recent history r c h recent in
    let e : r.slot_count + 16 ≡ suc (r.slot_count + 15) = omega arith in
    let wraps : next_sequence c ≡ c + 1 = omega (arith, recent.1, room) in
    (
      c,
      clamp_cursor-Due r cursor depth pos_ le,
      ap (λ depth_. read_passes (r.slot_count + 16) depth_ r 0 cursor) deep
          ∙ ap (λ passes. read_passes passes d r 0 cursor) e
          ∙ read_passes-found (r.slot_count + 15) d r 0 cursor (history c) le found
          ∙ ap (λ n. record { message = some (history c); dropped = 0 + (c - cursor); cursor = n })
              wraps
          ∙ ap (λ n. record { message = some (history c); dropped = n; cursor = c + 1 })
              (omega arith),
    )
