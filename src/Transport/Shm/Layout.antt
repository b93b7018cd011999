-- ===== src/Transport/Shm/Layout.antt =====
-- src/transport/shm/segment.cpp, the arithmetic of a segment's layout on a 64-bit `size_t`. The size
-- of `SegmentHeader` depends on the platform and is a parameter.
use puppet_master.Base.{
  ℕ, ◌+◌, ◌-◌, ◌*◌, ◌/◌, ◌%◌, ◌^◌, ◌≤◌, ◌<◌, ◌≡◌, ◌≢◌, ◌⊎◌, inl, inr, false, ◌||◌, arith, ltb, ◌==◌,
  if◌then◌else◌,
}

-- `std::numeric_limits<std::size_t>::max()`.
abbrev pub size_max : ℕ
size_max = 2 ^ 64 - 1

abbrev pub slot_alignment : ℕ
slot_alignment = 64

abbrev pub slot_payload_offset : ℕ
slot_payload_offset = slot_alignment

-- `AlignUp`.
unfoldable pub align_up : ℕ → ℕ
align_up value =
    if ltb (size_max - (slot_alignment - 1)) value
    then 0
    else (value + slot_alignment - 1) / slot_alignment * slot_alignment

-- `SlotStride`.
unfoldable pub slot_stride : ℕ → ℕ
unfolding align_up
slot_stride slot_payload_size =
    if ltb (size_max - slot_payload_offset) slot_payload_size
    then 0
    else align_up (slot_payload_offset + slot_payload_size)

pub record SegmentGeometry : Type 0 where
  pub slot_payload_size : ℕ
  pub slot_count : ℕ

-- `SegmentSize`, with what `HeaderSize` returns.
unfoldable pub segment_size : ℕ → SegmentGeometry → ℕ
unfolding slot_stride
segment_size header g =
    let stride = slot_stride g.slot_payload_size in
    if stride == 0 || g.slot_count == 0
    then 0
    else if ltb ((size_max - header) / stride) g.slot_count
    then 0
    else header + g.slot_count * stride

-- `SlotAt`, as an offset in the segment.
unfoldable pub slot_at : ℕ → SegmentGeometry → ℕ → ℕ
unfolding slot_stride
slot_at header g sequence = header + sequence % g.slot_count * slot_stride g.slot_payload_size

div-le : (a b n : ℕ) → 0 < b → n ≤ a / b → n * b ≤ a
div-le a b n pos_ h = grind arith

mul-lt : (r n b : ℕ) → r < n → r * b + b ≤ n * b
mul-lt r n b h = grind arith

-- A stride that is not zero has room for a slot's header and payload, without overflow.
slot_stride_room :
    (size : ℕ) → (slot_stride size == 0) ≡ false → slot_payload_offset + size ≤ slot_stride size
unfolding slot_stride align_up
slot_stride_room size h = ground arith

mod-lt : (a n : ℕ) → 0 < n → a % n < n
mod-lt a n h = grind arith

segment_size_parts :
    (header : ℕ) (g : SegmentGeometry)
    → 0 < segment_size header g
    → ((slot_stride g.slot_payload_size == 0) ≡ false)
      × (0 < g.slot_count)
      × (g.slot_count ≤ (size_max - header) / slot_stride g.slot_payload_size)
      × (segment_size header g ≡ header + g.slot_count * slot_stride g.slot_payload_size)
unfolding segment_size
segment_size_parts header g some_ = parts (slot_stride g.slot_payload_size) some_
  where
    parts :
        (stride : ℕ)
        → 0 < (
            if stride == 0 || g.slot_count == 0
            then 0
            else if ltb ((size_max - header) / stride) g.slot_count
            then 0
            else header + g.slot_count * stride)
        → ((stride == 0) ≡ false)
          × (0 < g.slot_count)
          × (g.slot_count ≤ (size_max - header) / stride)
          × ((if stride == 0 || g.slot_count == 0
                then 0
                else if ltb ((size_max - header) / stride) g.slot_count
                then 0
                else header + g.slot_count * stride)
              ≡ header + g.slot_count * stride)
    parts stride h = ground arith

-- Where a segment's size is not zero, it is a `size_t`, and the slot of every sequence number lies
-- within the segment: behind the header, with room for its header and a payload of the full size.
pub slot_at-Within :
    (header sequence : ℕ) (g : SegmentGeometry)
    → header ≤ size_max
    → 0 < segment_size header g
    → (segment_size header g ≤ size_max)
      × (header ≤ slot_at header g sequence)
      × (slot_at header g sequence + slot_payload_offset + g.slot_payload_size
          ≤ segment_size header g)
unfolding slot_at
slot_at-Within header sequence g small some_ =
    let (pos_, count, fits, e) = segment_size_parts header g some_ in
    let stride = slot_stride g.slot_payload_size in
    let all_ = div-le (size_max - header) stride g.slot_count (ground arith) fits in
    let last =
      mul-lt (sequence % g.slot_count) g.slot_count stride (mod-lt sequence g.slot_count count) in
    let room = slot_stride_room g.slot_payload_size pos_ in
    (omega (arith, e, all_, small), omega arith, omega (arith, e, last, room))

mul-skip : (q r n : ℕ) → q < r → q * n + n ≤ r * n
mul-skip q r n h = grind arith

lt-cases : (q r : ℕ) → q ≢ r → (q < r) ⊎ (r < q)
lt-cases q r h = ground arith

-- Where a segment's size is not zero, the slots of two sequence numbers whose remainders by the number
-- of slots differ share no byte: one of them ends, its header and a payload of the full size
-- counted, before the other begins.
pub slot_at-Apart :
    (header first second : ℕ) (g : SegmentGeometry)
    → 0 < segment_size header g
    → first % g.slot_count ≢ second % g.slot_count
    → (slot_at header g first + slot_payload_offset + g.slot_payload_size ≤ slot_at header g second)
      ⊎ (slot_at header g second + slot_payload_offset + g.slot_payload_size
          ≤ slot_at header g first)
unfolding slot_at
slot_at-Apart header first second g some_ other =
    let (pos_, _, _, _) = segment_size_parts header g some_ in
    let stride = slot_stride g.slot_payload_size in
    let room = slot_stride_room g.slot_payload_size pos_ in
    let here = first % g.slot_count in
    let there = second % g.slot_count in
    elim (lt-cases here there other) [
      | inl less ↦ inl (omega (arith, mul-skip here there stride less, room))
      | inr less ↦ inr (omega (arith, mul-skip there here stride less, room))
    ]
