-- ===== src/Transport/Portable/Laws.antt =====
-- include/puppet_master/transport/portable_codec.h: the round trip of the codec.
use mathlib.Core.List.{append_assoc, append-nil}
use puppet_master.Base.{
  ℕ, ◌-◌, ◌*◌, ◌^◌, ◌<◌, ◌≤◌, List, [], ◌∷◌, ◌++◌, length, length-append, Bool, true, false, arith,
  ◌≡◌, refl, String, ◌<>◌, to_decimal, All, All-weaken,
}
use puppet_master.Core.Status.{Status, error, data_loss}
use puppet_master.Core.Result.{value, failure}
use puppet_master.Transport.Recording.Bytes.{put_le}
use puppet_master.Transport.Recording.Laws.{length-put_le, take-append, drop-append}
use puppet_master.Transport.Portable.{
  Shape, Val, bool_bits, write_elements, size_of, put_bytes, write_value, take_bits, take_count,
  bool_of, element_size, read_value, finish_reading, encode_value, decode_value, max_size,
}
use puppet_master.Transport.Portable.Elements.{
  Coded, IsValue, put_bits-fits, take_bits-put, put_count-fits, take_count-put, size_elements-sum,
  elements-Coded, element_size-le, elements-le,
}

-- The count of a vector is read back, also where it has no elements.
take_vector-put :
    (s : Shape) (v : List (Val s)) (rest : List ℕ)
    → length v < 2 ^ 32
    → All (λ a. IsValue s a × (0 < size_of s a)) v
    → length v * element_size s ≤ length rest
    → take_count (element_size s) (put_le 4 (length v) ++ rest) ≡ value (length v, rest)
take_vector-put s [] rest few h le =
    unfold take_count in rw (take_bits-put 4 0 rest few) (ground arith)
take_vector-put s (a ∷ v) rest few ((ha, positive), h) le =
    take_count-put (element_size s) (length (a ∷ v)) rest (element_size-le s a positive).0 few le

value-Coded :
    (s : Shape) (v : Val s) → IsValue s v → Coded (write_value s) (read_value s) (size_of s v) v
unfolding write_value read_value size_of bool_of put_bytes
value-Coded Shape.boolean v h = record {
  bytes = put_le 1 (bool_bits v);
  writes = λ room le. put_bits-fits 1 (bool_bits v) room le;
  reads = λ rest. rw (take_bits-put 1 (bool_bits v) rest (bits v)) (back v rest);
  sized = length-put_le 1 (bool_bits v);
}
  where
    bits : (v : Bool) → bool_bits v < 256 ^ 1
    bits true = omega arith
    bits false = omega arith

    back : (v : Bool) (rest : List ℕ) → bool_of (bool_bits v, rest) ≡ value (v, rest)
    back true rest = refl
    back false rest = refl
value-Coded (Shape.scalar size) v h = record {
  bytes = put_le size v;
  writes = λ room le. put_bits-fits size v room le;
  reads = λ rest. take_bits-put size v rest h;
  sized = length-put_le size v;
}
value-Coded Shape.text v h = record {
  bytes = put_le 4 (length v) ++ v;
  writes = λ room le.
      rw (put_count-fits (length v) room h (omega arith))
        (ground (arith, length-put_le 4 (length v)));
  reads = λ rest.
      let fits : length v * 1 ≤ length (v ++ rest) = omega (arith, length-append v rest) in
      rw
        (
          append_assoc (put_le 4 (length v)) v rest,
          take_count-put 1 (length v) (v ++ rest) (omega arith) h fits,
          take-append v rest,
          drop-append v rest,
        )
        refl;
  sized = omega (arith, length-append (put_le 4 (length v)) v, length-put_le 4 (length v));
}
value-Coded Shape.no_fields v h = record {
  bytes = [];
  writes = λ room le. refl;
  reads = λ rest. refl;
  sized = refl;
}
value-Coded (Shape.vector s) v (few, h) =
    let total = size_elements-sum s v in
    let count = put_le 4 (length v) in
    let four = length-put_le 4 (length v) in
    let c =
      elements-Coded (write_value s) (read_value s) (size_of s) v
        (All-weaken _ _ (λ a (p : IsValue s a × (0 < size_of s a)). value-Coded s a p.0) v h) in
    record {
      bytes = count ++ c.bytes;
      writes = λ room le.
          rw
            (
              put_count-fits (length v) room few (omega arith),
              c.writes (room - length count) (omega (arith, total, four)),
            )
            refl;
      reads = λ rest.
          let fits : length v * element_size s ≤ length (c.bytes ++ rest) =
            omega (arith, elements-le s v h, c.sized, length-append c.bytes rest) in
          rw
            (
              append_assoc count c.bytes rest,
              take_vector-put s v (c.bytes ++ rest) few h fits,
              c.reads rest,
            )
            refl;
      sized = omega (arith, total, length-append count c.bytes, four, c.sized);
    }
value-Coded (Shape.array n s) v (same, h) =
    let total = size_elements-sum s v in
    let c =
      elements-Coded (write_value s) (read_value s) (size_of s) v
        (All-weaken _ _ (λ a (p : IsValue s a). value-Coded s a p) v h) in
    record {
      bytes = c.bytes;
      writes = λ room le. c.writes room (omega (arith, total));
      reads = λ rest. rw (← same) (c.reads rest);
      sized = omega (arith, total, c.sized);
    }
value-Coded (Shape.field s t) v (hs, ht) =
    let a = value-Coded s v.0 hs in
    let b = value-Coded t v.1 ht in
    record {
      bytes = a.bytes ++ b.bytes;
      writes = λ room le.
          rw
            (a.writes room (omega arith), b.writes (room - length a.bytes) (omega (arith, a.sized)))
            refl;
      reads = λ rest.
          rw (append_assoc a.bytes b.bytes rest, a.reads (b.bytes ++ rest), b.reads rest) refl;
      sized = omega (arith, length-append a.bytes b.bytes, a.sized, b.sized);
    }

-- The error for bytes behind a message.
abbrev pub leftover_error : String → List ℕ → Status
leftover_error type_name left = error data_loss (
    type_name
    <> ": "
    <> ("portable decoding: "
        <> to_decimal (length left)
        <> " bytes left over; the writer's field list differs"))

-- If the scalars of a value fit their sizes, its arrays have their numbers of elements, its texts and
-- vectors have fewer than 2 ^ 32 elements, and every element of a vector takes at least one byte, then
-- the value is encoded into a buffer that has room for its largest size, takes just
-- that size, and is decoded to the same value; the message with anything behind it is refused.
pub encode-decode :
    (type_name : String) (s : Shape) (v : Val s) (room b : ℕ) (extra : List ℕ)
    → IsValue s v
    → max_size s v ≤ room
    → (bytes : List ℕ) × ((encode_value s v room ≡ value bytes)
        × ((length bytes ≡ max_size s v)
            × ((decode_value type_name s bytes ≡ value v)
                × (decode_value type_name s (bytes ++ b ∷ extra)
                    ≡ failure (leftover_error type_name (b ∷ extra))))))
unfolding encode_value decode_value max_size finish_reading
encode-decode type_name s v room b extra h le =
    let c = value-Coded s v h in
    let whole : read_value s c.bytes ≡ value (v, []) = rw (append-nil c.bytes) at (c.reads []) in
    (c.bytes, (c.writes room le, (c.sized, (rw whole refl, rw (c.reads (b ∷ extra)) refl))))

write-no_fields :
    (v : List (Val Shape.no_fields)) (room : ℕ)
    → write_elements (write_value Shape.no_fields) v room ≡ value []
unfolding write_elements write_value
write-no_fields [] room = refl
write-no_fields (a ∷ v) room = rw (write-no_fields v (room - 0)) refl

take_count-alone :
    (n : ℕ)
    → 0 < n
    → n < 2 ^ 32
    → take_count 1 (put_le 4 n)
      ≡ failure (
          error data_loss
            ("portable decoding: element count " <> to_decimal n <> " exceeds the message"))
unfolding take_count
take_count-alone n some_ few =
    let taken : take_bits 4 (put_le 4 n) ≡ value (n, []) =
      rw (append-nil (put_le 4 n)) at (take_bits-put 4 n [] few) in
    rw taken (ground arith)

-- A vector of elements that have no fields is encoded as its count alone, and unless it is empty the
-- message is refused.
pub no_fields-vector :
    (type_name : String) (v : Val (Shape.vector Shape.no_fields)) (room : ℕ)
    → 0 < length v
    → length v < 2 ^ 32
    → 4 ≤ room
    → (encode_value (Shape.vector Shape.no_fields) v room ≡ value (put_le 4 (length v)))
      × (decode_value type_name (Shape.vector Shape.no_fields) (put_le 4 (length v))
          ≡ failure (
              error data_loss (
                type_name
                <> ": "
                <> ("portable decoding: element count "
                    <> to_decimal (length v)
                    <> " exceeds the message"))))
unfolding encode_value write_value decode_value read_value
no_fields-vector type_name v room some_ few le = (
  rw
      (
        put_count-fits (length v) room few le,
        write-no_fields v (room - length (put_le 4 (length v))),
        append-nil (put_le 4 (length v)),
      )
      refl,
  rw (take_count-alone (length v) some_ few) refl,
)
