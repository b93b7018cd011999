-- ===== src/Transport/Portable/Tests.antt =====
-- include/puppet_master/transport/portable_codec.h: tests, and the theorems at concrete inputs.
use puppet_master.Base.{ℕ, ◌<>◌, ◌++◌, List, [], ◌∷◌, length, true, arith, ◌≡◌, refl, to_decimal}
use puppet_master.Core.Status.{error, data_loss}
use puppet_master.Core.Result.{value, failure}
use puppet_master.Transport.Recording.Bytes.{put_le}
use puppet_master.Transport.Portable.{
  Shape, Val, field, scalar, boolean, text, vector, no_fields, encode_value, decode_value, max_size,
  write_value, put_bits, put_count, put_bytes, write_elements, size_of, size_elements,
}
use puppet_master.Transport.Portable.Elements.{IsValue}
use puppet_master.Transport.Portable.Laws.{leftover_error, encode-decode, no_fields-vector}

-- A flag, a number, a frame and a covariance.
abbrev Pose : Shape
Pose = field boolean (field (scalar 8) (field text (field (vector (scalar 4)) no_fields)))

abbrev pose : Val Pose
pose = (true, (1000, (0x6d ∷ 0x61 ∷ 0x70 ∷ [], (1 ∷ 2 ∷ [], tt))))

encode-pose :
    encode_value Pose pose 64
    ≡ value (
        1 ∷ 232 ∷ 3 ∷ 0 ∷ 0 ∷ 0 ∷ 0 ∷ 0 ∷ 0 ∷ 3 ∷ 0 ∷ 0 ∷ 0 ∷ 0x6d ∷ 0x61 ∷ 0x70 ∷ 2 ∷ 0 ∷ 0 ∷ 0 ∷ 1
        ∷ 0 ∷ 0 ∷ 0 ∷ 2 ∷ 0 ∷ 0 ∷ 0 ∷ [])
unfolding encode_value write_value put_bits put_count put_bytes write_elements put_le
encode-pose = refl

pose-IsValue : IsValue Pose pose
unfolding size_of
pose-IsValue = (
  tt,
  (
    omega arith,
    (
      omega arith,
      ((omega arith, ((omega arith, omega arith), ((omega arith, omega arith), tt))), tt),
    ),
  ),
)

encode-decode_example :
    (bytes : List ℕ) × ((encode_value Pose pose 64 ≡ value bytes)
      × ((length bytes ≡ max_size Pose pose)
          × ((decode_value "Pose" Pose bytes ≡ value pose)
              × (decode_value "Pose" Pose (bytes ++ 9 ∷ [])
                  ≡ failure (leftover_error "Pose" (9 ∷ []))))))
unfolding max_size size_of size_elements
encode-decode_example = encode-decode "Pose" Pose pose 64 9 [] pose-IsValue (omega arith)

no_fields-vector_example :
    (encode_value (vector no_fields) (tt ∷ tt ∷ []) 64 ≡ value (put_le 4 2))
    × (decode_value "Empty" (vector no_fields) (put_le 4 2)
        ≡ failure (
            error data_loss (
              "Empty"
              <> ": "
              <> ("portable decoding: element count " <> to_decimal 2 <> " exceeds the message"))))
no_fields-vector_example =
    no_fields-vector "Empty" (tt ∷ tt ∷ []) 64 (omega arith) (omega arith) (omega arith)
