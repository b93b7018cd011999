-- ===== src/Transport/Portable.antt =====
-- include/puppet_master/transport/portable_codec.h: the codec of messages, on the shape of their
-- fields. A scalar (an integer, an enumeration, a float) is its bits, and a text its bytes.
pub mod Elements
pub mod Laws
mod Tests
use puppet_master.Base.{
  ℕ, zero, suc, ◌+◌, ◌-◌, ◌*◌, ◌/◌, ◌^◌, String, ◌<>◌, List, [], ◌∷◌, ◌++◌, length, Option, none,
  some, Bool, true, false, ltb, ◌==◌, if◌then◌else◌, take, drop, to_decimal,
}
use puppet_master.Core.Status.{error, out_of_range, data_loss}
use puppet_master.Core.Result.{Result, value, failure, from_status, ◌>>=◌}
use puppet_master.Transport.Recording.Bytes.{put_le, get_le}

-- The types that the codec supports; the fields of a type are visited one after another.
pub data Shape : Type 0 where
  boolean text no_fields : Shape
  scalar : ℕ → Shape
  vector : Shape → Shape
  array : ℕ → Shape → Shape
  field : Shape → Shape → Shape

-- The values of a type.
abbrev pub Val : Shape → Type 0
Val Shape.boolean = Bool
Val Shape.text = List ℕ
Val Shape.no_fields = Unit
Val (Shape.scalar size) = ℕ
Val (Shape.vector s) = List (Val s)
Val (Shape.array n s) = List (Val s)
Val (Shape.field s t) = Val s × Val t

abbrev pub bool_bits : Bool → ℕ
bool_bits true = 1
bool_bits false = 0

-- `ScalarSize`, of the types that are scalars.
abbrev pub scalar_size : Shape → Option ℕ
scalar_size Shape.boolean = some 1
scalar_size (Shape.scalar size) = some size
scalar_size s = none

module _ {A : Type 0} where
  -- `PortableSizer::Elements`.
  unfoldable pub size_elements : Option ℕ → (A → ℕ) → List A → ℕ
  size_elements (some size) f elements = length elements * size
  size_elements none f [] = 0
  size_elements none f (a ∷ elements) = f a + size_elements none f elements

  -- The loops of `PortableWriter` over elements: each with the room that is left.
  unfoldable pub write_elements : (A → ℕ → Result (List ℕ)) → List A → ℕ → Result (List ℕ)
  write_elements f [] room = value []
  write_elements f (a ∷ elements) room = do
    first ← f a room
    rest ← write_elements f elements (room - length first)
    value (first ++ rest)

  -- The loops of `PortableReader` over elements.
  unfoldable pub read_elements :
      (List ℕ → Result (A × List ℕ)) → ℕ → List ℕ → Result (List A × List ℕ)
  read_elements f zero left = value ([], left)
  read_elements f (suc n) left = do
    first ← f left
    rest ← read_elements f n first.1
    value (first.0 ∷ rest.0, rest.1)

-- `PortableSizer`.
unfoldable pub size_of : (s : Shape) → Val s → ℕ
size_of Shape.boolean v = 1
size_of Shape.text v = 4 + length v
size_of Shape.no_fields v = 0
size_of (Shape.scalar size) v = size
size_of (Shape.vector s) v = 4 + size_elements (scalar_size s) (size_of s) v
size_of (Shape.array n s) v = size_elements (scalar_size s) (size_of s) v
size_of (Shape.field s t) v = size_of s v.0 + size_of t v.1

-- `PortableWriter::Put`: what is written into the room that is left of the buffer.
unfoldable pub put_bits : ℕ → ℕ → ℕ → Result (List ℕ)
put_bits size bits room =
    if ltb room size
    then failure (error out_of_range "portable encoding does not fit the buffer")
    else value (put_le size bits)

-- `PortableWriter::Count`.
unfoldable pub put_count : ℕ → ℕ → Result (List ℕ)
put_count count room =
    if ltb (2 ^ 32 - 1) count
    then failure (error out_of_range "portable encoding: more than 2^32-1 elements")
    else put_bits 4 count room

-- `PortableWriter::Bytes`.
unfoldable pub put_bytes : List ℕ → ℕ → Result (List ℕ)
put_bytes bytes room =
    if ltb room (length bytes)
    then failure (error out_of_range "portable encoding does not fit the buffer")
    else value bytes

-- `PortableWriter`, which does nothing more once it failed.
unfoldable pub write_value : (s : Shape) → Val s → ℕ → Result (List ℕ)
write_value Shape.boolean v room = put_bits 1 (bool_bits v) room
write_value Shape.text v room = do
  count ← put_count (length v) room
  bytes ← put_bytes v (room - length count)
  value (count ++ bytes)
write_value Shape.no_fields v room = value []
write_value (Shape.scalar size) v room = put_bits size v room
write_value (Shape.vector s) v room = do
  count ← put_count (length v) room
  elements ← write_elements (write_value s) v (room - length count)
  value (count ++ elements)
write_value (Shape.array n s) v room = write_elements (write_value s) v room
write_value (Shape.field s t) v room = do
  first ← write_value s v.0 room
  rest ← write_value t v.1 (room - length first)
  value (first ++ rest)

-- `PortableReader::Take`, on what is left of the message.
unfoldable pub take_bits : ℕ → List ℕ → Result (ℕ × List ℕ)
take_bits size left =
    if ltb (length left) size
    then failure (error data_loss "portable decoding: message ends inside a field")
    else value (get_le size left, drop size left)

-- `PortableReader::Count`.
unfoldable pub take_count : ℕ → List ℕ → Result (ℕ × List ℕ)
take_count element_size left = do
  count ← take_bits 4 left
  if ltb (length count.1 / element_size) count.0
      then failure (
          error data_loss
            ("portable decoding: element count " <> to_decimal count.0 <> " exceeds the message"))
      else value count

unfoldable pub bool_of : ℕ × List ℕ → Result (Bool × List ℕ)
bool_of (bits, left) =
    if ltb 1 bits
    then failure (error data_loss ("portable decoding: bool byte is " <> to_decimal bits))
    else value (bits == 1, left)

-- The smallest size of an element that `Count` is given.
abbrev pub element_size : Shape → ℕ
element_size s = elim (scalar_size s) [ some size ↦ size | none ↦ 1 ]

-- `PortableReader`, which does nothing more once it failed.
unfoldable pub read_value : (s : Shape) → List ℕ → Result (Val s × List ℕ)
read_value Shape.boolean left = do bits ← take_bits 1 left; bool_of bits
read_value Shape.text left = do
  count ← take_count 1 left
  value (take count.0 count.1, drop count.0 count.1)
read_value Shape.no_fields left = value (tt, left)
read_value (Shape.scalar size) left = take_bits size left
read_value (Shape.vector s) left = do
  count ← take_count (element_size s) left
  read_elements (read_value s) count.0 count.1
read_value (Shape.array n s) left = read_elements (read_value s) n left
read_value (Shape.field s t) left = do
  first ← read_value s left
  rest ← read_value t first.1
  value ((first.0, rest.0), rest.1)

-- `PortableReader::Finish`.
unfoldable pub finish_reading : {A : Type 0} → A × List ℕ → Result A
finish_reading (v, []) = value v
finish_reading (v, b ∷ left) = failure (
    error data_loss (
      "portable decoding: "
      <> to_decimal (length (b ∷ left))
      <> " bytes left over; the writer's field list differs"))

-- `PortableCodec::MaxSize`.
unfoldable pub max_size : (s : Shape) → Val s → ℕ
max_size s v = size_of s v

-- `PortableCodec::Encode`: what is written into a buffer of a size.
unfoldable pub encode_value : (s : Shape) → Val s → ℕ → Result (List ℕ)
encode_value s v room = write_value s v room

abbrev pub with_type_name : {A : Type 0} → String → Result A → Result A
with_type_name type_name (value a) = value a
with_type_name type_name (failure status) =
    failure (error status.code (type_name <> ": " <> status.message))

-- `PortableCodec::Decode`.
unfoldable pub decode_value : String → (s : Shape) → List ℕ → Result (Val s)
decode_value type_name s bytes =
    let decoded = do read ← read_value s bytes; finish_reading read
    in with_type_name type_name decoded
