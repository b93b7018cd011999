-- ===== src/Transport/Portable/Elements.antt =====
-- include/puppet_master/transport/portable_codec.h: the parts of an encoded value, and its elements.
use mathlib.Core.List.{append_assoc}
use native.Mathlib.Nat.{le-div_iff_mul-le}
use puppet_master.Base.{
  ℕ, ◌+◌, ◌-◌, ◌*◌, ◌/◌, ◌^◌, ◌<◌, ◌≤◌, List, [], ◌∷◌, ◌++◌, length, length-append, none, arith,
  ◌≡◌, refl, ap, All,
}
use puppet_master.Core.Result.{Result, value}
use puppet_master.Transport.Recording.Bytes.{put_le}
use puppet_master.Transport.Recording.Laws.{length-put_le, get_le-put_le, drop-append_eq}
use puppet_master.Transport.Portable.{
  Shape, Val, scalar_size, size_elements, write_elements, read_elements, size_of, put_bits,
  put_count, take_bits, take_count, element_size,
}

-- The values that are decoded as they were: a scalar fits its size, an array has its number of elements, a text
-- or a vector fewer than 2 ^ 32, and an element of a vector takes at least one byte.
abbrev pub IsValue : (s : Shape) → Val s → Type 0
IsValue Shape.boolean v = Unit
IsValue Shape.text v = length v < 2 ^ 32
IsValue Shape.no_fields v = Unit
IsValue (Shape.scalar size) v = v < 256 ^ size
IsValue (Shape.vector s) v = (length v < 2 ^ 32) × All (λ a. IsValue s a × (0 < size_of s a)) v
IsValue (Shape.array n s) v = (length v ≡ n) × All (IsValue s) v
IsValue (Shape.field s t) v = IsValue s v.0 × IsValue t v.1

-- Bytes that a writer leaves for a value, and that a reader takes back.
pub record Coded {A : Type 0} (write : A → ℕ → Result (List ℕ))
    (read : List ℕ → Result (A × List ℕ)) (size : ℕ) (v : A) : Type 0 where
  pub bytes : List ℕ
  pub writes : (room : ℕ) → size ≤ room → write v room ≡ value bytes
  pub reads : (rest : List ℕ) → read (bytes ++ rest) ≡ value (v, rest)
  pub sized : length bytes ≡ size

pub put_bits-fits :
    (size bits room : ℕ) → size ≤ room → put_bits size bits room ≡ value (put_le size bits)
unfolding put_bits
put_bits-fits size bits room h = ground arith

pub take_bits-put :
    (size bits : ℕ) (rest : List ℕ)
    → bits < 256 ^ size
    → take_bits size (put_le size bits ++ rest) ≡ value (bits, rest)
unfolding take_bits
take_bits-put size bits rest h =
    rw
      (
        get_le-put_le size bits rest h,
        drop-append_eq size (put_le size bits) rest (length-put_le size bits),
      )
      (ground (arith, length-append (put_le size bits) rest, length-put_le size bits))

pub put_count-fits :
    (count room : ℕ) → count < 2 ^ 32 → 4 ≤ room → put_count count room ≡ value (put_le 4 count)
unfolding put_count
put_count-fits count room h le = rw (put_bits-fits 4 count room le) (ground arith)

pub take_count-put :
    (element count : ℕ) (rest : List ℕ)
    → 0 < element
    → count < 2 ^ 32
    → count * element ≤ length rest
    → take_count element (put_le 4 count ++ rest) ≡ value (count, rest)
unfolding take_count
take_count-put element count rest positive h le =
    let fits : count ≤ length rest / element = (le-div_iff_mul-le positive).1 le in
    rw (take_bits-put 4 count rest h) (ground (arith, fits))

-- The sum of the sizes of elements.
abbrev pub sum {ℓ} : {A : Type ℓ} → (A → ℕ) → List A → ℕ
sum f [] = 0
sum f (a ∷ elements) = f a + sum f elements

pub sum_constant :
    {A : Type 0} (f : A → ℕ) (n : ℕ) (elements : List A)
    → ((a : A) → f a ≡ n)
    → length elements * n ≡ sum f elements
sum_constant f n [] same = omega arith
sum_constant f n (a ∷ elements) same = omega (arith, same a, sum_constant f n elements same)

pub sum_elements :
    {A : Type 0} (f : A → ℕ) (elements : List A) → size_elements none f elements ≡ sum f elements
unfolding size_elements
sum_elements f [] = refl
sum_elements f (a ∷ elements) = ap (λ n. f a + n) (sum_elements f elements)

pub size_elements-sum :
    (s : Shape) (elements : List (Val s))
    → size_elements (scalar_size s) (size_of s) elements ≡ sum (size_of s) elements
unfolding size_elements size_of
size_elements-sum Shape.boolean elements = sum_constant (λ a. 1) 1 elements (λ a. refl)
size_elements-sum (Shape.scalar size) elements = sum_constant (λ a. size) size elements (λ a. refl)
size_elements-sum Shape.text elements = sum_elements (size_of Shape.text) elements
size_elements-sum Shape.no_fields elements = sum_elements (size_of Shape.no_fields) elements
size_elements-sum (Shape.vector s) elements = sum_elements (size_of (Shape.vector s)) elements
size_elements-sum (Shape.array n s) elements = sum_elements (size_of (Shape.array n s)) elements
size_elements-sum (Shape.field s t) elements = sum_elements (size_of (Shape.field s t)) elements

module _ {A : Type 0} (write : A → ℕ → Result (List ℕ)) (read : List ℕ → Result (A × List ℕ))
    (size : A → ℕ) where
  pub elements-Coded :
      (elements : List A)
      → All (λ a. Coded write read (size a) a) elements
      → Coded
          (write_elements write)
          (read_elements read (length elements))
          (sum size elements)
          elements
  unfolding write_elements read_elements
  elements-Coded [] h = record {
    bytes = [];
    writes = λ room le. refl;
    reads = λ rest. refl;
    sized = refl;
  }
  elements-Coded (a ∷ elements) (c, h) =
      let cs = elements-Coded elements h in
      record {
        bytes = c.bytes ++ cs.bytes;
        writes = λ room le.
            rw
              (
                c.writes room (omega arith),
                cs.writes (room - length c.bytes) (omega (arith, c.sized)),
              )
              refl;
        reads = λ rest.
            rw (append_assoc c.bytes cs.bytes rest, c.reads (cs.bytes ++ rest), cs.reads rest) refl;
        sized = omega (arith, length-append c.bytes cs.bytes, c.sized, cs.sized);
      }

-- A vector's elements take at least the bytes that its count is compared with.
pub element_size-le :
    (s : Shape) (v : Val s)
    → 0 < size_of s v
    → (0 < element_size s) × (element_size s ≤ size_of s v)
unfolding size_of
element_size-le Shape.boolean v h = (omega arith, omega arith)
element_size-le (Shape.scalar size) v h = (h, omega arith)
element_size-le Shape.text v h = (omega arith, h)
element_size-le Shape.no_fields v h = (omega arith, h)
element_size-le (Shape.vector s) v h = (omega arith, h)
element_size-le (Shape.array n s) v h = (omega arith, h)
element_size-le (Shape.field s t) v h = (omega arith, h)

pub elements-le :
    (s : Shape) (elements : List (Val s))
    → All (λ a. IsValue s a × (0 < size_of s a)) elements
    → length elements * element_size s ≤ sum (size_of s) elements
elements-le s [] h = omega arith
elements-le s (a ∷ elements) ((v, positive), h) =
    omega (arith, (element_size-le s a positive).1, elements-le s elements h)
