-- ===== src/Transport/Recording/Bytes.antt =====
-- src/transport/recording.cpp, the numbers and texts of the file: a byte is a number below 256, and a
-- text has one character for each of its bytes.
use Prim.Native.Char.{Char, IsScalar, char, code, nul}
use native.Mathlib.Decide.{dec_lt}
use mathlib.Core.Logic.{dite}
use puppet_master.Base.{
  ℕ, zero, suc, ◌+◌, ◌*◌, ◌/◌, ◌%◌, ◌^◌, ◌<◌, String, List, [], ◌∷◌, ◌++◌, length, Option, none,
  some, ltb, if◌then◌else◌, take, drop, arith,
}

-- The loop of `PutU32` and `PutU64`: the lowest `n` bytes of a number, the lowest first.
unfoldable pub put_le : ℕ → ℕ → List ℕ
put_le zero v = []
put_le (suc n) v = v % 256 ∷ put_le n (v / 256)

unfoldable pub put_u32 : ℕ → List ℕ
put_u32 = put_le 4

unfoldable pub put_u64 : ℕ → List ℕ
put_u64 = put_le 8

-- The loop of `GetU32` and `GetU64`.
unfoldable pub get_le : ℕ → List ℕ → ℕ
get_le zero bytes = 0
get_le (suc n) [] = 0
get_le (suc n) (b ∷ bytes) = get_le n bytes * 256 + b

unfoldable pub get_u32 : List ℕ → ℕ
get_u32 = get_le 4

unfoldable pub get_u64 : List ℕ → ℕ
get_u64 = get_le 8

-- The bytes of a text.
unfoldable pub codes : String → List ℕ
codes String.[] = []
codes (String.◌∷◌ c s) = code c ∷ codes s

-- Every character of the text stands for a byte.
abbrev pub IsBytes : String → Type 0
IsBytes String.[] = Unit
IsBytes (String.◌∷◌ c s) = (code c < 256) × IsBytes s

pub IsScalar-below : (n : ℕ) → n < 55296 → IsScalar n
IsScalar-below n h = ground arith

unfoldable pub to_char : ℕ → Char
unfolding IsScalar-below dec_lt
to_char n = dite (dec_lt n 55296) (λ h. char n (IsScalar-below n h)) (λ _. nul)

-- The text of some bytes.
unfoldable pub text_of : List ℕ → String
unfolding to_char
text_of [] = String.[]
text_of (b ∷ bytes) = String.◌∷◌ (to_char b) (text_of bytes)

-- `PutString`; the size is converted to 32 bits.
unfoldable pub put_string : String → List ℕ
put_string text = put_u32 (length (codes text) % 2 ^ 32) ++ codes text

-- `BodyReader` keeps a body and an offset; what is left of the body stands for both.
infixl 5 ◌>>=◌
abbrev pub ◌>>=◌ {ℓ κ} : {A : Type ℓ} {B : Type κ} → Option A → (A → Option B) → Option B
none >>= f = none
some a >>= f = f a

-- `BodyReader::U32`.
unfoldable pub read_u32 : List ℕ → Option (ℕ × List ℕ)
read_u32 left = if ltb (length left) 4 then none else some (get_u32 left, drop 4 left)

-- `BodyReader::String`.
unfoldable pub read_string : List ℕ → Option (String × List ℕ)
read_string left = do
  (size, rest) ← read_u32 left
  if ltb (length rest) size then none else some (text_of (take size rest), drop size rest)
