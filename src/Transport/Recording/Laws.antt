-- ===== src/Transport/Recording/Laws.antt =====
-- src/transport/recording.cpp: what was put is read back, whatever follows it.
use text.Mathlib.TextEquality.{Char-path}
use Prim.Native.Char.{Char, char, code, nul}
use native.Mathlib.Decide.{dec_lt}
use mathlib.Core.List.{append_assoc}
use native.Mathlib.Nat.{mod-eq_of_lt}
use mathlib.Core.Logic.{dite}
use puppet_master.Base.{
  ℕ, zero, suc, ◌/◌, ◌^◌, ◌<◌, String, List, [], ◌∷◌, ◌++◌, length, length-append, some, take, drop,
  arith, ◌≡◌, refl, ap,
}
use puppet_master.Transport.Recording.Bytes.{
  put_le, put_u32, put_u64, get_le, get_u32, get_u64, codes, IsBytes, IsScalar-below, to_char,
  text_of, put_string, read_u32, read_string,
}

pub length-put_le : (n v : ℕ) → length (put_le n v) ≡ n
unfolding put_le
length-put_le zero v = refl
length-put_le (suc n) v = ap suc (length-put_le n (v / 256))

pub take-append {ℓ} : {A : Type ℓ} (xs ys : List A) → take (length xs) (xs ++ ys) ≡ xs
take-append [] ys = refl
take-append (x ∷ xs) ys = ap (λ l. x ∷ l) (take-append xs ys)

pub drop-append {ℓ} : {A : Type ℓ} (xs ys : List A) → drop (length xs) (xs ++ ys) ≡ ys
drop-append [] ys = refl
drop-append (x ∷ xs) ys = drop-append xs ys

-- The same, for a length that is known.
pub take-append_eq {ℓ} :
    {A : Type ℓ} (n : ℕ) (xs ys : List A) → length xs ≡ n → take n (xs ++ ys) ≡ xs
take-append_eq n xs ys h = rw (← h) (take-append xs ys)

pub drop-append_eq {ℓ} :
    {A : Type ℓ} (n : ℕ) (xs ys : List A) → length xs ≡ n → drop n (xs ++ ys) ≡ ys
drop-append_eq n xs ys h = rw (← h) (drop-append xs ys)

pub get_le-put_le : (n v : ℕ) (rest : List ℕ) → v < 256 ^ n → get_le n (put_le n v ++ rest) ≡ v
unfolding get_le put_le
get_le-put_le zero v rest h = omega arith
get_le-put_le (suc n) v rest h = omega (arith, get_le-put_le n (v / 256) rest (omega arith))

pub get_u32-put : (v : ℕ) (rest : List ℕ) → v < 2 ^ 32 → get_u32 (put_u32 v ++ rest) ≡ v
unfolding get_u32 put_u32
get_u32-put v rest h = get_le-put_le 4 v rest h

pub get_u64-put : (v : ℕ) (rest : List ℕ) → v < 2 ^ 64 → get_u64 (put_u64 v ++ rest) ≡ v
unfolding get_u64 put_u64
get_u64-put v rest h = get_le-put_le 8 v rest h

pub length-put_u32 : (v : ℕ) → length (put_u32 v) ≡ 4
unfolding put_u32
length-put_u32 v = length-put_le 4 v

pub length-put_u64 : (v : ℕ) → length (put_u64 v) ≡ 8
unfolding put_u64
length-put_u64 v = length-put_le 8 v

to_char-code : (c : Char) → code c < 256 → to_char (code c) ≡ c
unfolding to_char
to_char-code c h =
    elim (dec_lt (code c) 55296)
      as (λ d. dite d (λ p. char (code c) (IsScalar-below (code c) p)) (λ _. nul) ≡ c) [
        | yes p ↦ Char-path _ _ refl
        | no p ↦ absurd (p (omega arith))
      ]

pub text_of-codes : (s : String) → IsBytes s → text_of (codes s) ≡ s
unfolding text_of codes
text_of-codes String.[] h = refl
text_of-codes (String.◌∷◌ c s) (hc, hs) = rw (to_char-code c hc, text_of-codes s hs) refl

pub read_u32-put :
    (v : ℕ) (rest : List ℕ) → v < 2 ^ 32 → read_u32 (put_u32 v ++ rest) ≡ some (v, rest)
unfolding read_u32
read_u32-put v rest h =
    rw (get_u32-put v rest h, drop-append_eq 4 (put_u32 v) rest (length-put_u32 v))
      (ground (arith, length-append (put_u32 v) rest, length-put_u32 v))

pub read_string-put :
    (s : String) (rest : List ℕ)
    → IsBytes s
    → length (codes s) < 2 ^ 32
    → read_string (put_string s ++ rest) ≡ some (s, rest)
unfolding read_string put_string
read_string-put s rest bytes small =
    rw
      (
        append_assoc,
        mod-eq_of_lt small,
        read_u32-put (length (codes s)) (codes s ++ rest) small,
        take-append (codes s) rest,
        drop-append (codes s) rest,
        text_of-codes s bytes,
      )
      (ground (arith, length-append (codes s) rest))
