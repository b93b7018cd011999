-- ===== src/Service/Endpoints/Hex.antt =====
-- src/service/service.cpp: the digits of a client's number.
use Prim.Native.Char.{Char, char, code, nul}
use Prim.Native.String.{count}
use Prim.Native.String.append as append_clauses
use Prim.Native.String.count as count_clauses
use native.Mathlib.Decide.{dec_lt}
use mathlib.Core.Logic.{dite}
use puppet_master.Base.{
  ℕ, zero, suc, ◌+◌, ◌/◌, ◌%◌, ◌^◌, ◌<◌, String, ◌<>◌, false, arith, ◌≡◌, refl, ap,
}
use puppet_master.Core.Names.{has_control}
use puppet_master.Transport.Recording.Bytes.{to_char, IsScalar-below}
use puppet_master.Service.Endpoints.{hex_digit, hex_loop, hex16}

-- Taking texts apart.
rest_of : String → String
rest_of String.[] = ""
rest_of (String.◌∷◌ c s) = s

first_code : String → ℕ
first_code String.[] = 0
first_code (String.◌∷◌ c s) = code c

cons-first : (c d : Char) (s t : String) → String.◌∷◌ c s ≡ String.◌∷◌ d t → code c ≡ code d
unfolding first_code
cons-first c d s t e = ap first_code e

cons-rest : (c d : Char) (s t : String) → String.◌∷◌ c s ≡ String.◌∷◌ d t → s ≡ t
unfolding rest_of
cons-rest c d s t e = ap rest_of e

pub append_cancel : (s a b : String) → s <> a ≡ s <> b → a ≡ b
append_cancel String.[] a b e = rw (append_clauses.nil a, append_clauses.nil b) at e
append_cancel (String.◌∷◌ c s) a b e = append_cancel s a b (
    cons-rest c c (s <> a) (s <> b)
      (rw (append_clauses.cons c s a, append_clauses.cons c s b) at e))

code-to_char : (n : ℕ) → n < 55296 → code (to_char n) ≡ n
unfolding to_char
code-to_char n h =
    elim (dec_lt n 55296)
      as (λ d. code (dite d (λ p. char n (IsScalar-below n p)) (λ _. nul)) ≡ n) [
        | yes p ↦ refl
        | no p ↦ absurd (p h)
      ]

hex_char : ℕ → Char
hex_char v = to_char (hex_digit (v % 16))

code-hex_char : (v : ℕ) → code (hex_char v) ≡ hex_digit (v % 16)
unfolding hex_char hex_digit
code-hex_char v = code-to_char (hex_digit (v % 16)) (ground arith)

count-hex_loop : (n v : ℕ) (text : String) → count (hex_loop n v text) ≡ n + count text
unfolding hex_loop hex_char
count-hex_loop zero v text = omega arith
count-hex_loop (suc n) v text =
    rw
      (
        count-hex_loop n (v / 16) (String.◌∷◌ (hex_char v) text),
        count_clauses.cons (hex_char v) text,
      )
      (omega arith)

has_control-hex_loop :
    (n v : ℕ) (text : String) → has_control text ≡ false → has_control (hex_loop n v text) ≡ false
unfolding hex_loop hex_char
has_control-hex_loop zero v text h = h
has_control-hex_loop (suc n) v text h =
    has_control-hex_loop n (v / 16) (String.◌∷◌ (hex_char v) text) (plain v text h)
  where
    plain :
        (v : ℕ) (text : String)
        → has_control text ≡ false
        → has_control (String.◌∷◌ (hex_char v) text) ≡ false
    plain v text h = unfold has_control hex_digit in ground (arith, code-hex_char v)

hex_digit-inj : (a b : ℕ) → a < 16 → b < 16 → hex_digit a ≡ hex_digit b → a ≡ b
unfolding hex_digit
hex_digit-inj a b ha hb e = ground arith

digits_eq : (v w : ℕ) → code (hex_char v) ≡ code (hex_char w) → v % 16 ≡ w % 16
digits_eq v w e =
    hex_digit-inj (v % 16) (w % 16) (omega arith) (omega arith)
      (rw (code-hex_char v, code-hex_char w) at e)

-- Numbers of n digits that are written the same are the same, and so are the texts behind them.
hex_loop-inj :
    (n v w : ℕ) (s t : String)
    → v < 16 ^ n
    → w < 16 ^ n
    → hex_loop n v s ≡ hex_loop n w t
    → (v ≡ w) × (s ≡ t)
unfolding hex_loop hex_char
hex_loop-inj zero v w s t hv hw e = (omega arith, e)
hex_loop-inj (suc n) v w s t hv hw e =
    let (high, texts) =
      hex_loop-inj n (v / 16) (w / 16) (String.◌∷◌ (hex_char v) s) (String.◌∷◌ (hex_char w) t)
        (omega arith) (omega arith) e in
    let digits = cons-first (hex_char v) (hex_char w) s t texts in
    (omega (arith, high, digits_eq v w digits), cons-rest (hex_char v) (hex_char w) s t texts)

pub hex16-inj : (v w : ℕ) → v < 2 ^ 64 → w < 2 ^ 64 → hex16 v ≡ hex16 w → v ≡ w
unfolding hex16
hex16-inj v w hv hw e = (hex_loop-inj 16 v w "" "" hv hw e).0

pub count-hex16 : (v : ℕ) → count (hex16 v) ≡ 16
unfolding hex16
count-hex16 v = count-hex_loop 16 v ""

pub has_control-hex16 : (v : ℕ) → has_control (hex16 v) ≡ false
unfolding hex16 has_control
has_control-hex16 v = has_control-hex_loop 16 v "" refl
