-- ===== src/Service/Envelope/Numbers.antt =====
-- src/service/service.cpp: the numbers of a header and their bytes.
use puppet_master.Base.{
  ℕ, zero, suc, ◌+◌, ◌*◌, ◌/◌, ◌%◌, ◌^◌, ◌<◌, ◌≤◌, List, [], ◌∷◌, ◌++◌, length, true, take, drop,
  all, ltb, arith, ◌≡◌, refl, ap, All,
}
use puppet_master.Base.Int.{ℤ, pos, negsuc}
use puppet_master.Core.Status.{StatusCode}
use puppet_master.Transport.Recording.Bytes.{put_le, get_le}
use puppet_master.Transport.Recording.Laws.{get_le-put_le}
use puppet_master.Service.Envelope.{
  Header, put_u16, get_u16, status_number, status_code_of, to_unsigned, to_signed,
}

-- A signed 64-bit number.
abbrev pub IsInt64 : ℤ → Type 0
IsInt64 (pos n) = n < 2 ^ 63
IsInt64 (negsuc n) = n < 2 ^ 63

pub record IsHeader (h : Header) : Type 0 where
  pub magic : h.magic < 2 ^ 32
  pub client_id : h.client_id < 2 ^ 64
  pub request_id : h.request_id < 2 ^ 64
  pub budget_ns : IsInt64 h.budget_ns

abbrev pub AreBytes : List ℕ → Type 0
AreBytes bytes = All (λ b. b < 256) bytes

-- The test of a message's bytes.
pub AreBytes-all : (bytes : List ℕ) → all (λ b. ltb b 256) bytes ≡ true → AreBytes bytes
AreBytes-all [] h = tt
AreBytes-all (b ∷ bytes) h = (ground arith, AreBytes-all bytes (ground arith))

pub status_code_of-status_number : (c : StatusCode) → status_code_of (status_number c) ≡ c
unfolding status_code_of status_number
status_code_of-status_number StatusCode.ok = refl
status_code_of-status_number StatusCode.cancelled = refl
status_code_of-status_number StatusCode.unknown = refl
status_code_of-status_number StatusCode.invalid_argument = refl
status_code_of-status_number StatusCode.not_found = refl
status_code_of-status_number StatusCode.already_exists = refl
status_code_of-status_number StatusCode.failed_precondition = refl
status_code_of-status_number StatusCode.out_of_range = refl
status_code_of-status_number StatusCode.permission_denied = refl
status_code_of-status_number StatusCode.resource_exhausted = refl
status_code_of-status_number StatusCode.unsupported = refl
status_code_of-status_number StatusCode.unavailable = refl
status_code_of-status_number StatusCode.deadline_exceeded = refl
status_code_of-status_number StatusCode.data_loss = refl
status_code_of-status_number StatusCode.internal = refl

pub to_signed-to_unsigned : (b : ℤ) → IsInt64 b → to_signed (to_unsigned b) ≡ b
unfolding to_signed to_unsigned
to_signed-to_unsigned (pos n) h = ground arith
to_signed-to_unsigned (negsuc n) h = ground arith

pub to_unsigned-to_signed : (n : ℕ) → n < 2 ^ 64 → to_unsigned (to_signed n) ≡ n
unfolding to_signed to_unsigned
to_unsigned-to_signed n h = ground arith

pub to_signed-IsInt64 : (n : ℕ) → n < 2 ^ 64 → IsInt64 (to_signed n)
unfolding to_signed
to_signed-IsInt64 n h = ground arith

pub status_number-status_code_of : (n : ℕ) → n ≤ 14 → status_number (status_code_of n) ≡ n
unfolding status_code_of status_number
status_number-status_code_of n h = ground arith

pub status_number-le : (c : StatusCode) → status_number c ≤ 14
unfolding status_number
status_number-le StatusCode.ok = omega arith
status_number-le StatusCode.cancelled = omega arith
status_number-le StatusCode.unknown = omega arith
status_number-le StatusCode.invalid_argument = omega arith
status_number-le StatusCode.not_found = omega arith
status_number-le StatusCode.already_exists = omega arith
status_number-le StatusCode.failed_precondition = omega arith
status_number-le StatusCode.out_of_range = omega arith
status_number-le StatusCode.permission_denied = omega arith
status_number-le StatusCode.resource_exhausted = omega arith
status_number-le StatusCode.unsupported = omega arith
status_number-le StatusCode.unavailable = omega arith
status_number-le StatusCode.deadline_exceeded = omega arith
status_number-le StatusCode.data_loss = omega arith
status_number-le StatusCode.internal = omega arith

pub to_unsigned-lt : (b : ℤ) → to_unsigned b < 2 ^ 64
unfolding to_unsigned
to_unsigned-lt (pos n) = omega arith
to_unsigned-lt (negsuc n) = omega arith

-- What is read is what is there, byte for byte.
pub put_le-get_le :
    (n : ℕ) (bytes : List ℕ)
    → AreBytes bytes
    → n ≤ length bytes
    → put_le n (get_le n bytes) ≡ take n bytes
unfolding put_le get_le
put_le-get_le zero bytes h le = refl
put_le-get_le (suc n) [] h le = absurd (omega arith)
put_le-get_le (suc n) (b ∷ bytes) (hb, h) le =
    let low : (get_le n bytes * 256 + b) % 256 ≡ b = omega arith in
    let high : (get_le n bytes * 256 + b) / 256 ≡ get_le n bytes = omega arith in
    rw (low, high, put_le-get_le n bytes h (omega arith)) refl

pub get_le-lt : (n : ℕ) (bytes : List ℕ) → AreBytes bytes → get_le n bytes < 256 ^ n
unfolding get_le
get_le-lt zero bytes h = omega arith
get_le-lt (suc n) [] h = omega (arith, get_le-lt n [] tt)
get_le-lt (suc n) (b ∷ bytes) (hb, h) = omega (arith, get_le-lt n bytes h)

pub AreBytes-drop : (n : ℕ) (bytes : List ℕ) → AreBytes bytes → AreBytes (drop n bytes)
AreBytes-drop zero bytes h = h
AreBytes-drop (suc n) [] h = tt
AreBytes-drop (suc n) (b ∷ bytes) (_, h) = AreBytes-drop n bytes h

-- A field is what is put for the number that is got from it.
pub put_le-field :
    (n j : ℕ) (bytes : List ℕ)
    → AreBytes bytes
    → j + n ≤ length bytes
    → put_le n (get_le n (drop j bytes)) ++ drop (j + n) bytes ≡ drop j bytes
put_le-field n zero bytes h le =
    let start : 0 + n ≡ n = omega arith in
    rw (start, put_le-get_le n bytes h (omega (arith, le))) (take-drop n bytes)
  where
    take-drop : (n : ℕ) (bytes : List ℕ) → take n bytes ++ drop n bytes ≡ bytes
    take-drop zero bytes = refl
    take-drop (suc n) [] = refl
    take-drop (suc n) (b ∷ bytes) = ap (λ l. b ∷ l) (take-drop n bytes)
put_le-field n (suc j) [] h le = absurd (omega arith)
put_le-field n (suc j) (b ∷ bytes) (_, h) le =
    let step : suc j + n ≡ suc (j + n) = omega arith in
    rw step (put_le-field n j bytes h (omega arith))

pub get_u16-put : (v : ℕ) (rest : List ℕ) → v < 2 ^ 16 → get_u16 (put_u16 v ++ rest) ≡ v
unfolding get_u16 put_u16
get_u16-put v rest h = get_le-put_le 2 v rest h
