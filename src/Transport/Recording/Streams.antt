-- ===== src/Transport/Recording/Streams.antt =====
-- src/transport/recording.cpp, Emit: a record is written whole, or cut off and no longer reported good.
use mathlib.Core.List.{append_assoc, append-nil}
use puppet_master.Base.{
  ℕ, zero, suc, ◌+◌, ◌-◌, ◌^◌, ◌<◌, List, [], ◌∷◌, ◌++◌, length, length-append, Bool, true, false,
  not, leb, ltb, ◌==◌, if◌then◌else◌, take, drop, min, Bool-cases, inl, inr, arith, ◌≡◌, refl, sym,
  ◌∙◌, ap,
}
use puppet_master.Core.Status.{Status, ok_status, is_ok}
use puppet_master.Transport.Recording.Bytes.{put_u32}
use puppet_master.Transport.Recording.Types.{max_record_size}
use puppet_master.Transport.Recording.Writer.{
  OutStream, stream_write, put_record, Writer, failed, emit,
}
use puppet_master.Transport.Recording.Entries.{record_bytes}

pub take-drop {ℓ} : {A : Type ℓ} (n : ℕ) (xs : List A) → take n xs ++ drop n xs ≡ xs
take-drop zero xs = refl
take-drop (suc n) [] = refl
take-drop (suc n) (x ∷ xs) = ap (λ l. x ∷ l) (take-drop n xs)

pub length-drop {ℓ} : {A : Type ℓ} (n : ℕ) (xs : List A) → length (drop n xs) ≡ length xs - n
length-drop zero xs = omega arith
length-drop (suc n) [] = omega arith
length-drop (suc n) (x ∷ xs) = omega (arith, length-drop n xs)

-- What became of `bytes` that were put behind `before`: all or a part of them was written.
pub data Put (before bytes : List ℕ) (o : OutStream) : Type 0 where
  whole : o.good ≡ true → o.contents ≡ before ++ bytes → Put before bytes o
  cut :
      (front missing : List ℕ)
      → o.good ≡ false
      → o.contents ≡ before ++ front
      → front ++ missing ≡ bytes
      → 0 < length missing
      → Put before bytes o

pub stream_write-Put :
    (bytes : List ℕ) (o : OutStream) → o.good ≡ true → Put o.contents bytes (stream_write bytes o)
unfolding stream_write
stream_write-Put [] o g = rw g (whole refl (sym (append-nil o.contents)))
stream_write-Put (b ∷ bs) o g =
    let bytes = b ∷ bs in
    let total = length o.contents + length bytes in
    let rest = o.room - length o.contents in
    let some_ : (length bytes == 0) ≡ false = ground arith in
    elim (Bool-cases (leb (min total (o.buffering o.stored total)) o.room)) [
      | inl fits ↦ rw (g, some_, fits) (whole refl refl)
      | inr over ↦
          rw (g, some_, over)
            (cut (take rest bytes) (drop rest bytes) refl refl (take-drop rest bytes)
              (rw (length-drop rest bytes) (ground arith)))
    ]

stream_write_bad : (bytes : List ℕ) (o : OutStream) → o.good ≡ false → stream_write bytes o ≡ o
unfolding stream_write
stream_write_bad bytes o g = rw g refl

-- Two writes are one of both parts.
Put-stream_write :
    (before a b : List ℕ) (o : OutStream) → Put before a o → Put before (a ++ b) (stream_write b o)
Put-stream_write before a b o (whole g e) = elim (stream_write-Put b o g) [
  | whole g' e' ↦ whole g' (e' ∙ rw e (append_assoc before a b))
  | cut front missing g' e' parts some_ ↦
      cut (a ++ front) missing g' (e' ∙ rw e (append_assoc before a front))
        (append_assoc a front missing ∙ ap (λ l. a ++ l) parts) some_
]
Put-stream_write before a b o (cut front missing g e parts some_) = rw (stream_write_bad b o g) (
    cut front (missing ++ b) g e (sym (append_assoc front missing b) ∙ ap (λ l. l ++ b) parts)
      (omega (arith, length-append missing b)))

-- What a call of `Emit` does.
pub data Emitted (kind : ℕ) (body : List ℕ) (w : Writer) : Writer × Status → Type 0 where
  refused : (s : Status) → is_ok s ≡ false → Emitted kind body w (w, s)
  done :
      (o : OutStream) (s : Status)
      → w.out.good ≡ true
      → length body < 2 ^ 32
      → Put w.out.contents (record_bytes kind body) o
      → is_ok s ≡ o.good
      → Emitted kind body w (record w { out = o }, s)

if_same {ℓ} : {A : Type ℓ} (b : Bool) (x : A) → (if b then x else x) ≡ x
if_same true x = refl
if_same false x = refl

put_record_bad :
    (kind : ℕ) (body tail : List ℕ) (o : OutStream)
    → o.good ≡ false
    → put_record kind body tail o ≡ o
unfolding put_record
put_record_bad kind body tail o g =
    rw
      (
        stream_write_bad (put_u32 kind ++ put_u32 (length body + length tail)) o g,
        stream_write_bad body o g,
        stream_write_bad tail o g,
      )
      (if_same (not (length tail == 0)) o)

is_ok-failed :
    (good : Bool) (w : Writer) → is_ok (if good then ok_status else failed "writing" w) ≡ good
is_ok-failed true w = refl
is_ok-failed false w = refl

empty_of_length : (xs : List ℕ) → not (length xs == 0) ≡ false → xs ≡ []
empty_of_length [] h = refl
empty_of_length (x ∷ xs) h = ground arith

put_record-Put :
    (kind : ℕ) (body tail : List ℕ) (o : OutStream)
    → o.good ≡ true
    → Put o.contents (record_bytes kind (body ++ tail)) (put_record kind body tail o)
unfolding put_record record_bytes
put_record-Put kind body tail o g =
    let head = put_u32 kind ++ put_u32 (length body + length tail) in
    let bodied =
      Put-stream_write o.contents head body (stream_write head o) (stream_write-Put head o g) in
    elim (Bool-cases (not (length tail == 0))) [
      | inl more ↦
          rw (more, length-append body tail, ← append_assoc head body tail)
            (Put-stream_write o.contents (head ++ body) tail
              (stream_write body (stream_write head o)) bodied)
      | inr none_ ↦
          rw (none_, length-append body tail, empty_of_length tail none_, append-nil body)
            (Put-stream_write o.contents (put_u32 kind ++ put_u32 (length body + 0)) body _
              (stream_write-Put _ o g))
    ]

pub emit-Emitted :
    (kind : ℕ) (body tail : List ℕ) (w : Writer)
    → Emitted kind (body ++ tail) w (emit kind body tail w)
unfolding emit
emit-Emitted kind body tail w = elim (Bool-cases w.closed) [
  | inl closed ↦ rw closed (refused _ refl)
  | inr opened ↦ elim (Bool-cases (ltb max_record_size (length body + length tail))) [
    | inl large ↦ rw (opened, large) (refused _ refl)
    | inr fits ↦ elim (Bool-cases w.out.good) [
      | inl good ↦
          rw (opened, fits)
            (done (put_record kind body tail w.out) _ good (ground (arith, length-append body tail))
              (put_record-Put kind body tail w.out good)
              (is_ok-failed (put_record kind body tail w.out).good w))
      | inr bad ↦ rw (opened, fits, put_record_bad kind body tail w.out bad, bad) (refused _ refl)
    ]
  ]
]
