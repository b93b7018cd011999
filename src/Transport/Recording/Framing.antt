-- ===== src/Transport/Recording/Framing.antt =====
-- src/transport/recording.cpp, one round of `Next`: a whole record is read, one cut off ends the
-- recording.
use mathlib.Core.List.{append_assoc, append-nil}
use puppet_master.Base.{
  ℕ, zero, suc, ◌+◌, ◌^◌, ◌≤◌, ◌<◌, min, String, List, [], ◌∷◌, ◌++◌, length, length-append, true,
  false, not, inl, inr, Bool-cases, ltb, ◌==◌, take, drop, arith, ◌≡◌, refl, ap,
}
use puppet_master.Transport.Recording.Bytes.{put_u32, get_u32}
use puppet_master.Transport.Recording.Laws.{
  get_u32-put, length-put_u32, take-append, drop-append, take-append_eq, drop-append_eq,
}
use puppet_master.Transport.Recording.Types.{RecordedTopic}
use puppet_master.Transport.Recording.Reader.{Reader, stopped, body_of, read_record}
use puppet_master.Transport.Recording.Entries.{record_bytes, Torn}

pub length-take {ℓ} : {A : Type ℓ} (n : ℕ) (xs : List A) → length (take n xs) ≡ min n (length xs)
length-take zero xs = ground arith
length-take (suc n) [] = ground arith
length-take (suc n) (x ∷ xs) = ground (arith, length-take n xs)

pub take-append_left {ℓ} :
    {A : Type ℓ} (n : ℕ) (xs ys : List A) → n ≤ length xs → take n (xs ++ ys) ≡ take n xs
take-append_left zero xs ys h = refl
take-append_left (suc n) [] ys h = absurd (omega arith)
take-append_left (suc n) (x ∷ xs) ys h = ap (λ l. x ∷ l) (take-append_left n xs ys (omega arith))

-- A reader in the middle of a file of `size` bytes.
abbrev pub reader_at : String → ℕ → List RecordedTopic → ℕ → List ℕ → Reader
reader_at path size topics position input = record {
  path = path;
  input = input;
  topics = topics;
  file_size = size;
  position = position;
  truncated = false;
  ended = false;
}

header : ℕ → List ℕ → List ℕ
header kind body = put_u32 kind ++ put_u32 (length body)

length-header : (kind : ℕ) (body : List ℕ) → length (header kind body) ≡ 8
unfolding header
length-header kind body = omega (
  arith,
  length-append (put_u32 kind) (put_u32 (length body)),
  length-put_u32 kind,
  length-put_u32 (length body),
)

kind-header : (kind : ℕ) (body : List ℕ) → kind < 2 ^ 32 → get_u32 (header kind body) ≡ kind
unfolding header
kind-header kind body h = get_u32-put kind (put_u32 (length body)) h

size-header :
    (kind : ℕ) (body : List ℕ)
    → length body < 2 ^ 32
    → get_u32 (drop 4 (header kind body)) ≡ length body
unfolding header
size-header kind body h =
    rw (drop-append_eq 4 (put_u32 kind) (put_u32 (length body)) (length-put_u32 kind))
      (rw (append-nil (put_u32 (length body))) at (get_u32-put (length body) [] h))

pub length-record_bytes :
    (kind : ℕ) (body : List ℕ) → length (record_bytes kind body) ≡ 8 + length body
unfolding record_bytes header
length-record_bytes kind body =
    omega
      (arith, length-append (put_u32 kind ++ put_u32 (length body)) body, length-header kind body)

record_bytes_split :
    (kind : ℕ) (body rest : List ℕ)
    → record_bytes kind body ++ rest ≡ header kind body ++ (body ++ rest)
unfolding record_bytes header
record_bytes_split kind body rest = append_assoc (put_u32 kind ++ put_u32 (length body)) body rest

record_bytes_split_alone :
    (kind : ℕ) (body : List ℕ) → record_bytes kind body ≡ header kind body ++ body
unfolding record_bytes header
record_bytes_split_alone kind body = refl

module _ (path : String) (size : ℕ) (topics : List RecordedTopic) (position : ℕ) where
  pub read_record-record_bytes :
      (kind : ℕ) (body rest : List ℕ)
      → kind < 2 ^ 32
      → length body < 2 ^ 32
      → position + length (record_bytes kind body ++ rest) ≡ size
      → read_record (reader_at path size topics position (record_bytes kind body ++ rest))
        ≡ body_of kind body (reader_at path size topics (position + 8 + length body) rest)
  unfolding read_record
  read_record-record_bytes kind body rest hk hb hs =
      rw
        (
          record_bytes_split kind body rest,
          take-append_eq 8 (header kind body) (body ++ rest) (length-header kind body),
          drop-append_eq 8 (header kind body) (body ++ rest) (length-header kind body),
          kind-header kind body hk,
          size-header kind body hb,
          take-append body rest,
          drop-append body rest,
          length-header kind body,
        )
        (ground (arith, length-append (record_bytes kind body) rest, length-record_bytes kind body))

  -- What is left of a record that was cut off ends the recording.
  pub read_record-Torn :
      (junk : List ℕ)
      → Torn junk
      → position + length junk ≡ size
      → (r : Reader) × (read_record (reader_at path size topics position junk) ≡ stopped r)
        × (r.topics ≡ topics)
        × (r.truncated ≡ not (length junk == 0))
  unfolding read_record
  read_record-Torn junk t hs = elim (Bool-cases (ltb (length junk) 8)) [
    | inl short ↦
        let r : Reader = record (reader_at path size topics position (drop 8 junk)) {
          truncated = not (length junk == 0);
          ended = true;
        } in
        (r, ground (arith, length-take 8 junk), refl, refl)
    | inr long ↦
        let r : Reader = record (reader_at path size topics (position + 8) (drop 8 junk)) {
          truncated = true;
          ended = true;
        } in
        let enough : 8 ≤ length junk = ground arith in
        let whole : take 8 junk ≡ header t.kind t.body =
          rw
            (
              ← take-append_left 8 junk t.missing enough,
              t.parts,
              record_bytes_split_alone t.kind t.body,
              take-append_eq 8 (header t.kind t.body) t.body (length-header t.kind t.body),
            )
            refl in
        let all_ : length junk + length t.missing ≡ 8 + length t.body =
          rw (← length-append junk t.missing, t.parts) (length-record_bytes t.kind t.body) in
        let missing = t.some_missing in
        (
          r,
          rw (whole, size-header t.kind t.body t.size_fits, length-header t.kind t.body)
              (ground (arith, all_, missing)),
          refl,
          ground arith,
        )
  ]
