-- ===== src/Transport/Shm/Ring/Retention.antt =====
-- What readers find in the ring: the newest messages, whatever publications failed in between.
use puppet_master.Base.{
  ℕ, zero, suc, ◌+◌, ◌%◌, ◌^◌, ◌≤◌, ◌<◌, ◌≡◌, refl, sym, subst, ◌∙◌, List, [], ◌∷◌, false, none,
  some, ltb, ◌==◌, if◌then◌else◌, length, get_elem?, set, length-set, get_elem?-set, arith,
  Bool-cases, inl, inr, if_cases, option_cases,
}
use puppet_master.Core.Result.{result_cases, Result, value, failure}
use puppet_master.Transport.Shm.Ring.{
  ShmSlot, Ring, Fill, invoke_fill, publish_locked, publish_with, committed, written, put_slot,
  slot_index, next_sequence,
}

mod_ne : (s t n : ℕ) → s < t → t < s + n → s % n ≡ t % n → t ≡ s
mod_ne s t n lt near same = grind arith

pub get_elem?-set_ne :
    {A : Type 0} (xs : List A) (i j : ℕ) (v : A)
    → (i == j) ≡ false
    → get_elem? (set xs i v) j ≡ get_elem? xs j
get_elem?-set_ne [] i j v ne = refl
get_elem?-set_ne (x ∷ xs) zero zero v ne = absurd (ground arith)
get_elem?-set_ne (x ∷ xs) zero (suc j) v ne = refl
get_elem?-set_ne (x ∷ xs) (suc i) zero v ne = refl
get_elem?-set_ne (x ∷ xs) (suc i) (suc j) v ne = get_elem?-set_ne xs i j v (ground arith)

get_elem?-in :
    {A : Type 0} (xs : List A) (i : ℕ) → i < length xs → (x : A) × (get_elem? xs i ≡ some x)
get_elem?-in [] i h = absurd (omega arith)
get_elem?-in (x ∷ xs) zero h = (x, refl)
get_elem?-in (x ∷ xs) (suc i) h = get_elem?-in xs i (omega arith)

-- The sequence numbers that the ring still has for sure: all but one of the newest.
abbrev pub Recent : Ring → ℕ → Type 0
Recent r s = (1 ≤ s) × (s ≤ r.write_seq) × (r.write_seq + 1 < s + r.slot_count)

-- The ring has every recent message of the history.
pub record Retains (history : ℕ → ShmSlot) (r : Ring) : Type 0 where
  pub full : length r.slots ≡ r.slot_count
  pub some_slot : 0 < r.slot_count
  pub stored : (s : ℕ) → Recent r s → get_elem? r.slots (slot_index s r) ≡ some (history s)
  pub numbered :
      (s : ℕ)
      → Recent r s
      → ((history s).seq ≡ s) × ((history s).payload_size ≤ r.slot_payload_size)

-- A slot that is about to be written is not a recent one.
other_slot :
    (r : Ring) (s : ℕ) → Recent r s → (slot_index (r.write_seq + 1) r == slot_index s r) ≡ false
other_slot r s recent = elim (Bool-cases (slot_index (r.write_seq + 1) r == slot_index s r)) [
  | inr ne ↦ ne
  | inl same ↦ absurd (
      omega (
        arith,
        recent.0,
        recent.1,
        recent.2,
        mod_ne s (r.write_seq + 1) r.slot_count (omega (arith, recent.1)) (omega (arith, recent.2))
            (ground arith),
      ))
]

put_slot-Retains :
    (history : ℕ → ShmSlot) (r : Ring) (slot : ShmSlot)
    → Retains history r
    → Retains history (put_slot (r.write_seq + 1) slot r)
put_slot-Retains history r slot h = record {
  full = length-set r.slots (slot_index (r.write_seq + 1) r) slot ∙ h.full;
  some_slot = h.some_slot;
  stored = λ s recent.
      get_elem?-set_ne r.slots (slot_index (r.write_seq + 1) r) (slot_index s r) slot
        (other_slot r s recent)
      ∙ h.stored s recent;
  numbered = h.numbered;
}

-- The history with one more message.
abbrev pub extend : (ℕ → ShmSlot) → ℕ → ShmSlot → ℕ → ShmSlot
extend history n slot s = if s == n then slot else history s

mod-lt : (a n : ℕ) → 0 < n → a % n < n
mod-lt a n h = grind arith

commit-Retains :
    (history : ℕ → ShmSlot) (r : Ring) (slot : ShmSlot)
    → slot.seq ≡ r.write_seq + 1
    → slot.payload_size ≤ r.slot_payload_size
    → Retains history r
    → Retains
        (extend history (r.write_seq + 1) slot)
        (record (put_slot (r.write_seq + 1) slot r) { write_seq = r.write_seq + 1 })
commit-Retains history r slot named fits h =
    let n = r.write_seq + 1 in
    let before_ = put_slot-Retains history r slot h in
    let older : (s : ℕ) → (s == n) ≡ false → s ≤ n → n + 1 < s + r.slot_count → 1 ≤ s → Recent r s =
      λ s other le near pos_. (pos_, ground arith, omega (arith, near)) in
    let (old, there) =
      get_elem?-in r.slots (slot_index n r)
        (omega (arith, h.full, mod-lt n r.slot_count h.some_slot)) in
    record {
      full = before_.full;
      some_slot = h.some_slot;
      stored = λ s recent. elim (Bool-cases (s == n)) [
        | inl same ↦
            let e : s ≡ n = ground arith in
            rw (same, e) (get_elem?-set r.slots (slot_index n r) slot there)
        | inr other ↦ rw other (before_.stored s (older s other recent.1 recent.2 recent.0))
      ];
      numbered = λ s recent. elim (Bool-cases (s == n)) [
        | inl same ↦ let e : s ≡ n = ground arith in rw same (named ∙ sym e, fits)
        | inr other ↦ rw other (h.numbered s (older s other recent.1 recent.2 recent.0))
      ];
    }

-- What a publication leaves: the ring of before, with one more message if it succeeds, which has
-- the size that was reported, the timestamp and the bytes of the buffer.
abbrev pub Publishes : (ℕ → ShmSlot) → Ring → ℕ → Fill → Result ℕ × Ring → Type 0
Publishes history r timestamp fill result = elim result.0 [
  | failure status ↦ Retains history result.1
  | value n ↦
      (used : ℕ) × (fill.used ≡ value used)
      × (n ≡ r.write_seq + 1)
      × Retains (extend history n (committed n timestamp used fill.buffer)) result.1
]

invoke_fill-reported :
    (capacity used : ℕ) (reported : Result ℕ)
    → invoke_fill capacity reported ≡ value used
    → reported ≡ value used
unfolding invoke_fill
invoke_fill-reported capacity used (failure status) h = ground arith
invoke_fill-reported capacity used (value n) h = ground arith

invoke_fill-le :
    (capacity used : ℕ) (reported : Result ℕ)
    → invoke_fill capacity reported ≡ value used
    → used ≤ capacity
unfolding invoke_fill
invoke_fill-le capacity used (failure status) h = ground arith
invoke_fill-le capacity used (value n) h = ground arith

publish_locked-Retains :
    (history : ℕ → ShmSlot) (r : Ring) (capacity timestamp : ℕ) (fill : Fill)
    → r.write_seq + 1 < 2 ^ 64
    → capacity ≤ r.slot_payload_size
    → Retains history r
    → Publishes history r timestamp fill (publish_locked capacity fill timestamp r)
unfolding publish_locked
publish_locked-Retains history r capacity timestamp fill room fits h =
    let e : next_sequence r.write_seq ≡ r.write_seq + 1 = omega (arith, room) in
    subst
      (λ n. Publishes history r timestamp fill (elim (invoke_fill capacity fill.used) [
        | failure status ↦ (
          failure status,
          elim (get_elem? r.slots (slot_index n r)) [
            | none ↦ r
            | some slot ↦ put_slot n (written n fill.buffer slot) r
          ],
        )
        | value used ↦ (
          value n,
          record (put_slot n (committed n timestamp used fill.buffer) r) { write_seq = n },
        )
      ]))
      (sym e)
      (result_cases (Publishes history r timestamp fill) (invoke_fill capacity fill.used) _ _
        (λ status fails.
          option_cases (Retains history) (get_elem? r.slots (slot_index (r.write_seq + 1) r)) _ _
            (λ out. h) (λ slot at. put_slot-Retains history r _ h))
        (λ used ok. (
          used,
          invoke_fill-reported capacity used fill.used ok,
          refl,
          commit-Retains history r (committed (r.write_seq + 1) timestamp used fill.buffer) refl
              (omega (arith, invoke_fill-le capacity used fill.used ok, fits)) h,
        )))

-- A publication that fails, for whatever reason, leaves every recent message readable; one that
-- succeeds was reported a size, commits a message of the next sequence number with that size, the
-- timestamp and the bytes of the buffer, and keeps the other recent messages, as long as the counter
-- does not wrap.
pub publish_with-Retains :
    (history : ℕ → ShmSlot) (r : Ring) (locked : Result ℕ) (capacity timestamp : ℕ)
    (fill : ℕ → Fill)
    → r.write_seq + 1 < 2 ^ 64
    → Retains history r
    → Publishes history r timestamp (fill capacity) (publish_with locked capacity fill timestamp r)
unfolding publish_with
publish_with-Retains history r locked capacity timestamp fill room h =
    if_cases (Publishes history r timestamp (fill capacity)) (ltb r.slot_payload_size capacity) _ _
      (λ large. h)
      (λ fits.
        result_cases (Publishes history r timestamp (fill capacity)) locked _ _ (λ status fails. h)
          (λ held ok.
            publish_locked-Retains history r capacity timestamp (fill capacity) room (ground arith)
              h))
