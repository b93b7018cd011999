-- ===== src/Transport/Shm/Seqlock/Writing.antt =====
-- What writers keep true of the shared memory.
use puppet_master.Base.{
  ℕ, ◌+◌, ◌%◌, ◌≡◌, ◌≤◌, ◌<◌, refl, sym, ap, subst, ◌∙◌, true, false, ◌==◌, ◌⊎◌, inl, inr, arith,
  Bool-cases, Option-cases, some, get_elem?, get_elem?-set,
}
use puppet_master.Transport.Shm.Ring.{ShmSlot, Ring, slot_index, mark_writing, writing_bit}
use puppet_master.Transport.Shm.Ring.Retention.{get_elem?-set_ne}
use puppet_master.Transport.Shm.Seqlock.{
  Phase, unlocked, filling, sealed, Shared, update_slot, store_seq, store_rest, Write, begins,
  stores, seals, commits, abandons,
}

-- What the slot at an index is after an update: as before, or updated there.
update_slot_cases :
    (f : ShmSlot → ShmSlot) (s i : ℕ) (r : Ring) (slot : ShmSlot)
    → get_elem? (update_slot f s r).slots i ≡ some slot
    → ((get_elem? r.slots i ≡ some slot))
      ⊎ ((old : ShmSlot) × (slot_index s r ≡ i) × (get_elem? r.slots i ≡ some old) × (slot ≡ f old))
unfolding update_slot
update_slot_cases f s i r slot h = elim (Option-cases (get_elem? r.slots (slot_index s r))) [
  | inl out ↦ inl (ground arith)
  | inr (old, there) ↦ elim (Bool-cases (slot_index s r == i)) [
    | inl same ↦
        let e : slot_index s r ≡ i = ground arith in
        inr (
          old,
          e,
          subst (λ j. get_elem? r.slots j ≡ some old) e there,
          ground (arith, h, there, e, get_elem?-set r.slots (slot_index s r) (f old) there),
        )
    | inr other ↦ inl (ground (arith, get_elem?-set_ne r.slots (slot_index s r) i (f old) other))
  ]
]

update_slot-same :
    (f : ShmSlot → ShmSlot) (s : ℕ) (r : Ring)
    → ((update_slot f s r).write_seq ≡ r.write_seq)
      × ((update_slot f s r).slot_count ≡ r.slot_count)
unfolding update_slot
update_slot-same f s r = ground arith

-- The slot of a sequence number.
abbrev pub SlotOf : Ring → ℕ → ShmSlot → Type 0
SlotOf r s slot = get_elem? r.slots (slot_index s r) ≡ some slot

abbrev PhaseOk : Shared → Phase → Type 0
PhaseOk m unlocked = Unit
PhaseOk m (filling s) =
    (s ≡ m.ring.write_seq + 1)
    × (s < writing_bit)
    × ((slot : ShmSlot) → SlotOf m.ring s slot → slot.seq ≡ s + writing_bit)
PhaseOk m (sealed s) = s ≡ m.ring.write_seq + 1

-- A slot whose word names a committed message holds that message.
pub record Consistent (m : Shared) : Type 0 where
  pub agrees :
      (c : ℕ) (slot : ShmSlot)
      → c ≤ m.ring.write_seq
      → SlotOf m.ring c slot
      → slot.seq ≡ c
      → m.history c ≡ slot
  pub phase : PhaseOk m m.phase

-- For a committed message: it stays, and where its slot has its word, the slot is as it was.
pub record Calm (c : ℕ) (m n : Shared) : Type 0 where
  pub newest : m.ring.write_seq ≤ n.ring.write_seq
  pub history : n.history c ≡ m.history c
  pub slot : (slot : ShmSlot) → SlotOf n.ring c slot → slot.seq ≡ c → SlotOf m.ring c slot

module _ (c : ℕ) (m : Shared) (v : Consistent m) (old : c ≤ m.ring.write_seq) where
  -- An update that gives no slot the word `c` is calm.
  update-Calm :
      (f : ShmSlot → ShmSlot) (s : ℕ) (phase : Phase)
      → ((was : ShmSlot) → SlotOf m.ring s was → (f was).seq ≡ c → false ≡ true)
      → Calm c m (record m { ring = update_slot f s m.ring; phase = phase })
  update-Calm f s phase never = record {
    newest = omega (arith, (update_slot-same f s m.ring).0);
    history = refl;
    slot = λ slot at word.
        let count = (update_slot-same f s m.ring).1 in
        elim (update_slot_cases f s (slot_index c m.ring) m.ring slot
          (subst (λ k. get_elem? (update_slot f s m.ring).slots (c % k) ≡ some slot) count at)) [
            | inl before_ ↦ before_
            | inr (was, same, there, updated) ↦ absurd (
                ground (
                  arith,
                  never was (ap (λ i. get_elem? m.ring.slots i) same ∙ there)
                      (ap (λ (x : ShmSlot). x.seq) (sym updated) ∙ word),
                ))
          ];
  }

  pub Write-Calm : {n : Shared} → Write m n → Calm c m n
  Write-Calm (begins free small) =
      update-Calm (store_seq (mark_writing (m.ring.write_seq + 1))) (m.ring.write_seq + 1)
        (filling (m.ring.write_seq + 1)) (λ was at word. ground (arith, word, small, old))
  Write-Calm (stores s timestamp size bytes fills) =
      update-Calm (store_rest timestamp size bytes) s m.phase (λ was at word.
        let ok = subst (PhaseOk m) fills v.phase in ground (arith, ok.2 was at, ok.0, word, old))
  Write-Calm (seals s fills) =
      update-Calm (store_seq s) s (sealed s)
        (λ was at word. let ok = subst (PhaseOk m) fills v.phase in ground (arith, ok.0, word, old))
  Write-Calm (commits s slot seals_ at) =
      let next : s ≡ m.ring.write_seq + 1 = subst (PhaseOk m) seals_ v.phase in
      record {
        newest = omega (arith, next);
        history = ground (arith, next, old);
        slot = λ slot at word. at;
      }
  Write-Calm abandons = record { newest = omega arith; history = refl; slot = λ slot at word. at }

update_slot-at :
    (f : ShmSlot → ShmSlot) (s : ℕ) (r : Ring) (slot : ShmSlot)
    → get_elem? (update_slot f s r).slots (slot_index s r) ≡ some slot
    → (was : ShmSlot) × SlotOf r s was × (slot ≡ f was)
unfolding update_slot
update_slot-at f s r slot h = elim (Option-cases (get_elem? r.slots (slot_index s r))) [
  | inl out ↦ absurd (ground arith)
  | inr (was, there) ↦
      (was, there, ground (arith, h, there, get_elem?-set r.slots (slot_index s r) (f was) there))
]

-- The same in the updated ring, whose count is that of before.
SlotOf-updated :
    (f : ShmSlot → ShmSlot) (s : ℕ) (r : Ring) (slot : ShmSlot)
    → SlotOf (update_slot f s r) s slot
    → (was : ShmSlot) × SlotOf r s was × (slot ≡ f was)
SlotOf-updated f s r slot at = update_slot-at f s r slot (
    subst (λ k. get_elem? (update_slot f s r).slots (s % k) ≡ some slot) (update_slot-same f s r).1
      at)

-- A write that does not commit keeps every committed message.
agrees-Calm :
    (m n : Shared)
    → Consistent m
    → ((c : ℕ) → c ≤ m.ring.write_seq → Calm c m n)
    → (c : ℕ) (slot : ShmSlot) → c ≤ m.ring.write_seq
    → SlotOf n.ring c slot
    → slot.seq ≡ c
    → n.history c ≡ slot
agrees-Calm m n v calm c slot le at word =
    (calm c le).history ∙ v.agrees c slot le ((calm c le).slot slot at word) word

update-Consistent :
    (m : Shared) (f : ShmSlot → ShmSlot) (s : ℕ) (phase : Phase)
    → Consistent m
    → ((c : ℕ)
        → c ≤ m.ring.write_seq
        → Calm c m (record m { ring = update_slot f s m.ring; phase = phase }))
    → PhaseOk (record m { ring = update_slot f s m.ring; phase = phase }) phase
    → Consistent (record m { ring = update_slot f s m.ring; phase = phase })
update-Consistent m f s phase v calm ok = record {
  agrees = λ c slot le at word.
      agrees-Calm m (record m { ring = update_slot f s m.ring; phase = phase }) v calm c slot
        (omega (arith, le, (update_slot-same f s m.ring).0)) at word;
  phase = ok;
}

pub Write-Consistent : {m n : Shared} → Consistent m → Write m n → Consistent n
Write-Consistent {m = m} v (begins free small) =
    let s = m.ring.write_seq + 1 in
    let f = store_seq (mark_writing s) in
    update-Consistent m f s (filling s) v (λ c le. Write-Calm c m v le (begins free small))
      (
        omega (arith, (update_slot-same f s m.ring).0),
        small,
        λ slot at.
            let (was, there, e) = SlotOf-updated f s m.ring slot at in
            ground (arith, small, ap (λ (x : ShmSlot). x.seq) e),
      )
Write-Consistent {m = m} v (stores s timestamp size bytes fills) =
    let ok = subst (PhaseOk m) fills v.phase in
    let f = store_rest timestamp size bytes in
    update-Consistent m f s m.phase v
      (λ c le. Write-Calm c m v le (stores s timestamp size bytes fills))
      (subst (PhaseOk (record m { ring = update_slot f s m.ring })) (sym fills) (
        omega (arith, ok.0, (update_slot-same f s m.ring).0),
        ok.1,
        λ slot at.
            let (was, there, e) = SlotOf-updated f s m.ring slot at in
            ap (λ (x : ShmSlot). x.seq) e ∙ ok.2 was there,
      ))
Write-Consistent {m = m} v (seals s fills) =
    let ok = subst (PhaseOk m) fills v.phase in
    update-Consistent m (store_seq s) s (sealed s) v (λ c le. Write-Calm c m v le (seals s fills))
      (omega (arith, ok.0, (update_slot-same (store_seq s) s m.ring).0))
Write-Consistent {m = m} v (commits s slot0 seals_ at0) =
    let next : s ≡ m.ring.write_seq + 1 = subst (PhaseOk m) seals_ v.phase in
    record {
      agrees = λ c slot le at word. elim (Bool-cases (c == s)) [
        | inl same ↦
            let e : c ≡ s = ground arith in
            let there : SlotOf m.ring s slot = subst (λ k. SlotOf m.ring k slot) e at in
            rw same (ground (arith, there, at0))
        | inr other ↦ rw other (v.agrees c slot (ground (arith, le, next)) at word)
      ];
      phase = tt;
    }
Write-Consistent {m = m} v abandons = record { agrees = v.agrees; phase = tt }
