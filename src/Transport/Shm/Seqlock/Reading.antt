-- ===== src/Transport/Shm/Seqlock/Reading.antt =====
-- A pass that is accepted has copied one committed message, whatever writers did meanwhile.
use puppet_master.Base.{
  ℕ, zero, suc, ◌+◌, ◌≡◌, ◌≤◌, refl, sym, ap, subst, ◌∙◌, List, [], ◌∷◌, ◌++◌, some, get_elem?,
  length, take, arith, length-snoc,
}
use puppet_master.Transport.Shm.Ring.{ShmSlot, Ring}
use puppet_master.Transport.Shm.Seqlock.{
  Shared, Pass, at_seq, at_size, at_timestamp, copying, accepted, Load, loads_seq, loads_size,
  loads_timestamp, copies, accepts, Passes, begun, writes, loads,
}
use puppet_master.Transport.Shm.Seqlock.Writing.{
  SlotOf, Consistent, Calm, Write-Calm, Write-Consistent,
}

-- What was copied is the message of the slot, as far as it goes.
abbrev pub Copied : ShmSlot → ℕ → ℕ → ℕ → List ℕ → Type 0
Copied slot upto size timestamp bytes =
    (size ≡ slot.payload_size)
    × (timestamp ≡ slot.source_timestamp)
    × (bytes ≡ take upto slot.payload)

abbrev PassOk : ℕ → Shared → Pass → Type 0
PassOk c m at_seq = Unit
PassOk c m at_size = Unit
PassOk c m (at_timestamp size) =
    (slot : ShmSlot) → SlotOf m.ring c slot → slot.seq ≡ c → size ≡ slot.payload_size
PassOk c m (copying size timestamp bytes) =
    (slot : ShmSlot)
    → SlotOf m.ring c slot
    → slot.seq ≡ c
    → Copied slot (length bytes) size timestamp bytes
PassOk c m (accepted size timestamp bytes) = Copied (m.history c) size size timestamp bytes

take-suc :
    (n : ℕ) (xs : List ℕ) (x : ℕ) → get_elem? xs n ≡ some x → take (n + 1) xs ≡ take n xs ++ x ∷ []
take-suc n [] x h = ground arith
take-suc zero (y ∷ xs) x h = ground arith
take-suc (suc n) (y ∷ xs) x h = ground (arith, take-suc n xs x h)

-- The slot of the cursor is one.
one_slot : (r : Ring) (c : ℕ) (a b : ShmSlot) → SlotOf r c a → SlotOf r c b → a ≡ b
one_slot r c a b at_a at_b = ground (arith, at_a, at_b)

Calm-PassOk : (c : ℕ) (m n : Shared) (p : Pass) → Calm c m n → PassOk c m p → PassOk c n p
Calm-PassOk c m n at_seq calm ok = tt
Calm-PassOk c m n at_size calm ok = tt
Calm-PassOk c m n (at_timestamp size) calm ok =
    λ slot at word. ok slot (calm.slot slot at word) word
Calm-PassOk c m n (copying size timestamp bytes) calm ok =
    λ slot at word. ok slot (calm.slot slot at word) word
Calm-PassOk c m n (accepted size timestamp bytes) calm ok =
    subst (λ slot. Copied slot size size timestamp bytes) (sym calm.history) ok

Copied-next :
    (slot : ShmSlot) (size timestamp byte : ℕ) (bytes : List ℕ)
    → get_elem? slot.payload (length bytes) ≡ some byte
    → Copied slot (length bytes) size timestamp bytes
    → Copied slot (length (bytes ++ byte ∷ [])) size timestamp (bytes ++ byte ∷ [])
Copied-next slot size timestamp byte bytes at (s, t, copied) = (
  s,
  t,
  ap (λ b. b ++ byte ∷ []) copied
      ∙ sym (take-suc (length bytes) slot.payload byte at)
      ∙ ap (λ n. take n slot.payload) (omega (arith, length-snoc bytes byte)),
)

Load-PassOk :
    (c : ℕ) (m : Shared) {p q : Pass}
    → Consistent m
    → c ≤ m.ring.write_seq
    → Load c m p q
    → PassOk c m p
    → PassOk c m q
Load-PassOk c m v le (loads_seq slot at word) ok = tt
Load-PassOk c m v le (loads_size slot at) ok =
    λ slot' at' word. ap (λ (x : ShmSlot). x.payload_size) (one_slot m.ring c slot slot' at at')
Load-PassOk c m v le (loads_timestamp size slot at fits) ok = λ slot' at' word. (
  ok slot' at' word,
  ap (λ (x : ShmSlot). x.source_timestamp) (one_slot m.ring c slot slot' at at'),
  refl,
)
Load-PassOk c m v le (copies size timestamp byte bytes slot at next_ more) ok = λ slot' at' word.
    Copied-next slot' size timestamp byte bytes
      (subst (λ (x : ShmSlot). get_elem? x.payload (length bytes) ≡ some byte)
        (one_slot m.ring c slot slot' at at') next_)
      (ok slot' at' word)
Load-PassOk c m v le (accepts size timestamp bytes slot at word full) ok =
    let (s, t, copied) = ok slot at word in
    subst (λ slot. Copied slot size size timestamp bytes) (sym (v.agrees c slot le at word))
      (s, t, subst (λ n. bytes ≡ take n slot.payload) full copied)

-- What holds along a pass.
record Ongoing (c : ℕ) (start m : Shared) (p : Pass) : Type 0 where
  pub consistent : Consistent m
  pub newest : c ≤ m.ring.write_seq
  pub history : m.history c ≡ start.history c
  pub ok : PassOk c m p

Passes-Ongoing :
    (c : ℕ) (start : Shared)
    → Consistent start
    → c ≤ start.ring.write_seq
    → {m : Shared} {p : Pass} → Passes c start m p
    → Ongoing c start m p
Passes-Ongoing c start v le begun = record { consistent = v; newest = le; history = refl; ok = tt }
Passes-Ongoing c start v le (writes {m = m} {n = n} {p = p} before_ w) =
    let o = Passes-Ongoing c start v le before_ in
    let calm = Write-Calm c m o.consistent o.newest w in
    record {
      consistent = Write-Consistent o.consistent w;
      newest = omega (arith, o.newest, calm.newest);
      history = calm.history ∙ o.history;
      ok = Calm-PassOk c m n p calm o.ok;
    }
Passes-Ongoing c start v le (loads {m = m} before_ load) =
    let o = Passes-Ongoing c start v le before_ in
    record {
      consistent = o.consistent;
      newest = o.newest;
      history = o.history;
      ok = Load-PassOk c m o.consistent o.newest load o.ok;
    }

-- No torn reads: when a pass over a message that was committed before it began is accepted, its size,
-- its time stamp and all its bytes are those that were committed, however the stores of writers,
-- their failures and their deaths fall between the reader's loads.
pub accepted-Copied :
    (c : ℕ) (start m : Shared) (size timestamp : ℕ) (bytes : List ℕ)
    → Consistent start
    → c ≤ start.ring.write_seq
    → Passes c start m (accepted size timestamp bytes)
    → Copied (start.history c) size size timestamp bytes
accepted-Copied c start m size timestamp bytes v le run =
    let o = Passes-Ongoing c start v le run in
    subst (λ slot. Copied slot size size timestamp bytes) o.history o.ok
