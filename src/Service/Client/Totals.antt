-- ===== src/Service/Client/Totals.antt =====
-- src/service/service.cpp: how often a callback stands among calls, completions and threads.
use puppet_master.Base.{
  ℕ, ◌+◌, ◌≤◌, ◌<◌, List, [], ◌∷◌, some, Bool, ltb, leb, ◌==◌, not, arith, ◌≡◌, refl, All, if_both,
}
pub use puppet_master.Base.{total, total-append, total-set, total-erase_idx, one_if}
use puppet_master.Service.Spec.{ServiceSpec}
use puppet_master.Service.Client.Calls.{
  Pending, Completion, find, erase, emplace_call, expire_calls, cancel_calls,
}
use puppet_master.Service.Client.System.{Starting, Place, seeking, matching, sending}

-- Whether a callback is that of a pending call, of a completion, or of a thread that still has it.
module _ (t : ℕ) where
  abbrev pub in_call : ℕ × Pending → ℕ
  in_call e = one_if (e.1.callback == t)

  abbrev pub in_completion : Completion → ℕ
  in_completion c = one_if (c.callback == t)

  abbrev pub in_place : Pending → Place → ℕ
  in_place p (sending id) = 0
  in_place p seeking = one_if (p.callback == t)
  in_place p matching = one_if (p.callback == t)

  abbrev pub in_thread : Starting → ℕ
  in_thread f = in_place f.call f.place

  abbrev pub in_start : ℕ → ℕ
  in_start callback = one_if (callback == t)

abbrev pub UpTo : ℕ → List (ℕ × Pending) → Type 0
UpTo n calls = All (λ e. e.0 ≤ n) calls

-- A call whose request is being sent is among those that were numbered.
abbrev pub PlaceUpTo : ℕ → Place → Type 0
PlaceUpTo n (sending id) = id ≤ n
PlaceUpTo n seeking = Unit
PlaceUpTo n matching = Unit

abbrev pub SentUpTo : ℕ → Starting → Type 0
SentUpTo n f = PlaceUpTo n f.place

pub SentUpTo-le : (n m : ℕ) (fs : List Starting) → n ≤ m → All (SentUpTo n) fs → All (SentUpTo m) fs
SentUpTo-le n m [] le h = tt
SentUpTo-le n m (f ∷ fs) le (hf, h) = (one f.place hf, SentUpTo-le n m fs le h)
  where
    one : (place : Place) → PlaceUpTo n place → PlaceUpTo m place
    one (sending id) h = omega arith
    one seeking h = tt
    one matching h = tt

pub UpTo-le : (n m : ℕ) (calls : List (ℕ × Pending)) → n ≤ m → UpTo n calls → UpTo m calls
UpTo-le n m [] le h = tt
UpTo-le n m ((j, p) ∷ calls) le (hj, h) = (omega arith, UpTo-le n m calls le h)

pub UpTo-erase : (n id : ℕ) (calls : List (ℕ × Pending)) → UpTo n calls → UpTo n (erase id calls)
unfolding erase
UpTo-erase n id [] h = tt
UpTo-erase n id ((j, p) ∷ calls) (hj, h) =
    if_both (UpTo n) (j == id) calls ((j, p) ∷ erase id calls) h (hj, UpTo-erase n id calls h)

pub UpTo-emplace_call :
    (n id : ℕ) (p : Pending) (calls : List (ℕ × Pending))
    → id ≤ n
    → UpTo n calls
    → UpTo n (emplace_call id p calls)
unfolding emplace_call
UpTo-emplace_call n id p [] le h = (le, tt)
UpTo-emplace_call n id p ((j, q) ∷ calls) le (hj, h) =
    if_both (UpTo n) (j == id) _ _ (hj, h)
      (if_both (UpTo n) (ltb id j) _ _ (le, (hj, h)) (hj, UpTo-emplace_call n id p calls le h))

pub UpTo-expire_calls :
    (n : ℕ) (spec : ServiceSpec) (alive : Bool) (now : ℕ) (calls : List (ℕ × Pending))
    → UpTo n calls
    → UpTo n (expire_calls spec alive now calls).0
unfolding expire_calls
UpTo-expire_calls n spec alive now [] h = tt
UpTo-expire_calls n spec alive now ((j, p) ∷ calls) (hj, h) =
    let rest = UpTo-expire_calls n spec alive now calls h in
    if_both (λ (r : List (ℕ × Pending) × List Completion). UpTo n r.0) (not alive) _ _ rest
      (if_both (λ (r : List (ℕ × Pending) × List Completion). UpTo n r.0) (leb p.deadline now) _ _
        rest (hj, rest))

module _ (t : ℕ) where
  pub total-erase :
      (id : ℕ) (p : Pending) (calls : List (ℕ × Pending))
      → find id calls ≡ some p
      → total (in_call t) (erase id calls) + one_if (p.callback == t) ≡ total (in_call t) calls
  unfolding find erase
  total-erase id p [] h = cc
  total-erase id p ((j, q) ∷ calls) h = ground (arith, total-erase id p calls)

  pub total-emplace_call :
      (n id : ℕ) (p : Pending) (calls : List (ℕ × Pending))
      → n < id
      → UpTo n calls
      → total (in_call t) (emplace_call id p calls)
        ≡ one_if (p.callback == t) + total (in_call t) calls
  unfolding emplace_call
  total-emplace_call n id p [] lt h = omega arith
  total-emplace_call n id p ((j, q) ∷ calls) lt (hj, h) =
      ground (arith, total-emplace_call n id p calls lt h)

  pub total-expire_calls :
      (spec : ServiceSpec) (alive : Bool) (now : ℕ) (calls : List (ℕ × Pending))
      → total (in_call t) (expire_calls spec alive now calls).0
          + total (in_completion t) (expire_calls spec alive now calls).1
        ≡ total (in_call t) calls
  unfolding expire_calls
  total-expire_calls spec alive now [] = refl
  total-expire_calls spec alive now ((j, p) ∷ calls) =
      ground (arith, total-expire_calls spec alive now calls)

  pub total-cancel_calls :
      (spec : ServiceSpec) (calls : List (ℕ × Pending))
      → total (in_completion t) (cancel_calls spec calls) ≡ total (in_call t) calls
  unfolding cancel_calls
  total-cancel_calls spec [] = refl
  total-cancel_calls spec ((j, p) ∷ calls) = omega (arith, total-cancel_calls spec calls)
