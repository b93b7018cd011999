-- ===== src/Service/Client/Late.antt =====
-- src/service/service.cpp: a call that is registered behind Close.
use native.Mathlib.Nat.{mod-eq_of_lt}
use puppet_master.Base.{
  All-erase_idx, ℕ, zero, suc, ◌+◌, ◌≤◌, ◌<◌, ◌^◌, List, [], ◌∷◌, some, false, arith, ◌≡◌, refl, ap,
  subst, get_elem?, set, erase_idx, All,
}
use puppet_master.Core.Result.{Result}
use puppet_master.Service.Spec.{ServiceSpec}
use puppet_master.Service.Client.Calls.{find, register_call, Await, await_reader, unmatched}
use puppet_master.Service.Client.System.{Threads, Reaches, Follows, Starting, matching, after_match}
use puppet_master.Service.Client.Once.{Reaches-Inv_once}
use puppet_master.Service.Client.Totals.{PlaceUpTo, SentUpTo}
use puppet_master.Service.Client.Lost.{find-emplace_call, IsOver, NotSending, Lost, run-Lost}

NotSending-new : (n : ℕ) (fs : List Starting) → All (SentUpTo n) fs → All (NotSending (n + 1)) fs
NotSending-new n [] h = tt
NotSending-new n (f ∷ fs) (hf, h) = (
  λ e. let sent : n + 1 ≤ n = subst (PlaceUpTo n) e hf in omega (arith, sent),
  NotSending-new n fs h,
)

erase_idx-set {ℓ} :
    {A : Type ℓ} (xs : List A) (i : ℕ) (y : A) → erase_idx (set xs i y) i ≡ erase_idx xs i
erase_idx-set [] i y = refl
erase_idx-set (x ∷ xs) zero y = refl
erase_idx-set (x ∷ xs) (suc i) y = ap (λ l. x ∷ l) (erase_idx-set xs i y)

-- The states in which the call of a thread is registered, and in which its request was then sent.
abbrev registered : ℕ → Starting → Threads → Threads
registered i f s = after_match i f Await.ready s

abbrev pub sent_at : ℕ → Threads → Threads
sent_at i s = record s { starting = erase_idx s.starting i }

module _ {spec : ServiceSpec} {client_id : ℕ} {s : Threads} (r : Reaches spec client_id s) where
  registered-Lost :
      (i : ℕ) (f : Starting)
      → IsOver s
      → s.client.next_request + 1 < 2 ^ 64
      → Lost (s.client.next_request + 1) f.call (sent_at i (registered i f s))
  unfolding after_match register_call
  registered-Lost i f over small =
      let inv = (Reaches-Inv_once r).0 in
      let n = s.client.next_request in
      rw (mod-eq_of_lt small) (record {
        over = record {
          closed = over.closed;
          closing = over.closing;
          dispatcher = over.dispatcher;
        };
        found = find-emplace_call n (n + 1) f.call s.client.pending (omega arith) inv.numbered;
        threads = rw (erase_idx-set s.starting i _) (
            All-erase_idx (NotSending (n + 1)) s.starting i (NotSending-new n s.starting inv.sent));
        below = omega arith;
      })

  await_reader-ready :
      (f : Starting) (now : ℕ) (matched : Result ℕ)
      → unmatched matched ≡ false
      → await_reader f.may_wait f.call.deadline now matched s.client ≡ Await.ready
  unfolding await_reader
  await_reader-ready f now matched there = rw there refl

  -- When `Close` has returned and the dispatcher has ended while a thread still waits for a reader of
  -- its request, and then sees one and sends the request, its call is among the pending ones in that
  -- state and in every one that may follow.
  pub Reaches-late :
      (i : ℕ) (f : Starting) (now : ℕ) (matched : Result ℕ) (t : Threads)
      → IsOver s
      → get_elem? s.starting i ≡ some f
      → f.place ≡ matching
      → unmatched matched ≡ false
      → s.client.next_request + 1 < 2 ^ 64
      → Follows
          (sent_at i
            (after_match i f (await_reader f.may_wait f.call.deadline now matched s.client) s))
          t
      → find (s.client.next_request + 1) t.client.pending ≡ some f.call
  Reaches-late i f now matched t over at place there small run =
      let run' : Follows (sent_at i (registered i f s)) t =
        subst (λ round. Follows (sent_at i (after_match i f round s)) t)
          (await_reader-ready f now matched there) run in
      (run-Lost _ f.call run' (registered-Lost i f over small)).found
