-- ===== src/Service/Client/Balance.antt =====
-- src/service/service.cpp: where the callback of a call is, from its start to its completion.
use native.Mathlib.Nat.{mod-eq_of_lt}
use puppet_master.Base.{
  ℕ, ◌+◌, ◌<◌, ◌^◌, ◌%◌, List, [], Option, none, some, false, ◌==◌, arith, ◌≡◌, refl, All,
  get_elem?, if_both,
}
use puppet_master.Core.Status.{Status}
use puppet_master.Service.Envelope.{Header, decode, reply_magic}
use puppet_master.Service.Client.Calls.{
  Pending, Completion, Impl, find, register_call, Await, route, route_decoded, route_call,
  take_call, expire, expire_polled, poll_heartbeats, is_empty,
}
use puppet_master.Service.Client.System.{
  Threads, Starting, matching, sending, Closing, not_closing, joining, cancelling, after_match,
  send_failed,
}
use puppet_master.Service.Client.Totals.{
  total, total-append, total-set, total-erase_idx, one_if, in_call, in_completion, in_thread,
  in_start, in_place, SentUpTo, UpTo, total-erase, total-emplace_call, total-expire_calls,
}

abbrev pub left_over : Closing → List Completion
left_over not_closing = []
left_over joining = []
left_over (cancelling completions) = completions

-- How often a callback is with a thread in `Start`, with a pending call, on its way to be called, or
-- called already.
abbrev pub held : ℕ → Threads → ℕ
held t s =
    total (in_thread t) s.starting
    + total (in_call t) s.client.pending
    + total (in_completion t) s.in_hand
    + total (in_completion t) (left_over s.closing)
    + total (in_completion t) s.completed

-- A step that changes the places of callbacks only by those of calls that it starts.
abbrev pub Moves : ℕ → Threads → Threads → Type 0
Moves t s s' = held t s' + total (in_start t) s.started ≡ held t s + total (in_start t) s'.started

-- Calls are numbered up to the counter, and `Close` is at work only on a closed client.
pub record Inv (s : Threads) : Type 0 where
  pub numbered : UpTo s.client.next_request s.client.pending
  pub sent : All (SentUpTo s.client.next_request) s.starting
  pub open_ : s.client.closed ≡ false → s.closing ≡ not_closing

module _ (t i : ℕ) (f : Starting) (s : Threads) (at : get_elem? s.starting i ≡ some f) where
  pub after_match-Moves :
      (round : Await)
      → in_place t f.call f.place ≡ one_if (f.call.callback == t)
      → UpTo s.client.next_request s.client.pending
      → s.client.next_request + 1 < 2 ^ 64
      → Moves t s (after_match i f round s)
  unfolding after_match register_call
  after_match-Moves Await.ready mine numbered small =
      let next : (s.client.next_request + 1) % 2 ^ 64 ≡ s.client.next_request + 1 =
        mod-eq_of_lt small in
      rw next (
        omega (
          arith,
          mine,
          total-set (in_thread t) s.starting i f
              (record f { place = sending (s.client.next_request + 1) }) at,
          total-emplace_call t s.client.next_request (s.client.next_request + 1) f.call
              s.client.pending (omega arith) numbered,
        ))
  after_match-Moves (Await.refused status) mine numbered small = omega (
    arith,
    mine,
    total-erase_idx (in_thread t) s.starting i f at,
    total-append (in_completion t) s.completed _,
  )
  after_match-Moves Await.waits mine numbered small =
      omega (arith, mine, total-set (in_thread t) s.starting i f (record f { place = matching }) at)

  pub send_failed-Moves :
      (id : ℕ) (status : Status) (found : Option Pending)
      → f.place ≡ sending id
      → find id s.client.pending ≡ found
      → Moves t s (send_failed i id status found s)
  unfolding send_failed
  send_failed-Moves id status none place e =
      let none_of : in_place t f.call f.place ≡ 0 = rw place refl in
      omega (arith, none_of, total-erase_idx (in_thread t) s.starting i f at)
  send_failed-Moves id status (some p) place e =
      let none_of : in_place t f.call f.place ≡ 0 = rw place refl in
      omega (
        arith,
        none_of,
        total-erase_idx (in_thread t) s.starting i f at,
        total-erase t id p s.client.pending e,
        total-append (in_completion t) s.completed _,
      )

module _ (t : ℕ) (s : Impl) where
  -- What a critical section of the dispatcher takes from the pending calls, it has in its hand.
  abbrev pub Handover : Impl × List Completion → Type 0
  Handover r =
      total (in_call t) r.0.pending + total (in_completion t) r.1 ≡ total (in_call t) s.pending

  pub route-Handover : (message : List ℕ) → Handover (route message s)
  unfolding route
  route-Handover message = decoded (decode message reply_magic)
    where
      called :
          (h : Header) (payload : List ℕ) (found : Option Pending)
          → find h.request_id s.pending ≡ found
          → Handover (route_call h payload found s)
      called h payload none e = unfold route_call in omega arith
      called h payload (some p) e =
          unfold route_call take_call in omega (arith, total-erase t h.request_id p s.pending e)

      decoded : (d : Option (Header × List ℕ)) → Handover (route_decoded d s)
      decoded none = unfold route_decoded in omega arith
      decoded (some (h, payload)) =
          unfold route_decoded in
          if_both Handover (h.client_id == s.client_id) _ _ (called h payload _ refl) (omega arith)

  pub expire-Handover :
      (now : ℕ) (heartbeats : List (List ℕ × ℕ)) (seen : ℕ)
      → Handover (expire now heartbeats seen s)
  unfolding expire expire_polled poll_heartbeats
  expire-Handover now heartbeats seen =
      if_both Handover (is_empty s.pending) _ _ (omega arith)
        (total-expire_calls t s.spec _ now s.pending)
