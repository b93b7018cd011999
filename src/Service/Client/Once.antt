-- ===== src/Service/Client/Once.antt =====
-- src/service/service.cpp: the callback of every call is at one place in every reachable state.
use puppet_master.Base.{
  ℕ, ◌+◌, ◌<◌, ◌^◌, List, [], ◌∷◌, some, ◌==◌, arith, ◌≡◌, refl, ap, get_elem?, if_both,
}
use puppet_master.Core.Result.{Result}
use puppet_master.Service.Spec.{ServiceSpec}
use puppet_master.Service.Client.Calls.{Await, poll_heartbeats, await_live}
use puppet_master.Service.Client.System.{
  Threads, Move, Reaches, Starting, begin_call, after_seek, seek, wake, read_reply, end_reading,
}
use puppet_master.Service.Client.Totals.{
  total, total-append, total-erase_idx, one_if, in_completion, in_thread, in_start, in_place, UpTo,
  total-cancel_calls,
}
use puppet_master.Service.Client.Balance.{
  held, Moves, Inv, left_over, after_match-Moves, send_failed-Moves, route-Handover,
  expire-Handover,
}
use puppet_master.Service.Client.Kept.{step-Inv}

module _ (t i : ℕ) (f : Starting) where
  seek-Moves :
      (heartbeats : List (List ℕ × ℕ)) (seen now later : ℕ) (matched : Result ℕ) (s : Threads)
      → get_elem? s.starting i ≡ some f
      → in_place t f.call f.place ≡ one_if (f.call.callback == t)
      → UpTo s.client.next_request s.client.pending
      → s.client.next_request + 1 < 2 ^ 64
      → Moves t s (seek i f heartbeats seen now later matched s)
  unfolding seek poll_heartbeats
  seek-Moves heartbeats seen now later matched s at mine numbered small =
      let polled = record s { client = poll_heartbeats heartbeats s.client } in
      if_both (Moves t s) s.client.closed _ _
        (after_match-Moves t i f s at (Await.refused _) mine numbered small)
        (after polled at numbered small (await_live f.may_wait f.give_up seen now polled.client))
    where
      after :
          (p : Threads)
          → get_elem? p.starting i ≡ some f
          → UpTo p.client.next_request p.client.pending
          → p.client.next_request + 1 < 2 ^ 64
          → (round : Await) → Moves t p (after_seek i f later matched round p)
      after p at' numbered' small' Await.ready =
          unfold after_seek in after_match-Moves t i f p at' _ mine numbered' small'
      after p at' numbered' small' (Await.refused status) =
          unfold after_seek in
          after_match-Moves t i f p at' (Await.refused status) mine numbered' small'
      after p at' numbered' small' Await.waits = unfold after_seek in refl

step-Moves :
    (t : ℕ) {s s' : Threads} → Inv s → s.client.next_request + 1 < 2 ^ 64 → Move s s' → Moves t s s'
unfolding begin_call wake read_reply end_reading poll_heartbeats
step-Moves t {s} inv small (Move.starts callback timeout now may_wait positive) =
    omega (arith, total-append (in_thread t) s.starting _)
step-Moves t {s} inv small (Move.seeks i f heartbeats seen now later matched at place) =
    let mine : in_place t f.call f.place ≡ one_if (f.call.callback == t) = rw place refl in
    seek-Moves t i f heartbeats seen now later matched s at mine inv.numbered small
step-Moves t {s} inv small (Move.matches i f now matched at place) =
    let mine : in_place t f.call f.place ≡ one_if (f.call.callback == t) = rw place refl in
    after_match-Moves t i f s at _ mine inv.numbered small
step-Moves t {s} inv small (Move.sends i f id at place) =
    let none_of : in_place t f.call f.place ≡ 0 = rw place refl in
    omega (arith, none_of, total-erase_idx (in_thread t) s.starting i f at)
step-Moves t {s} inv small (Move.fails i f id status at place) =
    send_failed-Moves t i f s at id status _ place refl
step-Moves t {s} inv small Move.data_arrives = refl
step-Moves t {s} inv small (Move.looks heartbeats) = refl
step-Moves t {s} inv small (Move.wakes heartbeats phase) =
    if_both (Moves t s) s.client.closed _ _ refl refl
step-Moves t {s} inv small (Move.reads message phase) =
    omega (arith, route-Handover t s.client message, total-append (in_completion t) s.in_hand _)
step-Moves t {s} inv small (Move.ends_reading now heartbeats seen phase) = omega (
  arith,
  expire-Handover t s.client now heartbeats seen,
  total-append (in_completion t) s.in_hand _,
)
step-Moves t {s} inv small (Move.runs c rest phase e) =
    omega
      (arith, ap (total (in_completion t)) e, total-append (in_completion t) s.completed (c ∷ []))
step-Moves t {s} inv small (Move.goes_on phase e) = refl
step-Moves t {s} inv small (Move.closes e) =
    omega (arith, ap (λ c. total (in_completion t) (left_over c)) (inv.open_ e))
step-Moves t {s} inv small (Move.joins e over) = omega (
  arith,
  ap (λ c. total (in_completion t) (left_over c)) e,
  total-cancel_calls t s.client.spec s.client.pending,
)
step-Moves t {s} inv small (Move.cancels c rest e) = omega (
  arith,
  ap (λ c. total (in_completion t) (left_over c)) e,
  total-append (in_completion t) s.completed (c ∷ []),
)

pub Reaches-Inv_once :
    {spec : ServiceSpec} {client_id : ℕ} {s : Threads}
    → Reaches spec client_id s
    → Inv s × ((t : ℕ) → held t s ≡ total (in_start t) s.started)
Reaches-Inv_once Reaches.begin = (record { numbered = tt; sent = tt; open_ = λ e. refl }, λ t. refl)
Reaches-Inv_once (Reaches.step {s} {s'} before small moves) =
    let (inv, once) = Reaches-Inv_once before in
    (step-Inv inv small moves, λ t. omega (arith, once t, step-Moves t inv small moves))

-- In every state that the threads of a client can reach, each callback is as often with a thread that
-- has not registered its call, with a pending call, on its way to be called, or called already, as it
-- was passed with a call.
pub Reaches-once :
    {spec : ServiceSpec} {client_id : ℕ} {s : Threads}
    → Reaches spec client_id s
    → (t : ℕ) → held t s ≡ total (in_start t) s.started
Reaches-once r t = (Reaches-Inv_once r).1 t
