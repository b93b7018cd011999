-- ===== src/Service/Client/System.antt =====
-- src/service/service.cpp: a client with its threads, those in Start, the dispatcher, and the one in
-- Close. A step is a critical section under the mutex, or a call of a callback outside of it.
use puppet_master.Base.{
  ℕ, ◌<>◌, ◌+◌, ◌^◌, ◌<◌, List, [], ◌∷◌, ◌++◌, Option, none, some, Bool, true, false, if◌then◌else◌,
  ◌≡◌, get_elem?, set, erase_idx, min, ◌⊎◌,
}
use puppet_master.Base.Int.{pos_part}
use puppet_master.Core.Status.{Status, error}
use puppet_master.Core.Result.{Result, from_status}
use puppet_master.Service.Spec.{ServiceSpec, describe}
use puppet_master.Service.Client.Presence.{liveness}
use puppet_master.Service.Client.Calls.{
  Pending, Completion, Impl, new_client, find, erase, route, expire, poll_heartbeats, Await,
  await_live, await_reader, client_closed, register_call, cancel_calls, is_empty,
}

-- Where a thread in `Start` is: in the first or the second loop of `AwaitServerLocked`, or with the
-- number of its call at the write of the request.
pub data Place : Type 0 where
  seeking matching : Place
  sending : ℕ → Place

pub record Starting : Type 0 where
  pub call : Pending
  pub give_up : ℕ
  pub may_wait : Bool
  pub place : Place

pub data Dispatcher : Type 0 where
  waiting reading running ended : Dispatcher

-- The thread in `Close`: before it, at the join, and at the callbacks of the calls that were left.
pub data Closing : Type 0 where
  not_closing joining : Closing
  cancelling : List Completion → Closing

-- `in_hand` are the completions of the dispatcher, `completed` the callbacks that were called, and
-- `started` the callbacks of the calls that were ever started.
pub record Threads : Type 0 where
  pub client : Impl
  pub starting : List Starting
  pub dispatcher : Dispatcher
  pub in_hand : List Completion
  pub closing : Closing
  pub completed : List Completion
  pub started : List ℕ

abbrev pub new_threads : ServiceSpec → ℕ → Threads
new_threads spec client_id = record {
  client = new_client spec client_id;
  starting = [];
  dispatcher = waiting;
  in_hand = [];
  closing = not_closing;
  completed = [];
  started = [];
}

-- The entry of `Start`, at the time `now`.
unfoldable pub begin_call : ℕ → ℕ → ℕ → Bool → Threads → Threads
begin_call callback timeout now may_wait s =
    let call : Pending = record {
      deadline = now + timeout;
      timeout = timeout;
      callback = callback;
    } in
    let frame : Starting = record {
      call = call;
      give_up = min (now + timeout) (now + pos_part (liveness s.client.spec));
      may_wait = may_wait;
      place = seeking;
    } in
    record s { starting = s.starting ++ frame ∷ []; started = callback ∷ s.started }

-- What a round of the second loop leads to: the registration of the call, its failure, or a wait.
unfoldable pub after_match : ℕ → Starting → Await → Threads → Threads
after_match i f Await.ready s =
    let client = register_call f.call s.client in
    record s {
      client = client;
      starting = set s.starting i (record f { place = sending client.next_request });
    }
after_match i f (Await.refused status) s = record s {
  starting = erase_idx s.starting i;
  completed =
      s.completed ++ record { callback = f.call.callback; result = from_status status } ∷ [];
}
after_match i f Await.waits s = record s {
  starting = set s.starting i (record f { place = matching });
}

-- What a round of the first loop leads to; it goes on to the second with the mutex held.
unfoldable pub after_seek : ℕ → Starting → ℕ → Result ℕ → Await → Threads → Threads
after_seek i f now matched Await.ready s =
    after_match i f (await_reader f.may_wait f.call.deadline now matched s.client) s
after_seek i f now matched (Await.refused status) s = after_match i f (Await.refused status) s
after_seek i f now matched Await.waits s = s

-- The test of `closed`, the poll, and the rest of the round.
unfoldable pub seek : ℕ → Starting → List (List ℕ × ℕ) → ℕ → ℕ → ℕ → Result ℕ → Threads → Threads
seek i f heartbeats seen now later matched s =
    let polled = record s { client = poll_heartbeats heartbeats s.client } in
    if s.client.closed
    then after_match i f (Await.refused (client_closed s.client.spec)) s
    else after_seek i f later matched (await_live f.may_wait f.give_up seen now polled.client)
        polled

-- A write of the request that failed takes the call back, if it is still there.
unfoldable pub send_failed : ℕ → ℕ → Status → Option Pending → Threads → Threads
send_failed i id status none s = record s { starting = erase_idx s.starting i }
send_failed i id status (some p) s = record s {
  client = record s.client { pending = erase id s.client.pending };
  starting = erase_idx s.starting i;
  completed =
      s.completed
      ++ record {
        callback = p.callback;
        result = from_status (
            error status.code
              (describe s.client.spec <> ": sending request failed: " <> status.message));
      }
        ∷ [];
}

unfoldable pub wake : List (List ℕ × ℕ) → Threads → Threads
wake heartbeats s = if s.client.closed then record s { dispatcher = ended } else record s {
  client = record (poll_heartbeats heartbeats s.client) { has_data = false };
  dispatcher = reading;
}

unfoldable pub read_reply : List ℕ → Threads → Threads
read_reply message s =
    let routed = route message s.client in
    record s { client = routed.0; in_hand = s.in_hand ++ routed.1 }

-- `ExpireLocked` behind the replies; without completions the loop goes on.
unfoldable pub end_reading : ℕ → List (List ℕ × ℕ) → ℕ → Threads → Threads
end_reading now heartbeats seen s =
    let expired = expire now heartbeats seen s.client in
    let completions = s.in_hand ++ expired.1 in
    record s {
      client = expired.0;
      in_hand = completions;
      dispatcher = if is_empty completions then waiting else running;
    }

pub data Move (s : Threads) : Threads → Type 0 where
  starts :
      (callback timeout now : ℕ) (may_wait : Bool)
      → 0 < timeout
      → Move s (begin_call callback timeout now may_wait s)
  seeks :
      (i : ℕ) (f : Starting) (heartbeats : List (List ℕ × ℕ)) (seen now later : ℕ)
      (matched : Result ℕ)
      → get_elem? s.starting i ≡ some f
      → f.place ≡ seeking
      → Move s (seek i f heartbeats seen now later matched s)
  matches :
      (i : ℕ) (f : Starting) (now : ℕ) (matched : Result ℕ)
      → get_elem? s.starting i ≡ some f
      → f.place ≡ matching
      → Move s (after_match i f (await_reader f.may_wait f.call.deadline now matched s.client) s)
  sends :
      (i : ℕ) (f : Starting) (id : ℕ)
      → get_elem? s.starting i ≡ some f
      → f.place ≡ sending id
      → Move s (record s { starting = erase_idx s.starting i })
  fails :
      (i : ℕ) (f : Starting) (id : ℕ) (status : Status)
      → get_elem? s.starting i ≡ some f
      → f.place ≡ sending id
      → Move s (send_failed i id status (find id s.client.pending) s)
  data_arrives : Move s (record s { client = record s.client { has_data = true } })
  looks :
      (heartbeats : List (List ℕ × ℕ))
      → Move s (record s { client = poll_heartbeats heartbeats s.client })
  wakes : (heartbeats : List (List ℕ × ℕ)) → s.dispatcher ≡ waiting → Move s (wake heartbeats s)
  reads : (message : List ℕ) → s.dispatcher ≡ reading → Move s (read_reply message s)
  ends_reading :
      (now : ℕ) (heartbeats : List (List ℕ × ℕ)) (seen : ℕ)
      → s.dispatcher ≡ reading
      → Move s (end_reading now heartbeats seen s)
  runs :
      (c : Completion) (rest : List Completion)
      → s.dispatcher ≡ running
      → s.in_hand ≡ c ∷ rest
      → Move s (record s { in_hand = rest; completed = s.completed ++ c ∷ [] })
  goes_on : s.dispatcher ≡ running → s.in_hand ≡ [] → Move s (record s { dispatcher = waiting })
  closes :
      s.client.closed ≡ false
      → Move s (record s { client = record s.client { closed = true }; closing = joining })
  -- `Close` goes on when the dispatcher has ended, or when a callback on its thread called it.
  joins :
      s.closing ≡ joining
      → (s.dispatcher ≡ ended) ⊎ (s.dispatcher ≡ running)
      → Move s (record s {
        client = record s.client { pending = [] };
        closing = cancelling (cancel_calls s.client.spec s.client.pending);
      })
  cancels :
      (c : Completion) (rest : List Completion)
      → s.closing ≡ cancelling (c ∷ rest)
      → Move s (record s { closing = cancelling rest; completed = s.completed ++ c ∷ [] })

-- The states that the threads reach while the counter does not wrap.
pub data Reaches (spec : ServiceSpec) (client_id : ℕ) : Threads → Type 0 where
  begin : Reaches spec client_id (new_threads spec client_id)
  step :
      {s s' : Threads}
      → Reaches spec client_id s
      → s.client.next_request + 1 < 2 ^ 64
      → Move s s'
      → Reaches spec client_id s'

-- What may follow a state, while the counter does not wrap.
pub data Follows (s : Threads) : Threads → Type 0 where
  stays : Follows s s
  goes : {r t : Threads} → Follows s r → r.client.next_request + 1 < 2 ^ 64 → Move r t → Follows s t
