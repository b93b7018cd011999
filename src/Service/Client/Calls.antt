-- ===== src/Service/Client/Calls.antt =====
-- src/service/service.cpp: the pending calls of a client, from their registration to their
-- completion.
use puppet_master.Base.{
  ℕ, ◌+◌, ◌/◌, ◌%◌, ◌^◌, ◌<>◌, List, [], ◌∷◌, Option, none, some, Bool, true, false, ◌||◌, not, ltb,
  leb, ◌==◌, if◌then◌else◌, to_decimal,
}
use puppet_master.Core.Status.{
  Status, StatusCode, error, is_ok, cancelled, unavailable, deadline_exceeded,
}
use puppet_master.Core.Result.{Result, value, failure, from_status}
use puppet_master.Transport.Recording.Bytes.{text_of}
use puppet_master.Service.Spec.{ServiceSpec, describe}
use puppet_master.Service.Envelope.{Header, decode, reply_magic, request_magic}
use puppet_master.Base.Int.{pos}
use puppet_master.Service.Client.Presence.{
  Presence, ServerInfo, nothing_seen, poll_presence, live_server,
}

pub record Pending : Type 0 where
  pub deadline : ℕ
  pub timeout : ℕ
  pub callback : ℕ

pub record Completion : Type 0 where
  pub callback : ℕ
  pub result : Result (List ℕ)

pub record Impl : Type 0 where
  pub spec : ServiceSpec
  pub client_id : ℕ
  pub has_data : Bool
  pub closed : Bool
  pub next_request : ℕ
  pub pending : List (ℕ × Pending)
  pub presence : Presence

abbrev pub new_client : ServiceSpec → ℕ → Impl
new_client spec client_id = record {
  spec = spec;
  client_id = client_id;
  has_data = false;
  closed = false;
  next_request = 0;
  pending = [];
  presence = nothing_seen;
}

-- The map of pending calls: `find`, `erase` of what is found, and `emplace`.
unfoldable pub find : ℕ → List (ℕ × Pending) → Option Pending
find id [] = none
find id ((j, p) ∷ calls) = if j == id then some p else find id calls

unfoldable pub erase : ℕ → List (ℕ × Pending) → List (ℕ × Pending)
erase id [] = []
erase id ((j, p) ∷ calls) = let rest = erase id calls in if j == id then calls else (j, p) ∷ rest

unfoldable pub emplace_call : ℕ → Pending → List (ℕ × Pending) → List (ℕ × Pending)
emplace_call id p [] = (id, p) ∷ []
emplace_call id p ((j, q) ∷ calls) =
    let rest = emplace_call id p calls in
    if j == id then (j, q) ∷ calls else if ltb id j then (id, p) ∷ (j, q) ∷ calls else (j, q) ∷ rest

-- `TakeLocked` of the call that was found.
unfoldable pub take_call : ℕ → Pending → Result (List ℕ) → Impl → Impl × List Completion
take_call id p result s = (
  record s { pending = erase id s.pending },
  record { callback = p.callback; result = result } ∷ [],
)

-- The result that a reply stands for.
unfoldable pub reply_result : StatusCode → List ℕ → Result (List ℕ)
reply_result code payload =
    let status = error code (text_of payload) in
    if is_ok status then value payload else from_status status

unfoldable pub route_call : Header → List ℕ → Option Pending → Impl → Impl × List Completion
route_call h payload none s = (s, [])
route_call h payload (some p) s = take_call h.request_id p (reply_result h.status payload) s

unfoldable pub route_decoded : Option (Header × List ℕ) → Impl → Impl × List Completion
route_decoded none s = (s, [])
route_decoded (some (h, payload)) s =
    if h.client_id == s.client_id
    then route_call h payload (find h.request_id s.pending) s
    else (s, [])

-- A reply in the loop of `Dispatch`.
unfoldable pub route : List ℕ → Impl → Impl × List Completion
route message s = route_decoded (decode message reply_magic) s

unfoldable pub stopped_error : ServiceSpec → Status
stopped_error spec =
    error unavailable (describe spec <> ": server stopped responding during the call")

unfoldable pub deadline_error : ServiceSpec → ℕ → Status
deadline_error spec timeout =
    error deadline_exceeded
      (describe spec <> ": no reply within " <> to_decimal (timeout / 1000000) <> " ms")

-- The loop of `ExpireLocked`: the calls that stay, and the completions of the others.
unfoldable pub expire_calls :
    ServiceSpec → Bool → ℕ → List (ℕ × Pending) → List (ℕ × Pending) × List Completion
expire_calls spec server_alive now [] = ([], [])
expire_calls spec server_alive now ((id, p) ∷ calls) =
    let rest = expire_calls spec server_alive now calls in
    if not server_alive
    then (
      rest.0,
      record { callback = p.callback; result = from_status (stopped_error spec) } ∷ rest.1,
    )
    else if leb p.deadline now
    then (
      rest.0,
      record { callback = p.callback; result = from_status (deadline_error spec p.timeout) }
          ∷ rest.1,
    )
    else ((id, p) ∷ rest.0, rest.1)

abbrev pub has_server : Result ServerInfo → Bool
has_server (value info) = true
has_server (failure status) = false

-- `PollPresenceLocked` on the fields.
unfoldable pub poll_heartbeats : List (List ℕ × ℕ) → Impl → Impl
poll_heartbeats heartbeats s = record s { presence = poll_presence heartbeats s.presence }

unfoldable pub expire_polled : ℕ → ℕ → Impl → Impl × List Completion
expire_polled now seen s =
    let expired =
      expire_calls s.spec (has_server (live_server s.spec seen s.presence)) now s.pending in
    (record s { pending = expired.0 }, expired.1)

abbrev pub is_empty {ℓ} : {A : Type ℓ} → List A → Bool
is_empty [] = true
is_empty (x ∷ xs) = false

-- `ExpireLocked`: the time at its start, the heartbeats polled, and the time of the look at them.
unfoldable pub expire : ℕ → List (List ℕ × ℕ) → ℕ → Impl → Impl × List Completion
expire now heartbeats seen s =
    if is_empty s.pending then (s, []) else expire_polled now seen (poll_heartbeats heartbeats s)

-- What one round of a loop of `AwaitServerLocked` does.
pub data Await : Type 0 where
  ready waits : Await
  refused : Status → Await

abbrev pub client_closed : ServiceSpec → Status
client_closed spec = error cancelled (describe spec <> ": client is closed")

unfoldable pub not_alive : Bool → Bool → Result ServerInfo → Await
not_alive may_wait over (value info) = Await.ready
not_alive may_wait over (failure status) = if not may_wait || over then refused status else waits

-- A round of the first loop, behind its poll; `seen` is the time of the look, `now` the next one.
unfoldable pub await_live : Bool → ℕ → ℕ → ℕ → Impl → Await
await_live may_wait give_up seen now s =
    not_alive may_wait (s.presence.server_withdrew || leb give_up now)
      (live_server s.spec seen s.presence)

abbrev pub unmatched : Result ℕ → Bool
unmatched (value n) = n == 0
unmatched (failure status) = false

-- A round of the second loop, on what the request writer says of its readers.
unfoldable pub await_reader : Bool → ℕ → ℕ → Result ℕ → Impl → Await
await_reader may_wait deadline now matched s =
    if not (unmatched matched)
    then Await.ready
    else if s.closed
    then refused (client_closed s.spec)
    else if not may_wait || leb deadline now
    then refused (
        error unavailable (
          describe s.spec
          <> ": the server is alive but its request reader was not matched in time"))
    else waits

-- The registration of a call in `Start`; the counter has 64 bits.
unfoldable pub register_call : Pending → Impl → Impl
register_call p s =
    let id = (s.next_request + 1) % 2 ^ 64 in
    record s { next_request = id; pending = emplace_call id p s.pending }

-- The header of the request that `Start` sends.
unfoldable pub request_header : ℕ → ℕ → ℕ → Header
request_header client_id request_id timeout = record {
  magic = request_magic;
  status = StatusCode.ok;
  client_id = client_id;
  request_id = request_id;
  budget_ns = pos timeout;
}

-- The loop of `Close` over the calls that are left.
unfoldable pub cancel_calls : ServiceSpec → List (ℕ × Pending) → List Completion
cancel_calls spec [] = []
cancel_calls spec ((id, p) ∷ calls) =
    record {
      callback = p.callback;
      result = from_status (error cancelled (describe spec <> ": client closed during the call"));
    }
    ∷ cancel_calls spec calls
