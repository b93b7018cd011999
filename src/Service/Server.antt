-- ===== src/Service/Server.antt =====
-- src/service/service.cpp: how a server handles a request and sends its reply. The handler, the
-- transport's answers and the readings of the clock are arguments; a point of time is in nanoseconds.
pub mod Replies
pub mod Budget
mod Tests
use puppet_master.Base.{
  ℕ, zero, suc, ◌+◌, String, ◌<>◌, List, [], ◌∷◌, ◌++◌, Option, none, some, Bool, true, false, ◌&&◌,
  ◌||◌, not, ltb, leb, ◌==◌, if◌then◌else◌,
}
use puppet_master.Base.Int.{ℤ, pos, ◌+ℤ◌, ltb_ℤ, eq_ℤ}
use puppet_master.Core.Status.{StatusCode, Status, ok, internal, error}
use puppet_master.Core.Result.{Result, value, failure, from_status}
use puppet_master.Transport.Message.{Message}
use puppet_master.Transport.Recording.Bytes.{codes}
use puppet_master.Service.Envelope.{Header, encode, decode, request_magic, reply_magic}

pub record Request : Type 0 where
  pub payload : List ℕ
  pub client_id : ℕ
  pub request_id : ℕ
  pub deadline : ℤ

-- What a handler does: it returns, or it throws an exception with or without a text.
pub data Handling : Type 0 where
  returns : Result (List ℕ) → Handling
  throws : String → Handling
  throws_other : Handling

-- The open reply writers, each with the time of its last use; `sent` are the replies that were
-- written, each with its client.
pub record Replier : Type 0 where
  pub reply_writers : List (ℕ × ℕ)
  pub sent : List (ℕ × List ℕ)

-- The counters have 64 bits in the source, which no server uses up.
pub record Server : Type 0 where
  pub replier : Replier
  pub handled : ℕ
  pub expired : ℕ

-- The map of reply writers.
unfoldable pub find_writer : ℕ → List (ℕ × ℕ) → Bool
find_writer id [] = false
find_writer id ((j, used) ∷ writers) = j == id || find_writer id writers

unfoldable pub use_writer : ℕ → ℕ → List (ℕ × ℕ) → List (ℕ × ℕ)
use_writer id now [] = []
use_writer id now ((j, used) ∷ writers) =
    let rest = use_writer id now writers in if j == id then (j, now) ∷ writers else (j, used) ∷ rest

unfoldable pub emplace_writer : ℕ → ℕ → List (ℕ × ℕ) → List (ℕ × ℕ)
emplace_writer id now [] = (id, now) ∷ []
emplace_writer id now ((j, used) ∷ writers) =
    let rest = emplace_writer id now writers in
    if j == id
    then (j, used) ∷ writers
    else if ltb id j
    then (id, now) ∷ (j, used) ∷ writers
    else (j, used) ∷ rest

unfoldable pub erase_writer : ℕ → List (ℕ × ℕ) → List (ℕ × ℕ)
erase_writer id [] = []
erase_writer id ((j, used) ∷ writers) =
    let rest = erase_writer id writers in if j == id then writers else (j, used) ∷ rest

-- The answers of a transport to a reply: whether a writer for the client was created and matched in
-- time, where one is needed, and whether the write succeeded.
pub record Link : Type 0 where
  pub opens : Bool
  pub writes : Bool

-- `ReplyWriterLocked`: the writers, and whether there is one for the client.
unfoldable pub reply_writer : ℕ → ℕ → Bool → List (ℕ × ℕ) → List (ℕ × ℕ) × Bool
reply_writer id now opens writers =
    if find_writer id writers
    then (use_writer id now writers, true)
    else if opens
    then (emplace_writer id now writers, true)
    else (writers, false)

unfoldable pub reply_header : Header → StatusCode → Header
reply_header request code = record {
  magic = reply_magic;
  status = code;
  client_id = request.client_id;
  request_id = request.request_id;
  budget_ns = pos 0;
}

-- `Reply`, at the time `now` of its look at the writers.
unfoldable pub reply : Header → StatusCode → List ℕ → ℕ → Link → Replier → Replier
reply request code payload now link r =
    let found = reply_writer request.client_id now link.opens r.reply_writers in
    let message = encode (reply_header request code) payload in
    if found.1 && link.writes
    then record { reply_writers = found.0; sent = r.sent ++ (request.client_id, message) ∷ [] }
    else if found.1
    then record { reply_writers = erase_writer request.client_id found.0; sent = r.sent }
    else record { reply_writers = found.0; sent = r.sent }

-- `EvictIdleWriters`, with the lock taken, for the time before which a writer is idle.
unfoldable pub evict : ℤ → List (ℕ × ℕ) → List (ℕ × ℕ)
evict cutoff [] = []
evict cutoff ((j, used) ∷ writers) =
    let rest = evict cutoff writers in if ltb_ℤ (pos used) cutoff then rest else (j, used) ∷ rest

-- The result of a handler, which may have thrown.
unfoldable pub handler_result : Handling → Result (List ℕ)
handler_result (returns r) = r
handler_result (throws what) = from_status (error internal ("service handler threw: " <> what))
handler_result throws_other = from_status (error internal "service handler threw")

unfoldable pub reply_result_of : Header → Result (List ℕ) → ℕ → Link → Replier → Replier
reply_result_of h (value bytes) now link r = reply h ok bytes now link r
reply_result_of h (failure status) now link r =
    reply h status.code (codes status.message) now link r

-- `header.budget_ns == 0 ? TimePoint {} : received + budget`, with the zero point for no
-- deadline. The source adds in 64 bits; here the sum is taken to fit.
unfoldable pub deadline_of : Header → ℕ → ℤ
deadline_of h received = if eq_ℤ h.budget_ns (pos 0) then pos 0 else pos received +ℤ h.budget_ns

-- The times at which `Serve` looks at the clock, and the transport's answers.
pub record Surroundings : Type 0 where
  pub arrival : ℕ
  pub look : ℕ
  pub replies_at : ℕ
  pub link : Link

unfoldable pub received_at : Message → ℕ → ℕ
received_at m now =
    if m.metadata.reception_timestamp == 0 then now else m.metadata.reception_timestamp

unfoldable pub handle :
    (Request → Handling) → Header → List ℕ → ℤ → Surroundings → Server → Server × Bool
handle handler h payload deadline around s =
    let request : Request = record {
      payload = payload;
      client_id = h.client_id;
      request_id = h.request_id;
      deadline = deadline;
    } in
    let result = handler_result (handler request) in
    (
      record {
        replier = reply_result_of h result around.replies_at around.link s.replier;
        handled = s.handled + 1;
        expired = s.expired;
      },
      true,
    )

unfoldable pub serve_decoded :
    (Request → Handling) → ℕ → Option (Header × List ℕ) → Surroundings → Server → Server × Bool
serve_decoded handler received none around s = (s, false)
serve_decoded handler received (some (h, payload)) around s =
    let deadline = deadline_of h received in
    if not (eq_ℤ h.budget_ns (pos 0)) && ltb_ℤ deadline (pos around.look)
    then (record s { expired = s.expired + 1 }, false)
    else handle handler h payload deadline around s

-- `Serve`: whether the handler ran.
unfoldable pub serve : (Request → Handling) → Message → Surroundings → Server → Server × Bool
serve handler m around s =
    serve_decoded handler (received_at m around.arrival) (decode m.payload request_magic) around s

-- A round of the loop of `ServePending`: whether the server is closed, and what is read.
pub record Taking : Type 0 where
  pub closed : Bool
  pub message : Result Message
  pub around : Surroundings

abbrev pub one_more : Bool → ℕ → ℕ
one_more true n = n + 1
one_more false n = n

-- The loop of `ServePending`, on the budget that is left; the rounds end it where they end.
unfoldable pub serve_pending : (Request → Handling) → ℕ → List Taking → ℕ → Server → Server × ℕ
serve_pending handler zero rounds served s = (s, served)
serve_pending handler (suc budget) [] served s = (s, served)
serve_pending handler (suc budget) (t ∷ rounds) served s =
    if t.closed then (s, served) else elim t.message [
      | failure status ↦ (s, served)
      | value m ↦
          let done = serve handler m t.around s in
          serve_pending handler budget rounds (one_more done.1 served) done.0
    ]

-- The budget of a pass: the limit, or what is queued, or the depth of the queue.
unfoldable pub budget_of : ℕ → Result ℕ → ℕ → ℕ
budget_of limit queued depth =
    if limit == 0 then elim queued [ value n ↦ n | failure status ↦ depth ] else limit
