-- ===== src/Service/Server/Replies.antt =====
-- src/service/service.cpp: a request of a client, handled by a server, and its reply at the client.
use puppet_master.Base.{
  ℕ, ◌+◌, ◌≤◌, ◌<◌, ◌^◌, List, [], ◌∷◌, ◌++◌, some, true, false, arith, ◌≡◌, refl, ==_iff,
}
use puppet_master.Base.Int.{pos, ◌+ℤ◌}
use puppet_master.Core.Status.{StatusCode, Status, ok, error, is_ok}
use puppet_master.Core.Result.{Result, value, failure}
use puppet_master.Transport.Message.{Message}
use puppet_master.Transport.Recording.Bytes.{codes, IsBytes}
use puppet_master.Transport.Recording.Laws.{text_of-codes}
use puppet_master.Service.Envelope.{Header, encode, decode, request_magic}
use puppet_master.Service.Envelope.Numbers.{IsHeader}
use puppet_master.Service.Envelope.Laws.{decode-encode}
use puppet_master.Service.Client.Calls.{
  Pending, Impl, find, take_call, reply_result, route, route_decoded, route_call, request_header,
}
use puppet_master.Service.Server.{
  Server, Replier, Request, Handling, Link, Surroundings, reply_writer, reply_header, reply,
  reply_result_of, handler_result, deadline_of, received_at, handle, serve, serve_decoded,
}

-- A result whose error, where it is one, can be sent as the text of a reply.
abbrev pub IsSendable : Result (List ℕ) → Type 0
IsSendable (value bytes) = Unit
IsSendable (failure status) = (is_ok status ≡ false) × IsBytes status.message

-- The reply that carries a result.
abbrev reply_message : Header → Result (List ℕ) → List ℕ
reply_message h (value bytes) = encode (reply_header h ok) bytes
reply_message h (failure status) = encode (reply_header h status.code) (codes status.message)

error-code : (status : Status) → is_ok status ≡ false → error status.code status.message ≡ status
error-code status h = ground arith

reply_result-ok : (bytes : List ℕ) → reply_result ok bytes ≡ value bytes
unfolding reply_result
reply_result-ok bytes = refl

reply_result-codes :
    (status : Status)
    → is_ok status ≡ false
    → IsBytes status.message
    → reply_result status.code (codes status.message) ≡ failure status
unfolding reply_result
reply_result-codes status bad bytes =
    rw (text_of-codes status.message bytes, error-code status bad, bad) refl

reply_header-IsHeader :
    (h : Header) (code : StatusCode) → IsHeader h → IsHeader (reply_header h code)
unfolding reply_header
reply_header-IsHeader h code valid = record {
  magic = omega arith;
  client_id = valid.client_id;
  request_id = valid.request_id;
  budget_ns = omega arith;
}

module _ (h : Header) (s : Impl) (p : Pending) where
  route-encode :
      (code : StatusCode) (payload : List ℕ)
      → IsHeader h
      → h.client_id ≡ s.client_id
      → find h.request_id s.pending ≡ some p
      → route (encode (reply_header h code) payload) s
        ≡ take_call h.request_id p (reply_result code payload) s
  unfolding route route_decoded route_call reply_header
  route-encode code payload valid mine found =
      rw
        (
          decode-encode (reply_header h code) payload (reply_header-IsHeader h code valid),
          mine,
          found,
        )
        (rw ((==_iff s.client_id s.client_id).1 refl) refl)

  route-reply :
      (r : Result (List ℕ))
      → IsSendable r
      → IsHeader h
      → h.client_id ≡ s.client_id
      → find h.request_id s.pending ≡ some p
      → route (reply_message h r) s ≡ take_call h.request_id p r s
  route-reply (value bytes) sendable valid mine found =
      rw (← reply_result-ok bytes) (route-encode ok bytes valid mine found)
  route-reply (failure status) (bad, text) valid mine found =
      rw (← reply_result-codes status bad text)
        (route-encode status.code (codes status.message) valid mine found)

reply-sent :
    (h : Header) (r : Result (List ℕ)) (now : ℕ) (link : Link) (replier : Replier)
    → (reply_writer h.client_id now link.opens replier.reply_writers).1 ≡ true
    → link.writes ≡ true
    → (reply_result_of h r now link replier).sent
      ≡ replier.sent ++ (h.client_id, reply_message h r) ∷ []
unfolding reply_result_of reply
reply-sent h (value bytes) now link replier open_ writes = rw (open_, writes) refl
reply-sent h (failure status) now link replier open_ writes = rw (open_, writes) refl

deadline_of-request :
    (client_id request_id timeout received : ℕ)
    → 0 < timeout
    → deadline_of (request_header client_id request_id timeout) received ≡ pos (received + timeout)
unfolding deadline_of request_header ◌+ℤ◌
deadline_of-request client_id request_id timeout received h = ground arith

module _ (s : Impl) (id : ℕ) (p : Pending) where
  -- The header of the request of a pending call, as `Start` sends it.
  abbrev pub call_header : Header
  call_header = request_header s.client_id id p.timeout

  call_header-IsHeader :
      s.client_id < 2 ^ 64 → id < 2 ^ 64 → p.timeout < 2 ^ 63 → IsHeader call_header
  unfolding request_header
  call_header-IsHeader hc hi ht = record {
    magic = omega arith;
    client_id = hc;
    request_id = hi;
    budget_ns = ht;
  }

  -- What the handler is given, for a request that was received at a time.
  abbrev pub call_request : List ℕ → ℕ → Request
  call_request payload received = record {
    payload = payload;
    client_id = s.client_id;
    request_id = id;
    deadline = pos (received + p.timeout);
  }

  decode-call :
      (payload bytes : List ℕ)
      → IsHeader call_header
      → bytes ≡ encode call_header payload
      → decode bytes request_magic ≡ some (call_header, payload)
  unfolding request_header
  decode-call payload bytes valid is_request =
      rw is_request (decode-encode call_header payload valid)

  serve-call :
      (payload : List ℕ) (handler : Request → Handling) (m : Message) (around : Surroundings)
      (server : Server)
      → IsHeader call_header
      → 0 < p.timeout
      → m.payload ≡ encode call_header payload
      → around.look ≤ received_at m around.arrival + p.timeout
      → serve handler m around server
        ≡ handle handler call_header payload
            (pos (received_at m around.arrival + p.timeout))
            around
            server
  unfolding serve serve_decoded
  serve-call payload handler m around server valid positive is_request intime =
      rw
        (
          decode-call payload m.payload valid is_request,
          deadline_of-request s.client_id id p.timeout (received_at m around.arrival) positive,
        )
        (unfold request_header in ground arith)

  handled_sent :
      (payload : List ℕ) (handler : Request → Handling) (around : Surroundings) (server : Server)
      (received : ℕ)
      → (reply_writer s.client_id around.replies_at around.link.opens
          server.replier.reply_writers).1
        ≡ true
      → around.link.writes ≡ true
      → (handle handler call_header payload
          (pos (received + p.timeout))
          around
          server).0.replier.sent
        ≡ server.replier.sent
          ++ (
            s.client_id,
            reply_message call_header (handler_result (handler (call_request payload received))),
          )
            ∷ []
  unfolding handle request_header
  handled_sent payload handler around server received open_ writes =
      reply-sent call_header (handler_result (handler (call_request payload received)))
        around.replies_at around.link server.replier open_ writes

  replied :
      (r : Result (List ℕ))
      → IsSendable r
      → IsHeader call_header
      → find id s.pending ≡ some p
      → route (reply_message call_header r) s ≡ take_call id p r s
  unfolding request_header
  replied r sendable valid found = route-reply call_header s p r sendable valid refl found

  -- The request of a pending call that reaches the server before its deadline is handled, and the
  -- reply that the server sends completes the call with the handler's result, as long as the reply
  -- can be sent and is a value or an error whose message is a text of bytes.
  pub serve-route :
      (payload : List ℕ) (handler : Request → Handling) (m : Message) (around : Surroundings)
      (server : Server)
      → s.client_id < 2 ^ 64
      → id < 2 ^ 64
      → 0 < p.timeout
      → p.timeout < 2 ^ 63
      → find id s.pending ≡ some p
      → m.payload ≡ encode call_header payload
      → around.look ≤ received_at m around.arrival + p.timeout
      → (reply_writer s.client_id around.replies_at around.link.opens
          server.replier.reply_writers).1
        ≡ true
      → around.link.writes ≡ true
      → IsSendable (handler_result (handler (call_request payload (received_at m around.arrival))))
      → (message : List ℕ) × (((serve handler m around server).0.replier.sent
            ≡ server.replier.sent ++ (s.client_id, message) ∷ [])
          × (((serve handler m around server).0.handled ≡ server.handled + 1)
              × (route message s
                  ≡ take_call id p
                      (handler_result
                        (handler (call_request payload (received_at m around.arrival))))
                      s)))
  serve-route payload handler m around server hc hi positive ht found is_request intime open_ writes
        sendable =
      let valid = call_header-IsHeader hc hi ht in
      let received = received_at m around.arrival in
      let result = handler_result (handler (call_request payload received)) in
      let served = serve-call payload handler m around server valid positive is_request intime in
      (
        reply_message call_header result,
        (
          rw served (handled_sent payload handler around server received open_ writes),
          (rw served (unfold handle in refl), replied result sendable valid found),
        ),
      )
