-- ===== src/Service/Server/Tests.antt =====
-- src/service/service.cpp: a server that doubles, and one call of it.
use puppet_master.Base.{ℕ, ◌+◌, ◌≤◌, List, [], ◌∷◌, ◌++◌, some, true, false, arith, ◌≡◌, refl}
use puppet_master.Base.Int.{pos}
use puppet_master.Core.Result.{value, failure}
use puppet_master.Core.Status.{error, unavailable}
use puppet_master.Core.Names.{ipc}
use puppet_master.Transport.Message.{Message}
use puppet_master.Service.Spec.{ServiceSpec}
use puppet_master.Service.Envelope.{encode}
use puppet_master.Service.Client.Calls.{Impl, Pending, new_client, find, route, take_call}
use puppet_master.Service.Server.{
  Server, Request, Handling, returns, Surroundings, Taking, serve, serve_pending, handler_result,
  reply_writer, find_writer, received_at,
}
use puppet_master.Service.Server.Replies.{call_header, call_request, serve-route}
use puppet_master.Service.Server.Budget.{Counted, serve_pending-Counted}

abbrev doubler : ServiceSpec
doubler = record {
  name = "doubler";
  transport = ipc;
  request = record { type_name = "Number"; encoding = "portable"; version = 1 };
  reply = record { type_name = "Number"; encoding = "portable"; version = 1 };
  queue_depth = 16;
  heartbeat_interval = pos 100000000;
}

abbrev double : Request → Handling
double request = returns (value (request.payload ++ request.payload))

abbrev pending_call : Pending
pending_call = record { deadline = 1010; timeout = 1000; callback = 5 }

abbrev client : Impl
client = record (new_client doubler 77) { next_request = 1; pending = (1, pending_call) ∷ [] }

abbrev request_message : Message
request_message = record {
  payload = encode (call_header client 1 pending_call) (42 ∷ []);
  metadata = record { sequence = 1; source_timestamp = 10; reception_timestamp = 20 };
}

abbrev around : Surroundings
around = record {
  arrival = 25;
  look = 26;
  replies_at = 27;
  link = record { opens = true; writes = true };
}

abbrev idle : Server
idle = record { replier = record { reply_writers = []; sent = [] }; handled = 0; expired = 0 }

is_pending : find 1 client.pending ≡ some pending_call
unfolding find
is_pending = refl

in_time : around.look ≤ received_at request_message around.arrival + pending_call.timeout
unfolding received_at
in_time = omega arith

opens_writer : (reply_writer client.client_id around.replies_at around.link.opens []).1 ≡ true
unfolding reply_writer find_writer
opens_writer = refl

serve-route_example :
    (message : List ℕ) × (((serve double request_message around idle).0.replier.sent
        ≡ idle.replier.sent ++ (77, message) ∷ [])
      × (((serve double request_message around idle).0.handled ≡ 0 + 1)
          × (route message client
              ≡ take_call 1 pending_call
                  (handler_result (
                    double (
                      call_request client 1 pending_call
                        (42 ∷ [])
                        (received_at request_message around.arrival))))
                  client)))
unfolding handler_result
serve-route_example =
    serve-route client 1 pending_call (42 ∷ []) double request_message around idle (omega arith)
      (omega arith) (omega arith) (omega arith) is_pending refl in_time opens_writer refl tt

abbrev takings : List Taking
takings =
    record { closed = false; message = value request_message; around = around }
    ∷ record { closed = false; message = failure (error unavailable ""); around = around }
    ∷ []

serve_pending-Counted_example : Counted 3 0 idle (serve_pending double 3 takings 0 idle)
serve_pending-Counted_example = serve_pending-Counted double 3 takings idle
