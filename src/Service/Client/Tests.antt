-- ===== src/Service/Client/Tests.antt =====
-- src/service/service.cpp: a client that is closed while a call waits for a reader of its request.
use puppet_master.Base.{
  ℕ, ◌+◌, ◌^◌, ◌<◌, List, [], ◌∷◌, some, inl, true, arith, ◌≡◌, refl, get_elem?,
}
use puppet_master.Base.Int.{pos, ◌+ℤ◌}
use puppet_master.Core.Result.{value}
use puppet_master.Core.Names.{ipc}
use puppet_master.Transport.Recording.Bytes.{get_u64, get_le}
use puppet_master.Service.Spec.{ServiceSpec}
use puppet_master.Service.Client.Presence.{poll_presence, see, live_server, liveness}
use puppet_master.Service.Client.Calls.{
  Pending, find, poll_heartbeats, await_live, not_alive, await_reader, cancel_calls,
}
use puppet_master.Service.Client.System.{
  Threads, Move, Reaches, Follows, new_threads, Starting, Place, matching, joining, cancelling,
  begin_call, seek, after_seek, after_match, wake,
}
use puppet_master.Service.Client.Totals.{total, in_start}
use puppet_master.Service.Client.Balance.{held}
use puppet_master.Service.Client.Once.{Reaches-once}
use puppet_master.Service.Client.Lost.{IsOver}
use puppet_master.Service.Client.Late.{sent_at, Reaches-late}

abbrev counter : ServiceSpec
counter = record {
  name = "counter";
  transport = ipc;
  request = record { type_name = "Add"; encoding = "portable"; version = 1 };
  reply = record { type_name = "Sum"; encoding = "portable"; version = 1 };
  queue_depth = 16;
  heartbeat_interval = pos 100000000;
}

-- The first heartbeat of the server 9.
abbrev heartbeat : List ℕ
heartbeat = 9 ∷ 0 ∷ 0 ∷ 0 ∷ 0 ∷ 0 ∷ 0 ∷ 0 ∷ 1 ∷ 0 ∷ 0 ∷ 0 ∷ 0 ∷ 0 ∷ 0 ∷ 0 ∷ []

abbrev call : Pending
call = record { deadline = 1010; timeout = 1000; callback = 5 }

abbrev thread : Starting
thread = record { call = call; give_up = 1010; may_wait = true; place = Place.seeking }

abbrev waiting_thread : Starting
waiting_thread = record { call = call; give_up = 1010; may_wait = true; place = matching }

abbrev started : Threads
started = begin_call 5 1000 10 true (new_threads counter 77)

abbrev waiting : Threads
waiting = seek 0 thread ((heartbeat, 11) ∷ []) 12 12 13 (value 0) started

abbrev asked : Threads
asked = record waiting { client = record waiting.client { closed = true }; closing = joining }

abbrev stopped : Threads
stopped = wake [] asked

abbrev over : Threads
over = record stopped {
  client = record stopped.client { pending = [] };
  closing = cancelling (cancel_calls stopped.client.spec stopped.client.pending);
}

over-Reaches : Reaches counter 77 over
unfolding begin_call seek after_seek after_match await_live not_alive await_reader live_server
    liveness poll_heartbeats poll_presence see wake get_u64 get_le ◌+ℤ◌
over-Reaches =
    let small : 0 + 1 < 2 ^ 64 = omega arith in
    let r1 = Reaches.step Reaches.begin small (Move.starts 5 1000 10 true (omega arith)) in
    let r2 =
      Reaches.step r1 small
        (Move.seeks 0 thread ((heartbeat, 11) ∷ []) 12 12 13 (value 0) refl refl) in
    let r3 = Reaches.step r2 small (Move.closes refl) in
    let r4 = Reaches.step r3 small (Move.wakes [] refl) in
    Reaches.step r4 small (Move.joins refl (inl refl))

over-IsOver : IsOver over
unfolding begin_call seek after_seek after_match await_live not_alive await_reader live_server
    liveness poll_heartbeats poll_presence see wake get_u64 get_le cancel_calls ◌+ℤ◌
over-IsOver = record { closed = refl; closing = refl; dispatcher = refl }

Reaches-once_example : held 5 over ≡ total (in_start 5) over.started
Reaches-once_example = Reaches-once over-Reaches 5

-- A reader of its request is there at last, and it is sent.
abbrev late : Threads
late =
    sent_at 0 (after_match 0 waiting_thread (await_reader true 1010 20 (value 1) over.client) over)

over-thread : get_elem? over.starting 0 ≡ some waiting_thread
unfolding begin_call seek after_seek after_match await_live not_alive await_reader live_server
    liveness poll_heartbeats poll_presence see wake get_u64 get_le ◌+ℤ◌
over-thread = refl

over-counter : over.client.next_request + 1 < 2 ^ 64
unfolding begin_call seek after_seek after_match await_live not_alive await_reader live_server
    liveness poll_heartbeats poll_presence see wake get_u64 get_le ◌+ℤ◌
over-counter = omega arith

Reaches-late_example : find (over.client.next_request + 1) late.client.pending ≡ some call
Reaches-late_example =
    Reaches-late over-Reaches 0 waiting_thread 20 (value 1) late over-IsOver over-thread refl refl
      over-counter Follows.stays
