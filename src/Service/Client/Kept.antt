-- ===== src/Service/Client/Kept.antt =====
-- src/service/service.cpp: what every step of the threads of a client keeps.
use native.Mathlib.Nat.{mod-eq_of_lt}
use puppet_master.Base.{
  All-set, All-erase_idx, ℕ, ◌+◌, ◌<◌, ◌^◌, ◌%◌, List, Option, none, some, true, false, ◌==◌, arith,
  ◌≡◌, refl, if_both, All-append,
}
use puppet_master.Core.Status.{Status}
use puppet_master.Core.Result.{Result}
use puppet_master.Service.Envelope.{Header, decode, reply_magic}
use puppet_master.Service.Client.Calls.{
  Pending, Completion, Impl, register_call, Await, route, route_decoded, route_call, take_call,
  expire, expire_polled, poll_heartbeats, is_empty,
}
use puppet_master.Service.Client.System.{
  Threads, Move, Starting, begin_call, after_match, after_seek, seek, send_failed, wake, read_reply,
  end_reading,
}
use puppet_master.Service.Client.Totals.{
  UpTo, SentUpTo, SentUpTo-le, UpTo-le, UpTo-erase, UpTo-emplace_call, UpTo-expire_calls,
}
use puppet_master.Service.Client.Balance.{Inv}

pub after_match-Inv :
    (i : ℕ) (f : Starting) (round : Await) (s : Threads)
    → s.client.next_request + 1 < 2 ^ 64
    → Inv s
    → Inv (after_match i f round s)
unfolding after_match register_call
after_match-Inv i f Await.ready s small inv =
    let next : (s.client.next_request + 1) % 2 ^ 64 ≡ s.client.next_request + 1 =
      mod-eq_of_lt small in
    record {
      numbered = rw next (
          UpTo-emplace_call (s.client.next_request + 1) _ f.call s.client.pending (omega arith)
            (UpTo-le s.client.next_request _ s.client.pending (omega arith) inv.numbered));
      sent = rw next (
          All-set (SentUpTo (s.client.next_request + 1)) s.starting i _
            (SentUpTo-le s.client.next_request _ s.starting (omega arith) inv.sent) (omega arith));
      open_ = inv.open_;
    }
after_match-Inv i f (Await.refused status) s small inv = record {
  numbered = inv.numbered;
  sent = All-erase_idx (SentUpTo s.client.next_request) s.starting i inv.sent;
  open_ = inv.open_;
}
after_match-Inv i f Await.waits s small inv = record {
  numbered = inv.numbered;
  sent = All-set (SentUpTo s.client.next_request) s.starting i _ inv.sent tt;
  open_ = inv.open_;
}

pub after_seek-Inv :
    (i : ℕ) (f : Starting) (now : ℕ) (matched : Result ℕ) (round : Await) (s : Threads)
    → s.client.next_request + 1 < 2 ^ 64
    → Inv s
    → Inv (after_seek i f now matched round s)
unfolding after_seek
after_seek-Inv i f now matched Await.ready s small inv = after_match-Inv i f _ s small inv
after_seek-Inv i f now matched (Await.refused status) s small inv =
    after_match-Inv i f (Await.refused status) s small inv
after_seek-Inv i f now matched Await.waits s small inv = inv

pub send_failed-Inv :
    (i id : ℕ) (status : Status) (found : Option Pending) (s : Threads)
    → Inv s
    → Inv (send_failed i id status found s)
unfolding send_failed
send_failed-Inv i id status none s inv = record {
  numbered = inv.numbered;
  sent = All-erase_idx (SentUpTo s.client.next_request) s.starting i inv.sent;
  open_ = inv.open_;
}
send_failed-Inv i id status (some p) s inv = record {
  numbered = UpTo-erase s.client.next_request id s.client.pending inv.numbered;
  sent = All-erase_idx (SentUpTo s.client.next_request) s.starting i inv.sent;
  open_ = inv.open_;
}

-- What the critical sections of the dispatcher keep of the fields.
abbrev pub Numbers : Impl → Impl → Type 0
Numbers s r =
    UpTo r.next_request r.pending × ((r.next_request ≡ s.next_request) × (r.closed ≡ s.closed))

pub route-Numbers :
    (message : List ℕ) (s : Impl) → UpTo s.next_request s.pending → Numbers s (route message s).0
unfolding route route_decoded route_call take_call
route-Numbers message s h = decoded (decode message reply_magic)
  where
    called :
        (k : Header) (payload : List ℕ) (found : Option Pending)
        → Numbers s (route_call k payload found s).0
    called k payload none = (h, (refl, refl))
    called k payload (some p) = (UpTo-erase s.next_request k.request_id s.pending h, (refl, refl))

    decoded : (d : Option (Header × List ℕ)) → Numbers s (route_decoded d s).0
    decoded none = (h, (refl, refl))
    decoded (some (k, payload)) =
        if_both (λ (r : Impl × List Completion). Numbers s r.0) (k.client_id == s.client_id) _ _
          (called k payload _) (h, (refl, refl))

pub expire-Numbers :
    (now : ℕ) (heartbeats : List (List ℕ × ℕ)) (seen : ℕ) (s : Impl)
    → UpTo s.next_request s.pending
    → Numbers s (expire now heartbeats seen s).0
unfolding expire expire_polled poll_heartbeats
expire-Numbers now heartbeats seen s h =
    if_both (λ (r : Impl × List Completion). Numbers s r.0) (is_empty s.pending) _ _
      (h, (refl, refl)) (UpTo-expire_calls s.next_request s.spec _ now s.pending h, (refl, refl))

pub step-Inv : {s s' : Threads} → Inv s → s.client.next_request + 1 < 2 ^ 64 → Move s s' → Inv s'
unfolding begin_call seek wake read_reply end_reading poll_heartbeats
step-Inv {s} inv small (Move.starts callback timeout now may_wait positive) = record {
  numbered = inv.numbered;
  sent = All-append (SentUpTo s.client.next_request) s.starting _ inv.sent (tt, tt);
  open_ = inv.open_;
}
step-Inv {s} inv small (Move.seeks i f heartbeats seen now later matched at place) =
    if_both Inv s.client.closed _ _ (after_match-Inv i f (Await.refused _) s small inv) (
      after_seek-Inv i f later matched _ (record s { client = poll_heartbeats heartbeats s.client })
        small (record { numbered = inv.numbered; sent = inv.sent; open_ = inv.open_ }))
step-Inv {s} inv small (Move.matches i f now matched at place) = after_match-Inv i f _ s small inv
step-Inv {s} inv small (Move.sends i f id at place) = record {
  numbered = inv.numbered;
  sent = All-erase_idx (SentUpTo s.client.next_request) s.starting i inv.sent;
  open_ = inv.open_;
}
step-Inv {s} inv small (Move.fails i f id status at place) = send_failed-Inv i id status _ s inv
step-Inv {s} inv small Move.data_arrives = record {
  numbered = inv.numbered;
  sent = inv.sent;
  open_ = inv.open_;
}
step-Inv {s} inv small (Move.looks heartbeats) = record {
  numbered = inv.numbered;
  sent = inv.sent;
  open_ = inv.open_;
}
step-Inv {s} inv small (Move.wakes heartbeats phase) =
    if_both Inv s.client.closed _ _
      (record { numbered = inv.numbered; sent = inv.sent; open_ = inv.open_ })
      (record { numbered = inv.numbered; sent = inv.sent; open_ = inv.open_ })
step-Inv {s} inv small (Move.reads message phase) =
    let (numbered, (count_, same)) = route-Numbers message s.client inv.numbered in
    record {
      numbered = numbered;
      sent = rw count_ inv.sent;
      open_ = λ e. inv.open_ (rw (← same) e);
    }
step-Inv {s} inv small (Move.ends_reading now heartbeats seen phase) =
    let (numbered, (count_, same)) = expire-Numbers now heartbeats seen s.client inv.numbered in
    record {
      numbered = numbered;
      sent = rw count_ inv.sent;
      open_ = λ e. inv.open_ (rw (← same) e);
    }
step-Inv {s} inv small (Move.runs c rest phase e) = record {
  numbered = inv.numbered;
  sent = inv.sent;
  open_ = inv.open_;
}
step-Inv {s} inv small (Move.goes_on phase e) = record {
  numbered = inv.numbered;
  sent = inv.sent;
  open_ = inv.open_;
}
step-Inv {s} inv small (Move.closes e) = record {
  numbered = inv.numbered;
  sent = inv.sent;
  open_ = λ (e' : true ≡ false). cc;
}
step-Inv {s} inv small (Move.joins e over) = record {
  numbered = tt;
  sent = inv.sent;
  open_ = λ e'. let no_ = inv.open_ e' in cc;
}
step-Inv {s} inv small (Move.cancels c rest e) = record {
  numbered = inv.numbered;
  sent = inv.sent;
  open_ = λ e'. let no_ = inv.open_ e' in cc;
}
