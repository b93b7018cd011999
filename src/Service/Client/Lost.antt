-- ===== src/Service/Client/Lost.antt =====
-- src/service/service.cpp: a call that no thread takes any more.
use native.Mathlib.Nat.{mod-eq_of_lt}
use puppet_master.Base.{
  All-set, All-erase_idx, All-get_elem?, ℕ, ◌+◌, ◌≤◌, ◌<◌, ◌^◌, List, [], ◌∷◌, Option, none, some,
  true, arith, ◌≡◌, ◌≢◌, refl, ap, ◌∙◌, if_cases, All, All-append,
}
use puppet_master.Core.Status.{Status}
use puppet_master.Service.Client.Calls.{
  Pending, find, erase, emplace_call, register_call, Await, poll_heartbeats,
}
use puppet_master.Service.Client.System.{
  Threads, Move, Follows, Starting, sending, ended, cancelling, begin_call, after_match, seek,
  send_failed,
}
use puppet_master.Service.Client.Totals.{UpTo}

pub find-erase :
    (id j : ℕ) (calls : List (ℕ × Pending)) → j ≢ id → find id (erase j calls) ≡ find id calls
unfolding find erase
find-erase id j [] h = refl
find-erase id j ((k, p) ∷ calls) h = ground (arith, find-erase id j calls h)

pub find-emplace_call :
    (n id : ℕ) (p : Pending) (calls : List (ℕ × Pending))
    → n < id
    → UpTo n calls
    → find id (emplace_call id p calls) ≡ some p
unfolding find emplace_call
find-emplace_call n id p [] lt h = ground arith
find-emplace_call n id p ((k, q) ∷ calls) lt (hk, h) =
    ground (arith, find-emplace_call n id p calls lt h)

pub find-emplace_other :
    (id j : ℕ) (p : Pending) (calls : List (ℕ × Pending))
    → j ≢ id
    → find id (emplace_call j p calls) ≡ find id calls
unfolding find emplace_call
find-emplace_other id j p [] h = ground arith
find-emplace_other id j p ((k, q) ∷ calls) h = ground (arith, find-emplace_other id j p calls h)

-- A closed client whose `Close` has returned and whose dispatcher has ended.
pub record IsOver (s : Threads) : Type 0 where
  pub closed : s.client.closed ≡ true
  pub closing : s.closing ≡ cancelling []
  pub dispatcher : s.dispatcher ≡ ended

-- No thread is at the write of the request of this call.
abbrev pub NotSending : ℕ → Starting → Type 0
NotSending id f = f.place ≢ sending id

-- A call that nothing takes any more.
pub record Lost (id : ℕ) (p : Pending) (s : Threads) : Type 0 where
  pub over : IsOver s
  pub found : find id s.client.pending ≡ some p
  pub threads : All (NotSending id) s.starting
  pub below : id ≤ s.client.next_request

module _ (id : ℕ) (p : Pending) where
  pub after_match-Lost :
      (i : ℕ) (f : Starting) (round : Await) (s : Threads)
      → s.client.next_request + 1 < 2 ^ 64
      → Lost id p s
      → Lost id p (after_match i f round s)
  unfolding after_match register_call
  after_match-Lost i f Await.ready s small l = rw (mod-eq_of_lt small) (record {
    over = record {
      closed = l.over.closed;
      closing = l.over.closing;
      dispatcher = l.over.dispatcher;
    };
    found =
        rw
          (find-emplace_other id (s.client.next_request + 1) f.call s.client.pending
            (omega (arith, l.below)))
          l.found;
    threads =
        All-set (NotSending id) s.starting i _ l.threads
          (λ e. let same : s.client.next_request + 1 ≡ id = cc in omega (arith, same, l.below));
    below = omega (arith, l.below);
  })
  after_match-Lost i f (Await.refused status) s small l = record {
    over = record {
      closed = l.over.closed;
      closing = l.over.closing;
      dispatcher = l.over.dispatcher;
    };
    found = l.found;
    threads = All-erase_idx (NotSending id) s.starting i l.threads;
    below = l.below;
  }
  after_match-Lost i f Await.waits s small l = record {
    over = record {
      closed = l.over.closed;
      closing = l.over.closing;
      dispatcher = l.over.dispatcher;
    };
    found = l.found;
    threads = All-set (NotSending id) s.starting i _ l.threads (λ e. cc);
    below = l.below;
  }

  pub send_failed-Lost :
      (i j : ℕ) (status : Status) (found : Option Pending) (s : Threads)
      → j ≢ id
      → Lost id p s
      → Lost id p (send_failed i j status found s)
  unfolding send_failed
  send_failed-Lost i j status none s other l = record {
    over = record {
      closed = l.over.closed;
      closing = l.over.closing;
      dispatcher = l.over.dispatcher;
    };
    found = l.found;
    threads = All-erase_idx (NotSending id) s.starting i l.threads;
    below = l.below;
  }
  send_failed-Lost i j status (some q) s other l = record {
    over = record {
      closed = l.over.closed;
      closing = l.over.closing;
      dispatcher = l.over.dispatcher;
    };
    found = rw (find-erase id j s.client.pending other) l.found;
    threads = All-erase_idx (NotSending id) s.starting i l.threads;
    below = l.below;
  }

  pub step-Lost :
      {s s' : Threads} → s.client.next_request + 1 < 2 ^ 64 → Move s s' → Lost id p s → Lost id p s'
  unfolding begin_call seek poll_heartbeats
  step-Lost {s} small (Move.starts callback timeout now may_wait positive) l = record {
    over = record {
      closed = l.over.closed;
      closing = l.over.closing;
      dispatcher = l.over.dispatcher;
    };
    found = l.found;
    threads = All-append (NotSending id) s.starting _ l.threads ((λ e. cc), tt);
    below = l.below;
  }
  step-Lost {s} small (Move.seeks i f heartbeats seen now later matched at place) l =
      if_cases (Lost id p) s.client.closed _ _
        (λ _. after_match-Lost i f (Await.refused _) s small l)
        (λ e. let no_ = l.over.closed in absurd cc)
  step-Lost {s} small (Move.matches i f now matched at place) l = after_match-Lost i f _ s small l
  step-Lost {s} small (Move.sends i f j at place) l = record {
    over = record {
      closed = l.over.closed;
      closing = l.over.closing;
      dispatcher = l.over.dispatcher;
    };
    found = l.found;
    threads = All-erase_idx (NotSending id) s.starting i l.threads;
    below = l.below;
  }
  step-Lost {s} small (Move.fails i f j status at place) l =
      send_failed-Lost i j status _ s
        (λ same.
          All-get_elem? (NotSending id) s.starting i f l.threads at (place ∙ ap sending same))
        l
  step-Lost {s} small Move.data_arrives l = record {
    over = record {
      closed = l.over.closed;
      closing = l.over.closing;
      dispatcher = l.over.dispatcher;
    };
    found = l.found;
    threads = l.threads;
    below = l.below;
  }
  step-Lost {s} small (Move.looks heartbeats) l = record {
    over = record {
      closed = l.over.closed;
      closing = l.over.closing;
      dispatcher = l.over.dispatcher;
    };
    found = l.found;
    threads = l.threads;
    below = l.below;
  }
  step-Lost {s} small (Move.wakes heartbeats phase) l = let no_ = l.over.dispatcher in absurd cc
  step-Lost {s} small (Move.reads message phase) l = let no_ = l.over.dispatcher in absurd cc
  step-Lost {s} small (Move.ends_reading now heartbeats seen phase) l =
      let no_ = l.over.dispatcher in absurd cc
  step-Lost {s} small (Move.runs c rest phase e) l = let no_ = l.over.dispatcher in absurd cc
  step-Lost {s} small (Move.goes_on phase e) l = let no_ = l.over.dispatcher in absurd cc
  step-Lost {s} small (Move.closes e) l = let no_ = l.over.closed in absurd cc
  step-Lost {s} small (Move.joins e over) l = let no_ = l.over.closing in absurd cc
  step-Lost {s} small (Move.cancels c rest e) l = let no_ = l.over.closing in absurd cc

  pub run-Lost : {s s' : Threads} → Follows s s' → Lost id p s → Lost id p s'
  run-Lost Follows.stays l = l
  run-Lost (Follows.goes before small step) l = step-Lost small step (run-Lost before l)
