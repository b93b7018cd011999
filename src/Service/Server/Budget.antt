-- ===== src/Service/Server/Budget.antt =====
-- src/service/service.cpp: what a pass of ServePending counts.
use puppet_master.Base.{
  ℕ, zero, suc, ◌+◌, ◌≤◌, List, [], ◌∷◌, Option, none, some, Bool, true, false, ◌&&◌, not, arith,
  ◌≡◌, refl, if_both,
}
use puppet_master.Base.Int.{pos, eq_ℤ, ltb_ℤ}
use puppet_master.Core.Result.{result_cases}
use puppet_master.Transport.Message.{Message}
use puppet_master.Service.Envelope.{Header, decode, request_magic}
use puppet_master.Service.Server.{
  Server, Request, Handling, Surroundings, Taking, deadline_of, received_at, handle, serve,
  serve_decoded, serve_pending, one_more,
}

-- What one request adds to the counters.
abbrev Counts : Server → Server × Bool → Type 0
Counts s r =
    (r.0.handled ≡ one_more r.1 s.handled) × (r.0.handled + r.0.expired ≤ s.handled + s.expired + 1)

serve-Counts :
    (handler : Request → Handling) (m : Message) (around : Surroundings) (s : Server)
    → Counts s (serve handler m around s)
unfolding serve
serve-Counts handler m around s = decoded (decode m.payload request_magic)
  where
    decoded :
        (d : Option (Header × List ℕ))
        → Counts s (serve_decoded handler (received_at m around.arrival) d around s)
    decoded none = unfold serve_decoded in (refl, omega arith)
    decoded (some (h, payload)) =
        unfold serve_decoded handle in
        if_both (Counts s)
          (not (eq_ℤ h.budget_ns (pos 0)) && ltb_ℤ (deadline_of h _) (pos around.look)) _ _
          (refl, omega arith) (refl, omega arith)

-- What a pass adds to them, with what it counted before.
abbrev pub Counted : ℕ → ℕ → Server → Server × ℕ → Type 0
Counted budget served s r =
    (r.1 ≤ served + budget)
    × ((r.0.handled + served ≡ s.handled + r.1)
        × (r.0.handled + r.0.expired ≤ s.handled + s.expired + budget))

serve_pending-Counted_from :
    (handler : Request → Handling) (budget : ℕ) (rounds : List Taking) (served : ℕ) (s : Server)
    → Counted budget served s (serve_pending handler budget rounds served s)
unfolding serve_pending
serve_pending-Counted_from handler zero rounds served s = (omega arith, (omega arith, omega arith))
serve_pending-Counted_from handler (suc budget) [] served s =
    (omega arith, (omega arith, omega arith))
serve_pending-Counted_from handler (suc budget) (t ∷ rounds) served s =
    if_both (Counted (suc budget) served s) t.closed _ _ (omega arith, (omega arith, omega arith))
      (result_cases (Counted (suc budget) served s) t.message _ _
        (λ status e. (omega arith, (omega arith, omega arith)))
        (λ m e.
          let done = serve handler m t.around s in
          let counts = serve-Counts handler m t.around s in
          step done counts
            (serve_pending-Counted_from handler budget rounds (one_more done.1 served) done.0)))
  where
    step :
        (done : Server × Bool)
        → Counts s done
        → Counted budget
            (one_more done.1 served)
            done.0
            (serve_pending handler budget rounds (one_more done.1 served) done.0)
        → Counted
            (suc budget)
            served
            s
            (serve_pending handler budget rounds (one_more done.1 served) done.0)
    step (s', true) (same, most) (a, (b, c)) = (omega arith, (omega arith, omega arith))
    step (s', false) (same, most) (a, (b, c)) = (omega arith, (omega arith, omega arith))

-- A pass of ServePending with a budget reports no more requests than that, adds exactly what it
-- reports to the requests handled, and counts no more than its budget as handled or expired.
pub serve_pending-Counted :
    (handler : Request → Handling) (budget : ℕ) (rounds : List Taking) (s : Server)
    → Counted budget 0 s (serve_pending handler budget rounds 0 s)
serve_pending-Counted handler budget rounds s = serve_pending-Counted_from handler budget rounds 0 s
