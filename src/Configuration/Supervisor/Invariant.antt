-- ===== src/Configuration/Supervisor/Invariant.antt =====
-- src/configuration/supervisor.cpp: what holds of a Supervisor at every step of Run.
use puppet_master.Base.{
  All-set, All-get_elem?, ℕ, List, [], ◌∷◌, Option, none, some, true, ◌=ₛ◌, if_both, if_cases,
  option_cases, All, get_elem?, get_elem?-set, set, map, arith, ◌≡◌, refl, inl, inr, OnSome,
}
use puppet_master.Configuration.Manifest.{NodeManifest}
use puppet_master.Configuration.Supervisor.State.{
  SupervisorOptions, SupervisorResult, Node, Impl, new_node, init,
}
use puppet_master.Configuration.Supervisor.Policy.{Outcome, start}
use puppet_master.Configuration.Supervisor.Running.{
  Position, launching, watching, finished, Run, Turn, is_over, launch, run_at, run_step, begin_run,
  Input, turns, stop_requests, take_input, run_all, request_stop,
}
use puppet_master.Configuration.Supervisor.Pacing.{IsPaced, start-IsPaced}
use puppet_master.Configuration.Supervisor.Ending.{Justified, Explains, start-Explains}
use puppet_master.Configuration.Supervisor.Launches.{set-PendingFrom, map-PendingFrom}
use puppet_master.Configuration.Supervisor.Watching.{
  Supervised, Holds, HoldsAt, not_over, watch-Holds,
}

launched-reasons :
    (nodes : List Node) (i : ℕ) (node : Node) (before : Option SupervisorResult) (out : Outcome)
    → get_elem? nodes i ≡ some node
    → before ≡ none
    → Explains before out
    → OnSome (Justified (set nodes i out.0)) out.1
launched-reasons nodes i node before out found none_ (inl same) = rw (same, none_) tt
launched-reasons nodes i node before out found none_ (inr (r, e, reason)) =
    rw e (inl (i, out.0, get_elem?-set nodes i out.0 found, reason))

launch-Holds :
    (options : SupervisorOptions) (turn : Turn) (i : ℕ) (s : Impl)
    → Supervised options i s
    → HoldsAt options (launch options turn i s)
unfolding launch
launch-Holds options turn i s h =
    option_cases (HoldsAt options) (get_elem? s.nodes i) _ _ (λ _. h)
      (λ node found.
        let n = (start options turn.launched turn.now node s.ending).0 in
        let e = (start options turn.launched turn.now node s.ending).1 in
        let waits = h.later i node (omega arith) found in
        let paced = All-get_elem? (IsPaced options) s.nodes i _ h.paced found in
        if_cases (HoldsAt options) (is_over s) _ _ (λ _. h)
          (λ open_. record {
            paced =
                All-set (IsPaced options) s.nodes i n h.paced (
                  start-IsPaced options turn.launched turn.now node s.ending paced (rw waits refl));
            reasons =
                launched-reasons s.nodes i node s.ending
                  (start options turn.launched turn.now node s.ending) found
                  (not_over s.ending s.stop_requested open_)
                  (start-Explains options turn.launched turn.now node s.ending);
            later = set-PendingFrom i s.nodes n h.later;
          }))

run_at-Holds :
    (options : SupervisorOptions) (turn : Turn) (p : Position) (s : Impl)
    → Holds options p s
    → HoldsAt options (run_at p options turn s)
unfolding run_at
run_at-Holds options turn (launching i) s h = launch-Holds options turn i s h
run_at-Holds options turn (watching next deadline) s h = watch-Holds options turn next deadline s h
run_at-Holds options turn (finished r) s h = h

request_stop-Holds :
    (options : SupervisorOptions) (p : Position) (s : Impl)
    → Holds options p s
    → Holds options p (request_stop s)
request_stop-Holds options (launching i) s h = record {
  paced = h.paced;
  reasons = h.reasons;
  later = h.later;
}
request_stop-Holds options (watching next deadline) s h = record {
  paced = h.paced;
  reasons = h.reasons;
  later = h.later;
}
request_stop-Holds options (finished r) s h = record {
  stopped = h.stopped;
  explained = elim h.explained [ inl (_, e) ↦ inl (refl, e) | inr why ↦ inr why ];
}

take_input-Holds :
    (options : SupervisorOptions) (x : Input) (r : Run)
    → HoldsAt options r
    → HoldsAt options (take_input options x r)
unfolding take_input run_step
take_input-Holds options (turns turn) r h = run_at-Holds options turn r.position r.impl h
take_input-Holds options stop_requests r h = request_stop-Holds options r.position r.impl h

from_Holds :
    (options : SupervisorOptions) (xs : List Input) (r : Run)
    → HoldsAt options r
    → HoldsAt options (run_all options xs r)
unfolding run_all
from_Holds options [] r h = h
from_Holds options (x ∷ xs) r h =
    from_Holds options xs (take_input options x r) (take_input-Holds options x r h)

init-IsPaced :
    (options : SupervisorOptions) (ms : List NodeManifest) → All (IsPaced options) (map new_node ms)
unfolding new_node
init-IsPaced options [] = tt
init-IsPaced options (m ∷ ms) = (
  record { spaced = ground arith; limited = inr (omega arith); owned = refl; final = λ e. cc },
  init-IsPaced options ms,
)

-- A supervisor that could create its log directory: after any steps of Run and stop requests, while it
-- supervises its nodes, each node's restarts are within its limit and its delay is the manifest's
-- doubled for each of them up to the cap, a node has a process just while it is running, nodes that
-- are to come are pending, and a reason to end is a required node that is done or that all are; once it
-- has finished, no process is left, and its result is that a stop was requested or such a reason, with
-- exit code 1 just if that node, or some node, failed.
pub run_all-Holds :
    (options : SupervisorOptions) (manifests : List NodeManifest) (inputs : List Input)
    → HoldsAt options (run_all options inputs (begin_run options none (init manifests)))
unfolding begin_run init
run_all-Holds options manifests inputs =
    let ready : Supervised options 0 (record (init manifests) { ran = true }) = record {
      paced = init-IsPaced options manifests;
      reasons = tt;
      later = map-PendingFrom manifests;
    } in
    from_Holds options inputs _
      (if_both (HoldsAt options) (options.log_directory =ₛ "") _ _ ready ready)
