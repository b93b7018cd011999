-- ===== src/Configuration/Supervisor/Watching.antt =====
-- src/configuration/supervisor.cpp: what the loop of Run keeps while it watches the nodes.
use puppet_master.Base.{
  All-weaken, ℕ, List, Option, none, some, Bool, true, false, ◌||◌, if_cases, All, ◌≡◌, refl, ◌⊎◌,
  inl, inr, OnSome,
}
use puppet_master.Configuration.Supervisor.State.{
  SupervisorOptions, SupervisorResult, is_running, Node, Impl,
}
use puppet_master.Configuration.Supervisor.Policy.{Look, supervise}
use puppet_master.Configuration.Supervisor.Running.{
  StopLook, stop_nodes, stop_all, Position, launching, watching, finished, Run, Turn, is_over,
  is_some, result_of, finish, leave_watch, watch, reached,
}
use puppet_master.Configuration.Supervisor.Pacing.{IsPaced, supervise_nodes-IsPaced}
use puppet_master.Configuration.Supervisor.Ending.{Justified, supervise-Justified}
use puppet_master.Configuration.Supervisor.Launches.{
  PendingFrom, supervise_nodes-PendingFrom, IsStopped, stop_nodes-IsStopped, get_elem?-stop_nodes,
  any-stop_nodes, all-stop_nodes,
}

abbrev pub stop_result : SupervisorResult
stop_result = record { reason = "stop requested"; exit_code = 0 }

-- While the nodes are supervised, and once they are stopped.
pub record Supervised (options : SupervisorOptions) (next : ℕ) (s : Impl) : Type 0 where
  pub paced : All (IsPaced options) s.nodes
  pub reasons : OnSome (Justified s.nodes) s.ending
  pub later : PendingFrom next s.nodes

pub record Ended (r : SupervisorResult) (s : Impl) : Type 0 where
  pub stopped : All IsStopped s.nodes
  pub explained : (s.stop_requested ≡ true) × (r ≡ stop_result) ⊎ Justified s.nodes r

abbrev pub Holds : SupervisorOptions → Position → Impl → Type 0
Holds options (launching i) s = Supervised options i s
Holds options (watching next deadline) s = Supervised options next s
Holds options (finished r) s = Ended r s

abbrev pub HoldsAt : SupervisorOptions → Run → Type 0
HoldsAt options r = Holds options r.position r.impl

-- Stopping keeps a justified reason justified.
pub Justified-stop_nodes :
    (looks : ℕ → StopLook) (nodes : List Node) (r : SupervisorResult)
    → All (λ n. is_running n.phase ≡ is_some n.child) nodes
    → Justified nodes r
    → Justified (stop_nodes looks 0 nodes).0 r
Justified-stop_nodes looks nodes r owned (inl (i, n, found, (d, req, e))) =
    let (m, found', (manifest, failed, d')) = get_elem?-stop_nodes looks 0 nodes i n owned found in
    inl (i, m, found', (d', rw manifest req, rw (manifest, failed) e))
Justified-stop_nodes looks nodes r owned (inr (all_, e)) =
    inr (all-stop_nodes looks 0 nodes, rw (any-stop_nodes looks 0 nodes) e)

pub result_of-explained :
    (nodes : List Node) (e : Option SupervisorResult) (stop : Bool)
    → OnSome (Justified nodes) e
    → (is_some e || stop) ≡ true
    → (stop ≡ true) × (result_of e ≡ stop_result) ⊎ Justified nodes (result_of e)
result_of-explained nodes none stop h over = inl (over, refl)
result_of-explained nodes (some r) stop h over = inr h

pub not_over : (e : Option SupervisorResult) (stop : Bool) → (is_some e || stop) ≡ false → e ≡ none
not_over none stop h = refl
not_over (some r) stop h = cc

module _ (options : SupervisorOptions) (turn : Turn) (next : ℕ) where
  pub finish-Ended :
      (s : Impl) → Supervised options next s → is_over s ≡ true → HoldsAt options (finish turn s)
  unfolding finish stop_all
  finish-Ended s h over =
      let owned = All-weaken (IsPaced options) _ (λ n p. p.owned) s.nodes h.paced in
      record {
        stopped = stop_nodes-IsStopped turn.stops 0 s.nodes owned;
        explained = elim (result_of-explained s.nodes s.ending s.stop_requested h.reasons over) [
          | inl stop ↦ inl stop
          | inr why ↦ inr (Justified-stop_nodes turn.stops s.nodes _ owned why)
        ];
      }

  pub leave_watch-Holds :
      (deadline : Option ℕ) (s : Impl)
      → Supervised options next s
      → (is_over s ≡ true) ⊎ (reached deadline turn.after ≡ true)
      → HoldsAt options (leave_watch turn next deadline s)
  leave_watch-Holds (some d) s h why = h
  leave_watch-Holds none s h (inl over) = finish-Ended s h over
  leave_watch-Holds none s h (inr e) = cc

  pub supervise-Supervised :
      (looks : ℕ → Look) (s : Impl)
      → Supervised options next s
      → s.ending ≡ none
      → Supervised options next (supervise options looks s)
  supervise-Supervised looks s h e = record {
    paced = unfold supervise in supervise_nodes-IsPaced options looks 0 s.nodes s.ending h.paced;
    reasons = supervise-Justified options looks s e;
    later =
        unfold supervise in
        supervise_nodes-PendingFrom options looks 0 next s.nodes s.ending h.later;
  }

  pub watch-Holds :
      (deadline : Option ℕ) (s : Impl)
      → Supervised options next s
      → HoldsAt options (watch options turn next deadline s)
  unfolding watch
  watch-Holds deadline s h =
      let seen = supervise options turn.looks s in
      if_cases (HoldsAt options) (is_over s) _ _ (λ over. leave_watch-Holds deadline s h (inl over))
        (λ open_.
          let h' = supervise-Supervised turn.looks s h (not_over s.ending s.stop_requested open_) in
          if_cases (HoldsAt options) (is_some seen.ending || reached deadline turn.after) _ _
            (λ ends.
              leave_watch-Holds deadline seen h' (either seen.ending _ seen.stop_requested ends))
            (λ _. h'))
    where
      either :
          (e : Option SupervisorResult) (late stop : Bool)
          → (is_some e || late) ≡ true
          → ((is_some e || stop) ≡ true) ⊎ (late ≡ true)
      either none late stop h = inr h
      either (some r) late stop h = inl refl
