-- ===== src/Configuration/Supervisor/Ending.antt =====
-- src/configuration/supervisor.cpp: the reasons for which a system ends, through a round of Supervise.
use puppet_master.Base.{
  ℕ, suc, ◌<>◌, List, [], ◌∷◌, Option, none, some, Bool, true, false, not, ◌&&◌, leb, if◌then◌else◌,
  if_both, if_cases, all, any, get_elem?, ◌≡◌, refl, ◌∙◌, ◌⊎◌, inl, inr, OnSome, Bool-cases, subst,
}
use puppet_master.Core.Result.{Result, value, failure}
use puppet_master.Configuration.Supervisor.State.{
  ProcessExit, SupervisorOptions, SupervisorResult, Phase, pending, running, backoff, done, is_done,
  Node, Impl,
}
use puppet_master.Configuration.Supervisor.Policy.{
  Outcome, settle, wants_restart, allows_restart, required_ends, give_up, ended, start, Look, poll,
  supervise_in, supervise_node, supervise_nodes, all_ended, supervise,
}

-- The result that a required node gives when it is done.
abbrev pub node_result : Node → SupervisorResult
node_result n = record {
  reason = "required node " <> n.manifest.name <> (if n.failed then " failed" else " ended");
  exit_code = if n.failed then 1 else 0;
}

abbrev pub nodes_result : List Node → SupervisorResult
nodes_result nodes = record {
  reason = "every node ended";
  exit_code = if any (λ n. n.failed) nodes then 1 else 0;
}

-- A required node that is done for good is the reason.
abbrev pub IsReason : Node → SupervisorResult → Type 0
IsReason n r = (n.phase ≡ done) × (n.manifest.required ≡ true) × (r ≡ node_result n)

-- Some such node is, or that every node is done.
abbrev pub Justified : List Node → SupervisorResult → Type 0
Justified nodes r =
    ((i : ℕ) × (n : Node) × (get_elem? nodes i ≡ some n) × IsReason n r)
    ⊎ (all (λ n. is_done n.phase) nodes ≡ true) × (r ≡ nodes_result nodes)

-- An outcome gives the reason that there was, or its node is a new one.
abbrev pub Explains : Option SupervisorResult → Outcome → Type 0
Explains before p = (p.1 ≡ before) ⊎ ((r : SupervisorResult) × (p.1 ≡ some r) × IsReason p.0 r)

required_ends_cases :
    (succeeded : Bool) (n : Node) (e : Option SupervisorResult)
    → n.phase ≡ done
    → n.failed ≡ not succeeded
    → (required_ends succeeded n e ≡ e)
      ⊎ ((r : SupervisorResult) × (required_ends succeeded n e ≡ some r) × IsReason n r)
unfolding required_ends
required_ends_cases succeeded n (some r) hp hf = inl refl
required_ends_cases true n none hp hf = elim (Bool-cases n.manifest.required) [
  | inl req ↦ inr (node_result n, rw (req, hf) refl, (hp, req, refl))
  | inr free ↦ inl (rw free refl)
]
required_ends_cases false n none hp hf = elim (Bool-cases n.manifest.required) [
  | inl req ↦ inr (node_result n, rw (req, hf) refl, (hp, req, refl))
  | inr free ↦ inl (rw free refl)
]

module _ (options : SupervisorOptions) where
  ended-Explains :
      (succeeded : Bool) (started_at now : ℕ) (n : Node) (e : Option SupervisorResult)
      → Explains e (ended options succeeded started_at now n e)
  unfolding ended give_up
  ended-Explains succeeded started_at now n e =
      let s = settle options started_at now n in
      if_both (Explains e) (wants_restart s.manifest.restart succeeded && allows_restart s) _ _
        (inl refl)
        (required_ends_cases succeeded (record s { phase = done; failed = not succeeded }) e refl
          refl)

  pub start-Explains :
      (launched : Result ℕ) (now : ℕ) (n : Node) (e : Option SupervisorResult)
      → Explains e (start options launched now n e)
  unfolding start
  start-Explains (failure status) now n e = ended-Explains false now now n e
  start-Explains (value id) now n e = inl refl

  poll-Explains :
      (now : ℕ) (exit : Option ProcessExit) (n : Node) (e : Option SupervisorResult)
      → Explains e (poll options now exit n e)
  unfolding poll
  poll-Explains now none n e = inl refl
  poll-Explains now (some x) n e = ended-Explains _ _ now n e

  supervise_in-Explains :
      (p : Phase) (look : Look) (n : Node) (e : Option SupervisorResult)
      → Explains e (supervise_in p options look n e)
  unfolding supervise_in
  supervise_in-Explains running look n e = poll-Explains look.now look.exit n e
  supervise_in-Explains backoff look n e =
      if_both (Explains e) (leb n.restart_at look.now) _ _
        (start-Explains look.launched look.now n e) (inl refl)
  supervise_in-Explains pending look n e = inl refl
  supervise_in-Explains done look n e = inl refl

  -- A round over the nodes keeps the reason, or one of its nodes gives one.
  abbrev Found : List Node → Option SupervisorResult → Type 0
  Found nodes last =
      (r : SupervisorResult) × (i : ℕ) × (n : Node) × (last ≡ some r)
      × (get_elem? nodes i ≡ some n)
      × IsReason n r

  supervise_nodes-Found :
      (looks : ℕ → Look) (i : ℕ) (nodes : List Node) (e : Option SupervisorResult)
      → let (out, last, es) = supervise_nodes options looks i nodes e in (last ≡ e) ⊎ Found out last
  unfolding supervise_nodes supervise_node
  supervise_nodes-Found looks i [] e = inl refl
  supervise_nodes-Found looks i (n ∷ nodes) e =
      let first = supervise_in n.phase options (looks i) n e in
      elim (supervise_nodes-Found looks (suc i) nodes first.1) [
        | inr (r, j, m, el, eg, reason) ↦ inr (r, suc j, m, el, eg, reason)
        | inl same ↦ elim (supervise_in-Explains n.phase (looks i) n e) [
          | inl kept ↦ inl (same ∙ kept)
          | inr (r, el, reason) ↦ inr (r, 0, first.0, same ∙ el, refl, reason)
        ]
      ]

  all_ended-Justified :
      (nodes : List Node) (last : Option SupervisorResult)
      → (last ≡ none) ⊎ Found nodes last
      → OnSome (Justified nodes) (all_ended nodes last)
  unfolding all_ended
  all_ended-Justified nodes none h =
      if_cases (OnSome (Justified nodes)) (all (λ n. is_done n.phase) nodes) _ _
        (λ all_. inr (all_, refl)) (λ _. tt)
  all_ended-Justified nodes (some r) (inl h) = absurd (some_not_none h)
    where
      some_not_none : some r ≡ none → ⊥
      some_not_none h = cc
  all_ended-Justified nodes (some r) (inr (r', i, n, el, eg, reason)) =
      let same : r' ≡ r = cc in inl (i, n, eg, subst (IsReason n) same reason)

  pub supervise-Justified :
      (looks : ℕ → Look) (s : Impl)
      → s.ending ≡ none
      → OnSome (Justified (supervise options looks s).nodes) (supervise options looks s).ending
  unfolding supervise
  supervise-Justified looks s e =
      let out = supervise_nodes options looks 0 s.nodes s.ending in
      all_ended-Justified out.0 out.1 (elim (supervise_nodes-Found looks 0 s.nodes s.ending) [
        | inl same ↦ inl (same ∙ e)
        | inr found ↦ inr found
      ])
