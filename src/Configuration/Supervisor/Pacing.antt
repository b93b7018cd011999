-- ===== src/Configuration/Supervisor/Pacing.antt =====
-- src/configuration/supervisor.cpp: how a node's restarts are counted and spaced, through every step.
use native.Mathlib.Numerals.{towards_suc}
use puppet_master.Base.{
  ℕ, suc, ◌+◌, ◌*◌, ◌^◌, min, ◌≤◌, List, [], ◌∷◌, Option, none, some, Bool, true, false, ◌&&◌, leb,
  if_both, if_cases, All, arith, ◌≡◌, refl, ap, ◌⊎◌,
}
use puppet_master.Core.Result.{Result, value, failure}
use puppet_master.Configuration.Supervisor.State.{
  ProcessExit, SupervisorOptions, SupervisorResult, Phase, pending, running, backoff, done, is_done,
  is_running, Node,
}
use puppet_master.Configuration.Supervisor.Policy.{
  Outcome, settle, wants_restart, allows_restart, delay_cap, plan_restart, give_up, ended, start,
  Look, poll, supervise_in, supervise_node, supervise_nodes,
}
use puppet_master.Configuration.Supervisor.Running.{is_some}

-- The delay before the next restart is the manifest's, doubled for each restart since the last long
-- run, up to the cap; there are no more such restarts than allowed; a node has a child just while it
-- is running; and only a node that is done has failed.
pub record IsPaced (options : SupervisorOptions) (n : Node) : Type 0 where
  pub spaced :
      n.delay ≡ min (n.manifest.restart_delay * 2 ^ n.restarts) (delay_cap options n.manifest)
  pub limited : (n.manifest.max_restarts ≡ 0) ⊎ (n.restarts ≤ n.manifest.max_restarts)
  pub owned : is_running n.phase ≡ is_some n.child
  pub final : n.failed ≡ true → is_done n.phase ≡ true

twice : (k : ℕ) → 2 ^ (k + 1) ≡ 2 ^ k * 2
twice k = simp towards_suc (omega arith)

doubled : (d k : ℕ) → d * 2 ^ (k + 1) ≡ d * 2 ^ k * 2
doubled d k = omega (arith, ap (λ (t : ℕ). d * t) (twice k))

once : (d : ℕ) → d * 2 ^ 0 ≡ d
once d = omega arith

module _ (options : SupervisorOptions) where
  settle-IsPaced :
      (started_at now : ℕ) (n : Node)
      → IsPaced options n
      → (let s = settle options started_at now n in
          (s.delay ≡ min (s.manifest.restart_delay * 2 ^ s.restarts) (delay_cap options s.manifest))
          × ((s.manifest.max_restarts ≡ 0) ⊎ (s.restarts ≤ s.manifest.max_restarts))
          × (s.child ≡ none)
          × (s.failed ≡ n.failed)
          × (s.manifest ≡ n.manifest))
  unfolding settle
  settle-IsPaced started_at now n h = ground (arith, once n.manifest.restart_delay)

  ended-IsPaced :
      (succeeded : Bool) (started_at now : ℕ) (n : Node) (r : Option SupervisorResult)
      → IsPaced options n
      → is_done n.phase ≡ false
      → IsPaced options (ended options succeeded started_at now n r).0
  unfolding ended plan_restart give_up
  ended-IsPaced succeeded started_at now n r h open_ =
      let s = settle options started_at now n in
      let (spaced, limited, alone, failed, same) = settle-IsPaced started_at now n h in
      let two = doubled s.manifest.restart_delay s.restarts in
      let fine = h.final in
      if_cases (λ (p : Outcome). IsPaced options p.0)
        (wants_restart s.manifest.restart succeeded && allows_restart s) _ _
        (λ yes_. record {
          spaced = ground (arith, two, spaced);
          limited = ground arith;
          owned = ground arith;
          final = ground arith;
        })
        (λ no_. record {
          spaced = spaced;
          limited = limited;
          owned = ground arith;
          final = λ _. refl;
        })

  pub start-IsPaced :
      (launched : Result ℕ) (now : ℕ) (n : Node) (r : Option SupervisorResult)
      → IsPaced options n
      → is_done n.phase ≡ false
      → IsPaced options (start options launched now n r).0
  unfolding start
  start-IsPaced (failure status) now n r h open_ = ended-IsPaced false now now n r h open_
  start-IsPaced (value id) now n r h open_ =
      let fine = h.final in
      record { spaced = h.spaced; limited = h.limited; owned = refl; final = ground arith }

  poll-IsPaced :
      (now : ℕ) (exit : Option ProcessExit) (n : Node) (r : Option SupervisorResult)
      → IsPaced options n
      → is_done n.phase ≡ false
      → IsPaced options (poll options now exit n r).0
  unfolding poll
  poll-IsPaced now none n r h open_ = h
  poll-IsPaced now (some e) n r h open_ = ended-IsPaced _ _ now n r h open_

  supervise_in-IsPaced :
      (p : Phase) (look : Look) (n : Node) (r : Option SupervisorResult)
      → n.phase ≡ p
      → IsPaced options n
      → IsPaced options (supervise_in p options look n r).0
  unfolding supervise_in
  supervise_in-IsPaced running look n r e h = poll-IsPaced look.now look.exit n r h (rw e refl)
  supervise_in-IsPaced backoff look n r e h =
      if_both (λ (p : Outcome). IsPaced options p.0) (leb n.restart_at look.now) _ _
        (start-IsPaced look.launched look.now n r h (rw e refl)) h
  supervise_in-IsPaced pending look n r e h = h
  supervise_in-IsPaced done look n r e h = h

  pub supervise_nodes-IsPaced :
      (looks : ℕ → Look) (i : ℕ) (nodes : List Node) (r : Option SupervisorResult)
      → All (IsPaced options) nodes
      → All (IsPaced options) (supervise_nodes options looks i nodes r).0
  unfolding supervise_nodes supervise_node
  supervise_nodes-IsPaced looks i [] r h = tt
  supervise_nodes-IsPaced looks i (n ∷ nodes) r (h, hs) = (
    supervise_in-IsPaced n.phase (looks i) n r refl h,
    supervise_nodes-IsPaced looks (suc i) nodes _ hs,
  )
