-- ===== src/Configuration/Supervisor/Policy.antt =====
-- src/configuration/supervisor.cpp: Start, Ended and Supervise. A function on a node takes the reason
-- for which the system ends, if there is one, and gives it back with the node and its events.
use puppet_master.Base.{
  ℕ, suc, ◌+◌, ◌-◌, ◌*◌, min, max, ◌<>◌, ◌==◌, leb, ltb, List, [], ◌∷◌, ◌++◌, Option, none, some,
  Bool, true, false, not, ◌&&◌, ◌||◌, if◌then◌else◌, all, any, to_decimal,
}
use puppet_master.Core.Result.{Result, value, failure}
use puppet_master.Configuration.Manifest.{NodeManifest, Restart, never, on_failure, always}
use puppet_master.Configuration.Supervisor.State.{
  ProcessExit, success, exit_to_string, started, start_failed, exited, restarting, gave_up,
  SupervisorEvent, SupervisorResult, SupervisorOptions, Phase, pending, running, backoff, done,
  is_done, Node, Impl, of_ms, event, milliseconds,
}

abbrev pub Outcome : Type 0
Outcome = Node × Option SupervisorResult × List SupervisorEvent

-- The part of `Ended` that forgives the restarts before a long run.
unfoldable pub settle : SupervisorOptions → ℕ → ℕ → Node → Node
settle options started_at now node =
    if leb (of_ms options.stable_run) (now - started_at)
    then record node { child = none; restarts = 0; delay = node.manifest.restart_delay }
    else record node { child = none }

abbrev pub wants_restart : Restart → Bool → Bool
wants_restart never succeeded = false
wants_restart on_failure succeeded = not succeeded
wants_restart always succeeded = true

abbrev pub allows_restart : Node → Bool
allows_restart node =
    node.manifest.max_restarts == 0 || ltb node.restarts node.manifest.max_restarts

abbrev pub delay_cap : SupervisorOptions → NodeManifest → ℕ
delay_cap options m = max options.max_restart_delay m.restart_delay

-- The branch of `Ended` that plans a restart.
unfoldable pub plan_restart : SupervisorOptions → ℕ → Node → Node × SupervisorEvent
plan_restart options now node =
    let restarts = node.restarts + 1 in
    let detail = "in " <> milliseconds node.delay <> ", restart " <> to_decimal restarts in
    let limit = node.manifest.max_restarts in
    let full = if not (limit == 0) then detail <> " of " <> to_decimal limit else detail in
    (
      record node {
        phase = backoff;
        restarts = restarts;
        restart_at = now + of_ms node.delay;
        delay = min (node.delay * 2) (delay_cap options node.manifest);
      },
      event restarting node full,
    )

unfoldable pub required_ends : Bool → Node → Option SupervisorResult → Option SupervisorResult
required_ends succeeded node (some r) = some r
required_ends succeeded node none =
    if node.manifest.required
    then some (record {
      reason =
          "required node " <> node.manifest.name <> (if succeeded then " ended" else " failed");
      exit_code = if succeeded then 0 else 1;
    })
    else none

-- The branch of `Ended` that gives the node up.
unfoldable pub give_up : Bool → Bool → Node → Option SupervisorResult → Outcome
unfolding required_ends
give_up wanted succeeded node ending =
    let final = record node { phase = done; failed = not succeeded } in
    let detail = "after " <> to_decimal node.restarts <> " restarts" in
    (
      final,
      required_ends succeeded node ending,
      if wanted then event gave_up node detail ∷ [] else [],
    )

-- `Ended`.
unfoldable pub ended : SupervisorOptions → Bool → ℕ → ℕ → Node → Option SupervisorResult → Outcome
ended options succeeded started_at now node ending =
    let settled = settle options started_at now node in
    let wanted = wants_restart settled.manifest.restart succeeded in
    if wanted && allows_restart settled
    then (let (planned, e) = plan_restart options now settled in (planned, ending, e ∷ []))
    else give_up wanted succeeded settled ending

-- `Start`, with what the launcher gives: the child's number, or why there is none.
unfoldable pub start : SupervisorOptions → Result ℕ → ℕ → Node → Option SupervisorResult → Outcome
start options (failure status) now node ending =
    let (n, r, es) = ended options false now now node ending in
    (n, r, event start_failed node status.message ∷ es)
start options (value id) now node ending = (
  record node { child = some id; phase = running; started_at = now },
  ending,
  event started node ("pid " <> to_decimal id) ∷ [],
)

-- What a round of `Supervise` meets at one node: the time, what a poll says, and what a launch gives.
pub record Look : Type 0 where
  pub now : ℕ
  pub exit : Option ProcessExit
  pub launched : Result ℕ

-- The branch of `Supervise` for a running node, with what the poll says.
unfoldable pub poll :
    SupervisorOptions → ℕ → Option ProcessExit → Node → Option SupervisorResult → Outcome
poll options now none node ending = (node, ending, [])
poll options now (some e) node ending =
    let (n, r, es) = ended options (success e) node.started_at now node ending in
    (n, r, event exited node (exit_to_string e) ∷ es)

-- The body of the loop of `Supervise` for a node in this phase.
unfoldable pub supervise_in :
    Phase → SupervisorOptions → Look → Node → Option SupervisorResult → Outcome
supervise_in running options look node ending = poll options look.now look.exit node ending
supervise_in backoff options look node ending =
    if leb node.restart_at look.now
    then start options look.launched look.now node ending
    else (node, ending, [])
supervise_in pending options look node ending = (node, ending, [])
supervise_in done options look node ending = (node, ending, [])

unfoldable pub supervise_node : SupervisorOptions → Look → Node → Option SupervisorResult → Outcome
unfolding supervise_in
supervise_node options look node ending = supervise_in node.phase options look node ending

-- The loop of `Supervise`, from the node with this index on.
unfoldable pub supervise_nodes :
    SupervisorOptions
    → (ℕ → Look)
    → ℕ
    → List Node
    → Option SupervisorResult
    → List Node × Option SupervisorResult × List SupervisorEvent
supervise_nodes options looks i [] ending = ([], ending, [])
supervise_nodes options looks i (node ∷ nodes) ending =
    let (n, r, es) = supervise_node options (looks i) node ending in
    let (ns, last, fs) = supervise_nodes options looks (suc i) nodes r in (n ∷ ns, last, es ++ fs)

-- The end of `Supervise`.
unfoldable pub all_ended : List Node → Option SupervisorResult → Option SupervisorResult
all_ended nodes (some r) = some r
all_ended nodes none =
    if all (λ n. is_done n.phase) nodes
    then some (record {
      reason = "every node ended";
      exit_code = if any (λ n. n.failed) nodes then 1 else 0;
    })
    else none

-- `Supervise`.
unfoldable pub supervise : SupervisorOptions → (ℕ → Look) → Impl → Impl
supervise options looks s =
    let (nodes, ending, events) = supervise_nodes options looks 0 s.nodes s.ending in
    record s { nodes = nodes; ending = all_ended nodes ending; events = s.events ++ events }
