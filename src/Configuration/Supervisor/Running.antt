-- ===== src/Configuration/Supervisor/Running.antt =====
-- src/configuration/supervisor.cpp: Run, RequestStop and StopAll. One step of `Run` makes one test of a
-- loop's condition and what follows it; between two steps a stop may be requested.
use puppet_master.Base.{
  ℕ, suc, ◌+◌, String, ◌<>◌, ◌=ₛ◌, leb, List, [], ◌∷◌, ◌++◌, Option, none, some, Bool, true, false,
  ◌||◌, if◌then◌else◌, get_elem?, set, to_decimal,
}
use puppet_master.Core.Result.{Result}
use puppet_master.Configuration.Supervisor.State.{
  ProcessExit, exit_to_string, stopping, killed, stopped, SupervisorEvent, SupervisorResult,
  SupervisorOptions, done, is_running, Node, Impl, of_ms, event, milliseconds,
}
use puppet_master.Configuration.Supervisor.Policy.{Look, start, supervise}

abbrev pub is_some {ℓ} : {A : Type ℓ} → Option A → Bool
is_some none = false
is_some (some a) = true

-- `WaitForExit`, with what each poll says and the time after it; the polls that are given end the wait.
unfoldable pub wait_for_exit : ℕ → List (Option ProcessExit × ℕ) → Option ProcessExit
wait_for_exit deadline [] = none
wait_for_exit deadline ((exit, now) ∷ polls) =
    if is_some exit || leb deadline now then exit else wait_for_exit deadline polls

-- What `StopAll` meets at one node: the polls after the request, and those after a kill.
pub record StopLook : Type 0 where
  pub now : ℕ
  pub polls : List (Option ProcessExit × ℕ)
  pub killed_at : ℕ
  pub killed_polls : List (Option ProcessExit × ℕ)

abbrev describe_exit : Option ProcessExit → String
describe_exit none = "did not end after a kill"
describe_exit (some e) = exit_to_string e

abbrev child_text : Option ℕ → String
child_text none = ""
child_text (some id) = to_decimal id

-- The body of the loop of `StopAll` for a node that is running.
unfoldable pub stop_running : StopLook → Node → List SupervisorEvent
stop_running look node =
    let first = event stopping node ("pid " <> child_text node.child) in
    let exit = wait_for_exit (look.now + of_ms node.manifest.stop_timeout) look.polls in
    let late = wait_for_exit (look.killed_at + of_ms 5000) look.killed_polls in
    let text = "still running after " <> milliseconds node.manifest.stop_timeout in
    elim exit [
      | some e ↦ first ∷ event stopped node (exit_to_string e) ∷ []
      | none ↦ first ∷ event killed node text ∷ event stopped node (describe_exit late) ∷ []
    ]

-- The body of the loop of `StopAll`.
unfoldable pub stop_node : StopLook → Node → Node × List SupervisorEvent
stop_node look node =
    let final = record node { phase = done } in
    if is_running node.phase
    then (record final { child = none }, stop_running look node)
    else (final, [])

-- `StopAll`, from the node with this index on: the last node comes first.
unfoldable pub stop_nodes : (ℕ → StopLook) → ℕ → List Node → List Node × List SupervisorEvent
stop_nodes looks i [] = ([], [])
stop_nodes looks i (node ∷ nodes) =
    let (ns, es) = stop_nodes looks (suc i) nodes in
    let (n, fs) = stop_node (looks i) node in (n ∷ ns, es ++ fs)

unfoldable pub stop_all : (ℕ → StopLook) → Impl → Impl
stop_all looks s =
    let (nodes, events) = stop_nodes looks 0 s.nodes in
    record s { nodes = nodes; events = s.events ++ events }

-- `RequestStop`.
abbrev pub request_stop : Impl → Impl
request_stop s = record s { stop_requested = true }

-- Where `Run` stands: before the node with an index is started, in `SuperviseUntil` with the next
-- node's index and a deadline, if it has one, or behind its end.
pub data Position : Type 0 where
  launching : ℕ → Position
  watching : ℕ → Option ℕ → Position
  finished : SupervisorResult → Position

pub record Run : Type 0 where
  pub impl : Impl
  pub position : Position

-- The tests of the clock, the launcher and the children that one step makes.
pub record Turn : Type 0 where
  pub now : ℕ
  pub launched : Result ℕ
  pub looks : ℕ → Look
  pub after : ℕ
  pub stops : ℕ → StopLook

abbrev pub is_over : Impl → Bool
is_over s = is_some s.ending || s.stop_requested

-- `ending ? *ending : SupervisorResult {"stop requested", 0}`.
abbrev pub result_of : Option SupervisorResult → SupervisorResult
result_of none = record { reason = "stop requested"; exit_code = 0 }
result_of (some r) = r

unfoldable pub finish : Turn → Impl → Run
finish turn s = record { impl = stop_all turn.stops s; position = finished (result_of s.ending) }

-- Behind the loop of `SuperviseUntil`.
abbrev pub leave_watch : Turn → ℕ → Option ℕ → Impl → Run
leave_watch turn next (some deadline) s = record { impl = s; position = launching next }
leave_watch turn next none s = finish turn s

abbrev pub reached : Option ℕ → ℕ → Bool
reached none now = false
reached (some deadline) now = leb deadline now

-- A round of the loop of `SuperviseUntil`.
unfoldable pub watch : SupervisorOptions → Turn → ℕ → Option ℕ → Impl → Run
watch options turn next deadline s =
    let seen = supervise options turn.looks s in
    if is_over s
    then leave_watch turn next deadline s
    else if is_some seen.ending || reached deadline turn.after
    then leave_watch turn next deadline seen
    else record { impl = seen; position = watching next deadline }

-- A round of the loop of `Run` over the nodes.
unfoldable pub launch : SupervisorOptions → Turn → ℕ → Impl → Run
launch options turn i s = elim (get_elem? s.nodes i) [
  | none ↦ record { impl = s; position = watching i none }
  | some node ↦
      let (n, r, es) = start options turn.launched turn.now node s.ending in
      if is_over s then record { impl = s; position = watching i none } else record {
        impl = record s { nodes = set s.nodes i n; ending = r; events = s.events ++ es };
        position = watching (suc i) (some (turn.now + of_ms node.manifest.start_delay));
      }
]

unfoldable pub run_at : Position → SupervisorOptions → Turn → Impl → Run
run_at (launching i) options turn s = launch options turn i s
run_at (watching next deadline) options turn s = watch options turn next deadline s
run_at (finished result) options turn s = record { impl = s; position = finished result }

unfoldable pub run_step : SupervisorOptions → Turn → Run → Run
unfolding run_at
run_step options turn r = run_at r.position options turn r.impl

-- `Run` up to its first loop, with the error of creating the log directory, if there was one.
unfoldable pub begin_run : SupervisorOptions → Option String → Impl → Run
begin_run options error s =
    let entered = record s { ran = true } in
    let twice : SupervisorResult = record { reason = "Run() was already called"; exit_code = 1 } in
    if s.ran
    then record { impl = s; position = finished twice }
    else if options.log_directory =ₛ ""
    then record { impl = entered; position = launching 0 }
    else elim error [
      | none ↦ record { impl = entered; position = launching 0 }
      | some text ↦ record {
        impl = entered;
        position = finished (record {
          reason = "creating " <> options.log_directory <> ": " <> text;
          exit_code = 1;
        });
      }
    ]

-- What happens to a running supervisor: a step of `Run`, or a stop request.
pub data Input : Type 0 where
  turns : Turn → Input
  stop_requests : Input

unfoldable pub take_input : SupervisorOptions → Input → Run → Run
take_input options (turns turn) r = run_step options turn r
take_input options stop_requests r = record r { impl = request_stop r.impl }

unfoldable pub run_all : SupervisorOptions → List Input → Run → Run
run_all options [] r = r
run_all options (x ∷ xs) r = run_all options xs (take_input options x r)
