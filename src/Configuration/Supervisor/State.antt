-- ===== src/Configuration/Supervisor/State.antt =====
-- src/configuration/supervisor.cpp: the nodes of a Supervisor, and what happens to them.
use puppet_master.Base.{
  ℕ, suc, ◌*◌, true, false, none, [], map, String, ◌<>◌, ◌==◌, List, Option, Bool, not, ◌&&◌,
  if◌then◌else◌, to_decimal,
}
use puppet_master.Base.Int.{ℤ, pos, negsuc}
use puppet_master.Configuration.Manifest.{NodeManifest}

pub record ProcessExit : Type 0 where
  pub code : ℤ
  pub signaled : Bool

abbrev is_zero : ℤ → Bool
is_zero (pos n) = n == 0
is_zero (negsuc n) = false

-- `ProcessExit::success`.
abbrev pub success : ProcessExit → Bool
success e = not e.signaled && is_zero e.code

decimal_ℤ : ℤ → String
decimal_ℤ (pos n) = to_decimal n
decimal_ℤ (negsuc n) = "-" <> to_decimal (suc n)

unfoldable pub exit_to_string : ProcessExit → String
unfolding decimal_ℤ
exit_to_string e = (if e.signaled then "signal " else "exit code ") <> decimal_ℤ e.code

pub data EventKind : Type 0 where
  started start_failed exited restarting gave_up stopping killed stopped : EventKind

unfoldable pub kind_to_string : EventKind → String
kind_to_string started = "started"
kind_to_string start_failed = "start-failed"
kind_to_string exited = "exited"
kind_to_string restarting = "restarting"
kind_to_string gave_up = "gave-up"
kind_to_string stopping = "stopping"
kind_to_string killed = "killed"
kind_to_string stopped = "stopped"

pub record SupervisorEvent : Type 0 where
  pub kind : EventKind
  pub node : String
  pub detail : String

pub record SupervisorResult : Type 0 where
  pub reason : String
  pub exit_code : ℕ

-- The options but for the launcher and the callback; the events that it gets are the model's output.
pub record SupervisorOptions : Type 0 where
  pub log_directory : String
  pub poll_interval : ℕ
  pub stable_run : ℕ
  pub max_restart_delay : ℕ

pub data Phase : Type 0 where
  pending running backoff done : Phase

abbrev pub is_done : Phase → Bool
is_done p = elim p [ done ↦ true | _ ↦ false ]

abbrev pub is_running : Phase → Bool
is_running p = elim p [ running ↦ true | _ ↦ false ]

pub record Node : Type 0 where
  pub manifest : NodeManifest
  pub phase : Phase
  pub child : Option ℕ
  pub started_at : ℕ
  pub restart_at : ℕ
  pub delay : ℕ
  -- 32 bits in the source: this count does not wrap
  pub restarts : ℕ
  pub failed : Bool

-- `Supervisor::Impl`, without its manifest and options; the events are those reported so far.
pub record Impl : Type 0 where
  pub nodes : List Node
  pub stop_requested : Bool
  pub ran : Bool
  pub ending : Option SupervisorResult
  pub events : List SupervisorEvent

-- Nanoseconds of a number of milliseconds.
abbrev pub of_ms : ℕ → ℕ
of_ms n = n * 1000000

unfoldable pub new_node : NodeManifest → Node
new_node m = record {
  manifest = m;
  phase = pending;
  child = none;
  started_at = 0;
  restart_at = 0;
  delay = m.restart_delay;
  restarts = 0;
  failed = false;
}

-- `Impl::Impl`.
unfoldable pub init : List NodeManifest → Impl
unfolding new_node
init manifests = record {
  nodes = map new_node manifests;
  stop_requested = false;
  ran = false;
  ending = none;
  events = [];
}

-- `Emit`.
abbrev pub event : EventKind → Node → String → SupervisorEvent
event kind node detail = record { kind = kind; node = node.manifest.name; detail = detail }

-- `Milliseconds`.
abbrev pub milliseconds : ℕ → String
milliseconds value = to_decimal value <> " ms"
