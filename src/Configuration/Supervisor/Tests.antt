-- ===== src/Configuration/Supervisor/Tests.antt =====
-- A system of a required node, which fails to stay up, and an optional one.
use puppet_master.Base.{
  zero, suc, to_decimal, ℕ, List, [], ◌∷◌, ◌++◌, none, some, true, false, ◌≡◌, refl,
}
use mathlib.Core.List.{reverse}
use puppet_master.Base.Int.{pos}
use puppet_master.Core.Result.{value}
use puppet_master.Configuration.Manifest.{NodeManifest, on_failure, never}
use puppet_master.Configuration.Supervisor.State.{
  SupervisorOptions, ProcessExit, init, exit_to_string, new_node,
}
use puppet_master.Configuration.Supervisor.Policy.{
  Look, start, supervise, all_ended, supervise_nodes, supervise_node, poll, ended, settle,
  plan_restart, give_up, required_ends, supervise_in,
}
use puppet_master.Configuration.Supervisor.Running.{
  StopLook, Input, turns, finished, run_all, begin_run, stop_all, Run, take_input, run_step, launch,
  watch, finish, run_at, stop_node, stop_nodes, stop_running, wait_for_exit,
}
use puppet_master.Configuration.Supervisor.Watching.{HoldsAt}
use puppet_master.Configuration.Supervisor.Invariant.{run_all-Holds}
use puppet_master.Configuration.Supervisor.Stopping.{asked, running_names, asked-stop_all}

abbrev driver : NodeManifest
driver = record {
  name = "driver";
  executable = "driver";
  config = "driver.json";
  arguments = [];
  start_delay = 0;
  restart = on_failure;
  max_restarts = 1;
  restart_delay = 500;
  required = true;
  stop_timeout = 5000;
}

abbrev viewer : NodeManifest
viewer = record driver { name = "viewer"; restart = never; required = false }

abbrev options : SupervisorOptions
options = record {
  log_directory = "";
  poll_interval = 50;
  stable_run = 10000;
  max_restart_delay = 30000;
}

abbrev crash : ProcessExit
crash = record { code = pos 1; signaled = false }

-- Both nodes are polled: the driver has crashed, the viewer runs.
abbrev looks : ℕ → ℕ → Look
looks now i = elim i [
  | zero ↦ record { now = now; exit = some crash; launched = value 12 }
  | suc _ ↦ record { now = now; exit = none; launched = value 13 }
]

abbrev quick_stop : ℕ → StopLook
quick_stop i = record { now = 0; polls = (some crash, 1) ∷ []; killed_at = 0; killed_polls = [] }

abbrev at : ℕ → Input
at now =
    turns (record {
      now = now;
      launched = value 11;
      looks = looks now;
      after = now;
      stops = quick_stop;
    })

-- Start the driver, let it crash, start the viewer, and go round until the restart fails too.
abbrev inputs : List Input
inputs = at 1 ∷ at 2 ∷ at 3 ∷ at 4 ∷ at 5 ∷ at 600000000 ∷ at 600000001 ∷ []

abbrev outcome : Run
outcome = run_all options inputs (begin_run options none (init (driver ∷ viewer ∷ [])))

run_all-Holds_example : HoldsAt options outcome
run_all-Holds_example = run_all-Holds options (driver ∷ viewer ∷ []) inputs

asked-stop_all_example :
    asked (stop_all quick_stop outcome.impl).events
    ≡ asked outcome.impl.events ++ reverse (running_names outcome.impl.nodes)
asked-stop_all_example = asked-stop_all quick_stop outcome.impl

-- The driver is given up at its second crash.
position_test :
    outcome.position ≡ finished (record { reason = "required node driver failed"; exit_code = 1 })
unfolding run_all take_input run_step begin_run init launch watch start supervise all_ended
    supervise_nodes supervise_node poll ended settle plan_restart give_up to_decimal required_ends
    supervise_in finish run_at stop_all stop_node stop_nodes stop_running wait_for_exit
    exit_to_string new_node
position_test = refl
