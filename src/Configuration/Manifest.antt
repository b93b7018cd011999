-- ===== src/Configuration/Manifest.antt =====
-- include/puppet_master/configuration/system_manifest.h and src/configuration/system_manifest.cpp: the
-- nodes of a system. A duration is a number of milliseconds; the loader admits none below zero.
use puppet_master.Base.{ℕ, String, ◌=ₛ◌, List, [], ◌∷◌, ◌++◌, Bool, not, if◌then◌else◌}

pub data Restart : Type 0 where
  never on_failure always : Restart

unfoldable pub restart_to_string : Restart → String
restart_to_string never = "never"
restart_to_string on_failure = "on_failure"
restart_to_string always = "always"

pub record NodeManifest : Type 0 where
  pub name : String
  pub executable : String
  pub config : String
  pub arguments : List String
  pub start_delay : ℕ
  pub restart : Restart
  pub max_restarts : ℕ
  pub restart_delay : ℕ
  pub required : Bool
  pub stop_timeout : ℕ

-- The members that starting a node reads, and the nodes.
pub record SystemManifest : Type 0 where
  pub config_paths : List String
  pub deployment : String
  pub nodes : List NodeManifest

-- The options for the directories, in front of what follows.
unfoldable pub config_options : List String → List String
config_options [] = []
config_options (directory ∷ rest) = "--config-path" ∷ directory ∷ config_options rest

-- `SystemManifest::CommandFor`.
unfoldable pub command_for : SystemManifest → NodeManifest → List String
command_for m node =
    let head = node.executable ∷ config_options m.config_paths in
    let placed =
      if not (m.deployment =ₛ "") then head ++ "--deployment" ∷ m.deployment ∷ [] else head in
    (placed ++ node.arguments) ++ node.config ∷ []
