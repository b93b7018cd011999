-- ===== src/Configuration/Supervisor/Stopping.antt =====
-- src/configuration/supervisor.cpp: the order of StopAll.
use mathlib.Core.List.{reverse, reverse-append, append-nil}
use puppet_master.Base.{
  ℕ, suc, String, List, [], ◌∷◌, ◌++◌, Bool, true, false, if◌then◌else◌, option_cases, Bool-cases,
  arith, ◌≡◌, refl, sym, ◌∙◌, ap, inl, inr,
}
use puppet_master.Configuration.Supervisor.State.{
  EventKind, stopping, SupervisorEvent, Node, is_running, Impl,
}
use puppet_master.Configuration.Supervisor.Running.{
  StopLook, wait_for_exit, stop_running, stop_node, stop_nodes, stop_all,
}

abbrev is_stopping : EventKind → Bool
is_stopping k = elim k [ stopping ↦ true | _ ↦ false ]

-- The nodes that were asked to stop, in the order of the requests.
unfoldable pub asked : List SupervisorEvent → List String
asked [] = []
asked (e ∷ es) = if is_stopping e.kind then e.node ∷ asked es else asked es

-- The nodes that are running, in the order of the manifest.
unfoldable pub running_names : List Node → List String
running_names [] = []
running_names (n ∷ nodes) =
    if is_running n.phase then n.manifest.name ∷ running_names nodes else running_names nodes

asked-nil : asked [] ≡ []
unfolding asked
asked-nil = refl

asked-append : (es fs : List SupervisorEvent) → asked (es ++ fs) ≡ asked es ++ asked fs
unfolding asked
asked-append [] fs = refl
asked-append (e ∷ es) fs = ground (arith, asked-append es fs)

asked-stop_running :
    (look : StopLook) (n : Node) → asked (stop_running look n) ≡ n.manifest.name ∷ []
unfolding asked stop_running
asked-stop_running look n =
    option_cases (λ (es : List SupervisorEvent). asked es ≡ n.manifest.name ∷ [])
      (wait_for_exit _ look.polls) _ _ (λ _. refl) (λ e _. refl)

asked-stop_nodes :
    (looks : ℕ → StopLook) (i : ℕ) (nodes : List Node)
    → asked (stop_nodes looks i nodes).1 ≡ reverse (running_names nodes)
unfolding stop_nodes stop_node running_names
asked-stop_nodes looks i [] = unfold asked in refl
asked-stop_nodes looks i (n ∷ nodes) = elim (Bool-cases (is_running n.phase)) [
  | inl on ↦
      rw (asked-append, on, asked-stop_running (looks i) n, asked-stop_nodes looks (suc i) nodes)
        (sym (reverse-append (n.manifest.name ∷ []) (running_names nodes)))
  | inr off ↦
      rw (asked-append, off, asked-nil, append-nil, asked-stop_nodes looks (suc i) nodes) refl
]

-- StopAll reports, behind what was reported before, a stop request for each node that is running, once
-- and for no other, the last of the manifest first.
pub asked-stop_all :
    (looks : ℕ → StopLook) (s : Impl)
    → asked (stop_all looks s).events ≡ asked s.events ++ reverse (running_names s.nodes)
unfolding stop_all
asked-stop_all looks s =
    asked-append s.events (stop_nodes looks 0 s.nodes).1
    ∙ ap (λ l. asked s.events ++ l) (asked-stop_nodes looks 0 s.nodes)
