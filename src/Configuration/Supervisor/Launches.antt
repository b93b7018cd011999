-- ===== src/Configuration/Supervisor/Launches.antt =====
-- src/configuration/supervisor.cpp: a node is pending until Run starts it, and done for good once it is
-- stopped.
use puppet_master.Base.{
  ℕ, zero, suc, ◌≤◌, List, [], ◌∷◌, Option, none, some, true, all, any, All, get_elem?, set, map,
  arith, ◌≡◌, refl, subst,
}
use puppet_master.Configuration.Manifest.{NodeManifest}
use puppet_master.Configuration.Supervisor.State.{
  SupervisorOptions, SupervisorResult, Phase, pending, running, backoff, done, is_done, is_running,
  Node, new_node,
}
use puppet_master.Configuration.Supervisor.Policy.{
  Look, supervise_in, supervise_node, supervise_nodes,
}
use puppet_master.Configuration.Supervisor.Running.{StopLook, stop_node, stop_nodes, is_some}

-- The nodes from index `i` on have not been started.
abbrev pub PendingFrom : ℕ → List Node → Type 0
PendingFrom i nodes = (j : ℕ) (n : Node) → i ≤ j → get_elem? nodes j ≡ some n → n.phase ≡ pending

supervise_in-pending :
    (options : SupervisorOptions) (look : Look) (p : Phase) (n : Node) (e : Option SupervisorResult)
    → p ≡ pending
    → (supervise_in p options look n e).0 ≡ n
unfolding supervise_in
supervise_in-pending options look pending n e h = refl
supervise_in-pending options look running n e h = absurd (running_not_pending h)
  where
    running_not_pending : running ≡ pending → ⊥
    running_not_pending h = cc
supervise_in-pending options look backoff n e h = absurd (backoff_not_pending h)
  where
    backoff_not_pending : backoff ≡ pending → ⊥
    backoff_not_pending h = cc
supervise_in-pending options look done n e h = absurd (done_not_pending h)
  where
    done_not_pending : done ≡ pending → ⊥
    done_not_pending h = cc

pub supervise_nodes-PendingFrom :
    (options : SupervisorOptions) (looks : ℕ → Look) (k i : ℕ) (nodes : List Node)
    (e : Option SupervisorResult)
    → PendingFrom i nodes
    → PendingFrom i (supervise_nodes options looks k nodes e).0
unfolding supervise_nodes supervise_node
supervise_nodes-PendingFrom options looks k i [] e h j n lo found = ground arith
supervise_nodes-PendingFrom options looks k i (m ∷ nodes) e h zero n lo found =
    let still = h 0 m lo refl in
    let same = supervise_in-pending options (looks k) m.phase m e still in cc
supervise_nodes-PendingFrom options looks k i (m ∷ nodes) e h (suc j) n lo found =
    supervise_nodes-PendingFrom options looks (suc k) j nodes
      (supervise_in m.phase options (looks k) m e).1
      (λ j' n' lo' found'. h (suc j') n' (omega arith) found') j n (omega arith) found

pub set-PendingFrom :
    (i : ℕ) (nodes : List Node) (m : Node)
    → PendingFrom i nodes
    → PendingFrom (suc i) (set nodes i m)
set-PendingFrom i [] m h j n lo found = ground arith
set-PendingFrom zero (k ∷ nodes) m h zero n lo found = absurd (omega arith)
set-PendingFrom zero (k ∷ nodes) m h (suc j) n lo found = h (suc j) n (omega arith) found
set-PendingFrom (suc i) (k ∷ nodes) m h zero n lo found = absurd (omega arith)
set-PendingFrom (suc i) (k ∷ nodes) m h (suc j) n lo found =
    set-PendingFrom i nodes m (λ j' n' lo' found'. h (suc j') n' (omega arith) found') j n
      (omega arith) found

pub map-PendingFrom : (ms : List NodeManifest) → PendingFrom 0 (map new_node ms)
unfolding new_node
map-PendingFrom [] j n lo found = ground arith
map-PendingFrom (m ∷ ms) zero n lo found = ground arith
map-PendingFrom (m ∷ ms) (suc j) n lo found = map-PendingFrom ms j n (omega arith) found

-- No process is left.
abbrev pub IsStopped : Node → Type 0
IsStopped n = (n.phase ≡ done) × (n.child ≡ none)

-- The nodes are the same but for what stopping changes.
abbrev pub SameNode : Node → Node → Type 0
SameNode m n = (m.manifest ≡ n.manifest) × (m.failed ≡ n.failed) × (m.phase ≡ done)

stop_node-SameNode :
    (look : StopLook) (n : Node)
    → is_running n.phase ≡ is_some n.child
    → SameNode (stop_node look n).0 n × IsStopped (stop_node look n).0
unfolding stop_node
stop_node-SameNode look n owned = ground arith

pub stop_nodes-IsStopped :
    (looks : ℕ → StopLook) (i : ℕ) (nodes : List Node)
    → All (λ n. is_running n.phase ≡ is_some n.child) nodes
    → All IsStopped (stop_nodes looks i nodes).0
unfolding stop_nodes
stop_nodes-IsStopped looks i [] h = tt
stop_nodes-IsStopped looks i (n ∷ nodes) (h, hs) =
    ((stop_node-SameNode (looks i) n h).1, stop_nodes-IsStopped looks (suc i) nodes hs)

pub get_elem?-stop_nodes :
    (looks : ℕ → StopLook) (i : ℕ) (nodes : List Node) (j : ℕ) (n : Node)
    → All (λ n. is_running n.phase ≡ is_some n.child) nodes
    → get_elem? nodes j ≡ some n
    → (m : Node) × (get_elem? (stop_nodes looks i nodes).0 j ≡ some m) × SameNode m n
unfolding stop_nodes
get_elem?-stop_nodes looks i [] j n h found = ground arith
get_elem?-stop_nodes looks i (k ∷ nodes) zero n (h, hs) found =
    let same : k ≡ n = cc in
    (
      (stop_node (looks i) k).0,
      refl,
      subst (λ n. SameNode (stop_node (looks i) k).0 n) same (stop_node-SameNode (looks i) k h).0,
    )
get_elem?-stop_nodes looks i (k ∷ nodes) (suc j) n (h, hs) found =
    get_elem?-stop_nodes looks (suc i) nodes j n hs found

pub any-stop_nodes :
    (looks : ℕ → StopLook) (i : ℕ) (nodes : List Node)
    → any (λ n. n.failed) (stop_nodes looks i nodes).0 ≡ any (λ n. n.failed) nodes
unfolding stop_nodes stop_node
any-stop_nodes looks i [] = refl
any-stop_nodes looks i (n ∷ nodes) = ground (arith, any-stop_nodes looks (suc i) nodes)

pub all-stop_nodes :
    (looks : ℕ → StopLook) (i : ℕ) (nodes : List Node)
    → all (λ n. is_done n.phase) (stop_nodes looks i nodes).0 ≡ true
unfolding stop_nodes stop_node
all-stop_nodes looks i [] = refl
all-stop_nodes looks i (n ∷ nodes) = ground (arith, all-stop_nodes looks (suc i) nodes)
