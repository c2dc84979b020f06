-- ===== src/Drain/Node.antt =====
-- salt/_modules/metalk8s_drain.py: `Drain.run_drain` and `node_drain`.
pub mod Safety
pub mod Total
use metalk8s.Prelude.{
  ℕ, String, ◌<>◌, join, Bool, true, false, none, List, [], ◌∷◌, map, if◌then◌else◌,
}
use metalk8s.Exec.{Outcome, Exn, command, drain, drain_timeout}
use metalk8s.Action.{Action, pure, throw, ask, lift, try_else, from_reply, ◌>>=◌, ◌>>◌}
use metalk8s.Drain.{ℤ, Pod, Options, Cluster, init}
use metalk8s.Drain.Select.{get_pods_for_eviction}
use metalk8s.Drain.Evict.{Session, evict_pods}

abbrev pub names : List Pod → List String
names = map (λ pod. pod.name)

-- `except DrainException` around the selection
unfoldable pub not_deletable : Exn → Exn
not_deletable (drain message) =
    command
      ("The following are not deletable: " <> message
        <> ". You can ignore DaemonSet pods with the ignore_daemonset flag.")
      []
not_deletable (drain_timeout message) =
    command
      ("The following are not deletable: " <> message
        <> ". You can ignore DaemonSet pods with the ignore_daemonset flag.")
      []
not_deletable e = e

unfoldable pub pods_to_evict : List Pod → String
unfolding join
pods_to_evict [] = "no pods to evict."
pods_to_evict (pod ∷ pods) = join ", " (names (pod ∷ pods))

module _ (api : Cluster) (o : Options) where
  unfoldable pub select : Action (Session api) (List Pod)
  unfolding get_pods_for_eviction
  select = ask (λ s. get_pods_for_eviction api o s.world)

  abbrev list_remaining : String → Action (Session api) String
  list_remaining message = do
    remaining ← select
    throw (command (message <> " List of remaining pods to follow") (names remaining))

  -- the two `except` clauses around the eviction
  unfoldable pub report : Exn → Action (Session api) String
  unfolding select
  report (drain_timeout message) = list_remaining message
  report (command message info) = list_remaining message
  report e = throw e

  unfoldable pub evict_selected : ℕ → Bool → List Pod → Action (Session api) String
  unfolding pods_to_evict evict_pods report
  evict_selected fuel dry_run pods =
      if dry_run
      then pure ("Prepared for eviction of pods: " <> pods_to_evict pods)
      else try_else (evict_pods api o fuel pods) report (λ _. pure "Eviction complete.")

  unfoldable pub run_drain : ℕ → Bool → Action (Session api) String
  unfolding select evict_selected not_deletable
  run_drain fuel dry_run =
      try_else select (λ e. throw (not_deletable e)) (evict_selected fuel dry_run)

  unfoldable pub cordon_node : Action (Session api) Unit
  cordon_node s =
      let (reply, world) = api.cordon_node s.world o.node_name in
      (from_reply reply, record s { world = world })

  -- the object before any call
  abbrev pub fresh : api.State → Session api
  fresh w = record { world = w; start = 0; tick = none; requests = [] }

  unfoldable pub node_drain_with : ℕ → Bool → Action (Session api) String
  unfolding cordon_node run_drain
  node_drain_with fuel dry_run = do cordon_node; run_drain fuel dry_run

-- `node_drain`, with the fuel for its loops
unfoldable pub node_drain :
    (api : Cluster) (node_name : String) (force : Bool) (grace_period : ℤ) (ignore_daemonset : Bool)
    (timeout : ℕ) (delete_local_data dry_run : Bool) (fuel : ℕ)
    → api.State
    → Outcome String × Session api
unfolding node_drain_with init
node_drain api node_name force grace_period ignore_daemonset timeout delete_local_data dry_run fuel
      w =
    let o = init node_name force grace_period ignore_daemonset timeout delete_local_data in
    node_drain_with api o fuel dry_run (fresh api o w)
