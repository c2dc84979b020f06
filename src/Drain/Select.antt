-- ===== src/Drain/Select.antt =====
-- salt/_modules/metalk8s_drain.py: `_message_from_pods_dict` and `Drain.get_pods_for_eviction`,
-- which runs the four filters on every pod of the node.
pub mod Policy
pub mod Choice
pub mod Ends
use metalk8s.Prelude.{
  String, ◌<>◌, join, Bool, true, false, ◌&&◌, List, [], ◌∷◌, ◌++◌, map, is_empty, ◌==◌,
  if◌then◌else◌,
}
use metalk8s.Prelude.Dict.{Dict, append_at}
use metalk8s.Exec.{Outcome, return, raise, unfinished, command, drain, drain_timeout, ◌>>=◌}
use metalk8s.Action.{from_reply}
use metalk8s.Drain.{
  Pod, Options, Cluster, mirrorpod_filter, localstorage_filter, unreplicated_filter,
  daemonset_filter,
}

abbrev entry : String × List String → String
entry (key, names) = key <> ": " <> join ", " names

-- `_message_from_pods_dict`
unfoldable pub message_from_pods_dict : Dict (List String) → String
unfolding join
message_from_pods_dict errors = join "; " (map entry errors)

-- The local variables of the loop. `verdict` is `filter_deletable, warning`: when a filter raises,
-- it keeps the value of the filter before. The first filter never raises, so what it holds at the
-- start is not read.
pub record Scan : Type 0 where
  pub is_deletable : Bool
  pub verdict : Bool × String
  pub warnings : Dict (List String)
  pub failures : Dict (List String)

-- the statements behind the `try`
unfoldable pub note_verdict : String → Scan → Scan
note_verdict name s = record s {
  warnings = if s.verdict.1 == "" then s.warnings else append_at s.verdict.1 name s.warnings;
  is_deletable = s.is_deletable && s.verdict.0;
}

unfoldable pub note_failure : String → String → Scan → Scan
note_failure name message s = record s { failures = append_at message name s.failures }

-- one round of the inner loop, on what the filter did
unfoldable pub apply_filter : String → Outcome (Bool × String) → Scan → Outcome Scan
unfolding note_verdict note_failure
apply_filter name (return v) s = return (note_verdict name (record s { verdict = v }))
apply_filter name (raise (drain m)) s = return (note_verdict name (note_failure name m s))
apply_filter name (raise (drain_timeout m)) s = return (note_verdict name (note_failure name m s))
apply_filter name (raise e) s = raise e
apply_filter name unfinished s = unfinished

abbrev pub fresh : Scan
fresh = record { is_deletable = true; verdict = (true, ""); warnings = []; failures = [] }

abbrev pub conclude : Scan × List Pod → Outcome (List Pod)
conclude (s, pods) =
    if is_empty s.failures then return pods else raise (drain (message_from_pods_dict s.failures))

module _ (api : Cluster) (o : Options) (w : api.State) where
  unfoldable pub scan_pod : Pod → Scan → Outcome Scan
  unfolding apply_filter
  scan_pod pod s = do
    s₁ ← apply_filter pod.name (mirrorpod_filter pod) (record s { is_deletable = true })
    s₂ ← apply_filter pod.name (localstorage_filter o pod) s₁
    s₃ ← apply_filter pod.name (unreplicated_filter api o w pod) s₂
    apply_filter pod.name (daemonset_filter api o w pod) s₃

  -- the outer loop, with the list `pods` of the deletable ones so far
  unfoldable pub scan_pods : List Pod → Scan → List Pod → Outcome (Scan × List Pod)
  unfolding scan_pod
  scan_pods [] s pods = return (s, pods)
  scan_pods (pod ∷ rest) s pods = do
    s' ← scan_pod pod s
    scan_pods rest s' (if s'.is_deletable then pods ++ pod ∷ [] else pods)

  unfoldable pub get_pods_for_eviction : Outcome (List Pod)
  unfolding scan_pods
  get_pods_for_eviction = do
    all_pods ← from_reply (api.list_pods w o.node_name)
    found ← scan_pods all_pods fresh []
    conclude found
