-- ===== src/Drain/Select/Policy.antt =====
-- What the drain promises about a single pod, stated without the filters: which pods block the
-- drain, and which pods stay on the node.
use metalk8s.Prelude.{String, Bool, true, false, Option, none, some, any, ◌==◌}
use metalk8s.Exec.{Reply, answer, failure}
use metalk8s.Drain.{Pod, OwnerRef, Cluster, get_controller_of, uses_empty_dir}

-- The controller of a pod, as the cluster knows it.
pub data Owner : Type 0 where
  unmanaged unreadable : Owner
  missing managed : (kind : String) → Owner

abbrev pub classify : String → Reply (Option String) → Owner
classify kind (answer none) = missing kind
classify kind (answer (some _)) = managed kind
classify kind (failure _) = unreadable

module _ (api : Cluster) (w : api.State) where
  abbrev pub owner_of : Pod → Option OwnerRef → Owner
  owner_of pod none = unmanaged
  owner_of pod (some ref) =
      classify ref.kind (api.get_object w ref.kind ref.api_version ref.name pod.namespace)

  abbrev pub owner : Pod → Owner
  owner pod = owner_of pod (get_controller_of pod)

abbrev pub is_missing : Owner → Bool
is_missing (missing _) = true
is_missing _ = false

abbrev pub is_missing_daemonset : Owner → Bool
is_missing_daemonset (missing kind) = kind == "DaemonSet"
is_missing_daemonset _ = false

abbrev pub is_daemonset : Owner → Bool
is_daemonset (managed kind) = kind == "DaemonSet"
is_daemonset _ = false

abbrev pub is_readable : Owner → Bool
is_readable unreadable = false
is_readable _ = true

abbrev pub has_volumes : Pod → Bool
has_volumes pod = elim pod.volumes [ none ↦ false | some _ ↦ true ]

abbrev pub is_local : Pod → Bool
is_local pod = elim pod.volumes [ none ↦ false | some volumes ↦ any uses_empty_dir volumes ]
