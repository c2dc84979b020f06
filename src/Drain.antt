-- ===== src/Drain.antt =====
-- salt/_modules/metalk8s_drain.py: the pods, the options of a drain, the cluster as the drain sees
-- it, and the four pod filters. The children hold the selection of pods, the eviction loops and
-- the whole drain.
pub mod Select
pub mod Evict
pub mod Node
mod Tests
pub use metalk8s.Prelude.Integers.{ℤ, pos, negsuc}
use metalk8s.Prelude.{
  ℕ, zero, suc, ◌-◌, ◌^◌, ◌*◌, String, ◌<>◌, Bool, true, false, not, ◌||◌, Option, none, some, List,
  [], ◌∷◌, any, ◌==◌, if◌then◌else◌,
}
use metalk8s.Prelude.Dict.{Dict, has}
use metalk8s.Exec.{
  Outcome, return, raise, unfinished, Exn, command, drain, drain_timeout, type_error, Reply, ◌>>=◌,
}
use metalk8s.Action.{from_reply}

pub record OwnerRef : Type 0 where
  pub name : String
  pub kind : String
  pub api_version : String
  pub controller : Bool

pub record Volume : Type 0 where
  pub empty_dir : Option String

-- The fields of a pod that the drain reads. `none` is the `None` of the Kubernetes client.
pub record Pod : Type 0 where
  pub name : String
  pub namespace : String
  pub uid : String
  pub annotations : Option (Dict String)
  pub owner_references : Option (List OwnerRef)
  pub volumes : Option (List Volume)
  pub phase : String

-- The attributes of a `Drain` object that `__init__` sets.
pub record Options : Type 0 where
  pub node_name : String
  pub force : Bool
  pub grace_period : ℤ
  pub ignore_daemonset : Bool
  pub timeout : ℕ
  pub delete_local_data : Bool

-- `timeout or (2 ** 64 - 1)`
unfoldable pub timeout_or_max : ℕ → ℕ
timeout_or_max zero = 2 ^ 64 - 1
timeout_or_max (suc n) = suc n

unfoldable pub init : String → Bool → ℤ → Bool → ℕ → Bool → Options
unfolding timeout_or_max
init node_name force grace_period ignore_daemonset timeout delete_local_data = record {
  node_name = node_name;
  force = force;
  grace_period = grace_period;
  ignore_daemonset = ignore_daemonset;
  timeout = timeout_or_max timeout;
  delete_local_data = delete_local_data;
}

-- What creating an Eviction answers: done, an `ApiException`, or an `HTTPError`. An `ApiException`
-- has its status, its text, and what `json.loads(exc.body)['message']` raises, if anything. Where
-- the kind, the kubeconfig or the configuration of the client fails, nothing is sent.
pub data Created : Type 0 where
  created : Created
  api_exception : ℕ → String → Option Exn → Created
  http_error : String → Created
  not_sent : Exn → Created

-- The cluster and the clock. The state stands for all that the outside remembers; it changes at
-- the calls that write and while the drain sleeps. `get_object` gives the uid of what it finds.
-- `time` counts microseconds, `sleep` takes them.
pub record Cluster : Type 1 where
  pub State : Type 0
  pub list_pods : State → String → Reply (List Pod)
  pub get_object : State → String → String → String → String → Reply (Option String)
  pub cordon_node : State → String → Reply (Unit {0}) × State
  pub create_eviction : State → String → String → Option ℕ → Created × State
  pub time : State → ℕ
  pub sleep : State → ℕ → State

abbrev pub second : ℕ
second = 1000000

-- `_get_controller_of`
unfoldable pub first_controller : List OwnerRef → Option OwnerRef
first_controller [] = none
first_controller (r ∷ refs) = if r.controller then some r else first_controller refs

unfoldable pub get_controller_of : Pod → Option OwnerRef
unfolding first_controller
get_controller_of pod = elim pod.owner_references [
  | none ↦ none
  | some refs ↦ first_controller refs
]

unfoldable pub is_mirror : Pod → Bool
is_mirror pod = elim pod.annotations [
  | none ↦ false
  | some annotations ↦ has "kubernetes.io/config.mirror" annotations
]

-- `_mirrorpod_filter`
unfoldable pub mirrorpod_filter : Pod → Outcome (Bool × String)
unfolding is_mirror
mirrorpod_filter pod = return (not (is_mirror pod), "")

abbrev uses_empty_dir : Volume → Bool
uses_empty_dir v = elim v.empty_dir [ none ↦ false | some _ ↦ true ]

-- `_has_local_storage`: to iterate over `None` is a `TypeError`
unfoldable pub has_local_storage : Pod → Outcome Bool
has_local_storage pod = elim pod.volumes [
  | none ↦ raise (type_error "'NoneType' object is not iterable")
  | some volumes ↦ return (any uses_empty_dir volumes)
]

-- `WARNING_MSG`, `FATAL_MSG` and the text for an orphan
abbrev pub warning_daemonset : String
warning_daemonset = "Ignoring DaemonSet-managed pods"

abbrev pub warning_local_storage : String
warning_local_storage = "Deleting pods with local storage"

abbrev pub warning_unmanaged : String
warning_unmanaged =
    "Deleting pods not managed by ReplicationController, ReplicaSet, Job, DaemonSet or StatefulSet"

abbrev pub warning_orphan : String
warning_orphan = "Default to deletable on pod with no controller found"

abbrev pub fatal_daemonset : String
fatal_daemonset = "DaemonSet-managed pods"

abbrev pub fatal_local_storage : String
fatal_local_storage = "pods with local storage"

unfoldable pub localstorage_filter : Options → Pod → Outcome (Bool × String)
unfolding has_local_storage
localstorage_filter o pod = do
  local ← has_local_storage pod
  if not local
      then return (true, "")
      else if not o.delete_local_data
      then raise (drain fatal_local_storage)
      else return (true, warning_local_storage)

unfoldable pub missing_controller : Pod → Exn
missing_controller pod =
    drain ("Missing controller for pod '" <> pod.namespace <> "/" <> pod.name <> "'")

abbrev pub is_finished : Pod → Bool
is_finished pod = pod.phase == "Succeeded" || pod.phase == "Failed"

unfoldable pub require_controller : Pod → OwnerRef → Option String → Outcome (Option OwnerRef)
unfolding missing_controller
require_controller pod ref none = raise (missing_controller pod)
require_controller pod ref (some _) = return (some ref)

-- `except DrainException`: with `force` the pod has no controller. A timeout is a subclass.
unfoldable pub or_forced : Bool → Outcome (Option OwnerRef) → Outcome (Option OwnerRef)
or_forced true (raise (drain _)) = return none
or_forced true (raise (drain_timeout _)) = return none
or_forced _ r = r

abbrev unmanaged_warning : Option OwnerRef → Bool × String
unmanaged_warning none = (true, warning_unmanaged)
unmanaged_warning (some _) = (true, "")

unfoldable pub daemonset_verdict : Options → Pod → Option String → Outcome (Bool × String)
unfolding missing_controller
daemonset_verdict o pod none =
    if o.force then return (true, warning_orphan) else raise (missing_controller pod)
daemonset_verdict o pod (some _) =
    if not o.ignore_daemonset
    then raise (drain fatal_daemonset)
    else return (false, warning_daemonset)

module _ (api : Cluster) where
  -- `get_controller`: whether the object that the reference names is there
  unfoldable pub get_controller : api.State → String → OwnerRef → Outcome (Option String)
  get_controller w namespace ref =
      from_reply (api.get_object w ref.kind ref.api_version ref.name namespace)

  unfoldable pub pod_controller_of : api.State → Pod → Option OwnerRef → Outcome (Option OwnerRef)
  unfolding require_controller get_controller
  pod_controller_of w pod none = return none
  pod_controller_of w pod (some ref) = do
    response ← get_controller w pod.namespace ref
    require_controller pod ref response

  unfoldable pub get_pod_controller : api.State → Pod → Outcome (Option OwnerRef)
  unfolding pod_controller_of get_controller_of
  get_pod_controller w pod = pod_controller_of w pod (get_controller_of pod)

  unfoldable pub unreplicated_filter : Options → api.State → Pod → Outcome (Bool × String)
  unfolding get_pod_controller or_forced
  unreplicated_filter o w pod =
      if is_finished pod
      then return (true, "")
      else do ref ← or_forced o.force (get_pod_controller w pod); return (unmanaged_warning ref)

  unfoldable pub daemonset_of :
      Options → api.State → Pod → Option OwnerRef → Outcome (Bool × String)
  unfolding get_controller daemonset_verdict
  daemonset_of o w pod none = return (true, "")
  daemonset_of o w pod (some ref) =
      if ref.kind == "DaemonSet"
      then (do controller ← get_controller w pod.namespace ref; daemonset_verdict o pod controller)
      else return (true, "")

  unfoldable pub daemonset_filter : Options → api.State → Pod → Outcome (Bool × String)
  unfolding daemonset_of get_controller_of
  daemonset_filter o w pod = daemonset_of o w pod (get_controller_of pod)
