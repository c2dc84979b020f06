-- ===== src/Drain/Tests.antt =====
-- A small cluster, runs of the drain on it, and the theorems at it.
use metalk8s.Prelude.{
  ℕ, ◌+◌, String, ◌<>◌, Bool, true, false, Option, none, some, List, [], ◌∷◌, keep, not, ◌==◌,
  if◌then◌else◌, nat_eq, All, ◌≡◌, ◌≢◌, refl, arith,
}
use metalk8s.Exec.{Outcome, return, raise, drain, answer, unfinished}
use metalk8s.Drain.{
  mirrorpod_filter, localstorage_filter, unreplicated_filter, daemonset_filter, timeout_or_max, pos,
  Pod, Options, Cluster, Created, created, api_exception, init,
}
use metalk8s.Prelude.Dict.{has, append_at}
use metalk8s.Drain.Select.{get_pods_for_eviction, message_from_pods_dict}
use metalk8s.Drain.Select.Choice.{get_pods_for_eviction_refuses, get_pods_for_eviction_selects}
use metalk8s.Drain.Evict.{Session}
use metalk8s.Drain.Evict.Timed.{Clock}
use metalk8s.Drain.Evict.Gone.{Gone}
use metalk8s.Drain.Node.{node_drain}
use metalk8s.Drain.Node.Total.{node_drain_ends}
use metalk8s.Drain.Node.Safety.{Allowed, Drained, node_drain-Allowed, node_drain_returned-Drained}

-- `refusals` counts the evictions that a disruption budget still rejects.
record Demo : Type 0 where
  clock : ℕ
  pods : List Pod
  refusals : ℕ
  cordoned : Bool

find_pod : String → List Pod → Option String
find_pod name [] = none
find_pod name (p ∷ pods) = if p.name == name then some p.uid else find_pod name pods

demo_eviction : Demo → String → Created × Demo
demo_eviction d name =
    if nat_eq d.refusals 0
    then (created, record d { pods = keep (λ p. not (p.name == name)) d.pods; clock = d.clock + 1 })
    else (
      api_exception 429 "Too Many Requests" none,
      record d { refusals = Prim.Native.Nat.pred d.refusals; clock = d.clock + 1 },
    )

abbrev demo : Cluster
demo = record {
  State = Demo;
  list_pods = λ d node. answer d.pods;
  get_object = λ d kind version name namespace.
      if kind == "Pod"
      then answer (find_pod name d.pods)
      else if name == "lost"
      then answer none
      else answer (some "uid");
  cordon_node = λ d node. (answer tt, record d { cordoned = true; clock = d.clock + 1 });
  create_eviction = λ d name namespace grace. demo_eviction d name;
  time = λ d. d.clock;
  sleep = λ d n. record d { clock = d.clock + n };
}

abbrev owned : String → String → Pod
owned name kind = record {
  name = name;
  namespace = "default";
  uid = name <> "-1";
  annotations = none;
  owner_references =
      some
        (record { name = "owner"; kind = kind; api_version = "apps/v1"; controller = true } ∷ []);
  volumes = some [];
  phase = "Running";
}

abbrev mirror : Pod
mirror = record (owned "etcd" "Node") {
  annotations = some (("kubernetes.io/config.mirror", "hash") ∷ []);
}

abbrev orphan : Pod
orphan = record (owned "orphan" "ReplicaSet") {
  owner_references = some (
      record { name = "lost"; kind = "ReplicaSet"; api_version = "apps/v1"; controller = true }
      ∷ []);
}

abbrev state : List Pod → ℕ → Demo
state pods refusals = record { clock = 7; pods = pods; refusals = refusals; cordoned = false }

abbrev usual : Demo
usual =
    state
      (owned "web" "ReplicaSet"
        ∷ mirror
        ∷ owned "proxy" "DaemonSet"
        ∷ owned "db" "StatefulSet"
        ∷ [])
      2

abbrev options : Options
options = init "node-1" false (pos 1) true 0 false

program : Unit {0}
unfolding node_drain get_pods_for_eviction find_pod demo_eviction init mirrorpod_filter
    localstorage_filter unreplicated_filter daemonset_filter message_from_pods_dict has append_at
program = tt

selection :
    get_pods_for_eviction demo options usual
    ≡ return (owned "web" "ReplicaSet" ∷ owned "db" "StatefulSet" ∷ [])
unfolding program
selection = refl

-- a pod that names no controller goes without `force` too
unmanaged :
    get_pods_for_eviction demo options
      (state (record (owned "bare" "") { owner_references = none } ∷ []) 0)
    ≡ return (record (owned "bare" "") { owner_references = none } ∷ [])
unfolding program
unmanaged = refl

blocked :
    get_pods_for_eviction demo options (state (orphan ∷ []) 0)
    ≡ raise (drain "Missing controller for pod 'default/orphan': orphan")
unfolding program
blocked = refl

abbrev run : Outcome String × Session demo
run = node_drain demo "node-1" false (pos 1) true 30 false false 40 usual

run_completes : run.0 ≡ return "Eviction complete."
unfolding program
run_completes = refl

run_requests :
    run.1.requests
    ≡ ("web", "default") ∷ ("web", "default") ∷ ("web", "default") ∷ ("db", "default") ∷ []
unfolding program
run_requests = refl

demo_clock : Clock demo
unfolding demo_eviction
demo_clock = record {
  after_sleep = λ w d. omega arith;
  after_eviction = λ w name namespace grace. ground arith;
  after_cordon = λ w name. omega arith;
}

demo_stays : (pod : Pod) (w : Demo) (d : ℕ) → Gone demo pod w → Gone demo pod (demo.sleep w d)
demo_stays pod w d h = record { found = h.found; answered = h.answered; gone = h.gone }

get_pods_for_eviction_refuses_example :
    (message : String) × (get_pods_for_eviction demo options (state (orphan ∷ []) 0)
      ≡ raise (drain message))
unfolding program
get_pods_for_eviction_refuses_example =
    get_pods_for_eviction_refuses demo options (state (orphan ∷ []) 0) (orphan ∷ []) refl
      ((refl, refl), tt) refl

get_pods_for_eviction_selects_example :
    get_pods_for_eviction demo options usual
    ≡ return (owned "web" "ReplicaSet" ∷ owned "db" "StatefulSet" ∷ [])
unfolding program
get_pods_for_eviction_selects_example =
    get_pods_for_eviction_selects demo options usual usual.pods refl
      ((refl, refl), ((refl, refl), ((refl, refl), ((refl, refl), tt)))) refl

node_drain_ends_example :
    (node_drain demo "node-1" false (pos 1) true 30 false false 40 usual).0 ≢ unfinished
unfolding timeout_or_max
node_drain_ends_example =
    node_drain_ends demo demo_clock "node-1" false (pos 1) true 30 false false 38 usual
      (omega arith)

node_drain-Allowed_example :
    All
      (Allowed false (answer tt) (
        get_pods_for_eviction demo
          (init "node-1" false (pos 1) true 30 false)
          (record usual { cordoned = true; clock = 8 })))
      run.1.requests
node_drain-Allowed_example =
    node_drain-Allowed demo "node-1" false (pos 1) true 30 false false 40 usual

node_drain_returned-Drained_example :
    Drained demo
      (get_pods_for_eviction demo
        (init "node-1" false (pos 1) true 30 false)
        (record usual { cordoned = true; clock = 8 }))
      run.1
node_drain_returned-Drained_example =
    node_drain_returned-Drained demo demo_stays "node-1" false (pos 1) true 30 false 40 usual
      run_completes
