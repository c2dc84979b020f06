-- ===== src/Lib.antt =====
-- MetalK8s: the parts of the Salt code that change a node or the cluster.
--
-- MetalK8s deploys and runs Kubernetes on bare nodes. Its own logic is Python: Salt execution
-- modules (salt/_modules), which act, Salt states (salt/_states), which check first and then call
-- the modules, and helpers (salt/_utils). This library translates
--   * Drain: salt/_modules/metalk8s_drain.py, the eviction of the pods of a node. Drain.antt has the
--     pods, the options of a `Drain` object and the four pod filters; Drain/Select.antt
--     `get_pods_for_eviction`; Drain/Evict.antt `evict_pod`, the timers and the two loops;
--     Drain/Node.antt `run_drain` and `node_drain`. Below them stand what the selection promises
--     for a pod (Select/Policy), and the proofs.
--   * Volumes: salt/_modules/metalk8s_volumes.py, the storage behind a volume. Volumes.antt has the
--     Volume dict, the host and the helpers; Volumes/Quantity.antt `_quantity_to_bytes`;
--     Volumes/Blkid.antt the libblkid wrapper of salt/_utils/volume_utils.py; Volumes/Device.antt the
--     methods of the two device classes; Volumes/States.antt the four states of
--     salt/_states/metalk8s_volumes.py.
--   * Solutions: salt/_modules/metalk8s_solutions.py. Solutions.antt has the configuration file, its
--     checks and the operations that write it; Solutions/Available.antt the mounted archives,
--     `list_available` and `activate_solution`. Archives.antt reads the product.txt of an archive, as
--     salt/_modules/metalk8s.py does.
--   * Cordon: salt/_modules/metalk8s_cordon.py and salt/_states/metalk8s_cordon.py, in Cordon.antt.
--   * Kubernetes: salt/_utils/kubernetes_utils.py, salt/_modules/metalk8s_kubernetes.py and
--     salt/_states/metalk8s_kubernetes.py. Kubernetes/Values.antt has the values of a manifest,
--     Table.antt the two tables of kinds, Clients.antt `ApiClient`, Kinds.antt `KindInfo`,
--     `CRKindInfo` and the lookup, Models.antt the casts to the objects of the client, Names.antt
--     the spelling of keys, Manifests.antt the manifest that a call is about, Attributes.antt the
--     attributes of objects, Objects.antt the requests and their answers, States.antt the states.
--   * Etcd: salt/_modules/metalk8s_etcd.py and salt/_states/metalk8s_etcd.py, in Etcd.antt.
--   * Helpers: salt/_modules/metalk8s.py (`wait_apiserver`, `minions_by_role`; Helpers/Pillar.antt
--     `check_pillar_keys`; Archives/Found.antt `get_archives`) and
--     salt/_modules/metalk8s_kubernetes_utils.py.
--   * Pillars: salt/_utils/pillar_utils.py in Pillars.antt, and the external pillars of salt/_pillar:
--     metalk8s.py in Pillars/Bootstrap.antt, metalk8s_nodes.py in Nodes.antt, metalk8s_solutions.py in
--     Solutions.antt, metalk8s_endpoints.py, metalk8s_private.py and metalk8s_etcd.py in Services.antt.
--   * Packages: salt/_modules/metalk8s_package_manager_yum.py, in Packages.antt.
--   * Cri: salt/_modules/cri.py, in Cri.antt, and containerd.py of salt/_modules and salt/_states, in
--     Cri/Managed.antt.
--   * Registry: buildchain/static-container-registry/static-container-registry.py, in Registry.antt.
--   * Auth: salt/_auth/kubernetes_rbac.py, `auth` and `groups`, by which the Salt master lets a user in.
-- Prelude.antt passes on the library names that all parts share. Exec.antt has the exceptions and the
-- result of a call (a value, an exception, or out of fuel), Action.antt the actions: functions from a
-- state to a result and a state, where a raise keeps the state reached. Action/Rules.antt has the
-- rules to prove what an action keeps and what holds when it ends.
--
-- The outside is a parameter: the Kubernetes API and the clock are the record `Cluster`, the file
-- system, the commands and libblkid the record `Host`, YAML files and mounts the record `Minion`, the
-- node objects that cordoning reads and patches the record `NodeApi`, the client of the authentication
-- the record `Authority`, the classes of the Kubernetes client the records `Apis` and `Models`, the API
-- server of the functions on objects the record `Server`, the module that their states call the record
-- `Module`, etcd and the mine of Salt the record `Etcd`, commands the type `Run` and the record
-- `Crictl`, and a directory of images the record `Root`. Where they have a state, the calls that write
-- and the sleeps move it. Within one selection the cluster is read at one instant. Time counts
-- microseconds. What a theorem needs of the outside is a named hypothesis (`Clock`, `Files`,
-- `Storage`, `Updates`, `Timed`, `Adds`).
-- A dict is an association list in the order of insertion.
--
-- The two loops of the drain run on fuel, which counts the rounds of a loop. A round of the eviction
-- loop sleeps five seconds and one of the waiting loop ticks each second, so fuel of the timeout and
-- three more is enough; the theorem on the end of a drain says so.
--
-- The loop of `object_absent` recurses on the attempts that are left, that of `wait_apiserver` on the
-- retries that are left.
--
-- Not modelled: logging, the connection parameters, which are passed on unread, the ctypes
-- prototypes of libblkid, the TypeError of joining pillar errors that are no texts, and the rest of the
-- repository.
pub mod Prelude
pub mod Exec
pub mod Action
pub mod Archives
pub mod Auth
pub mod Cordon
pub mod Cri
pub mod Drain
pub mod Etcd
pub mod Helpers
pub mod Kubernetes
pub mod Packages
pub mod Pillars
pub mod Registry
pub mod Solutions
pub mod Volumes
