-- ===== src/Pillars/Nodes.antt =====
-- salt/_pillar/metalk8s_nodes.py: the pillar of the nodes, the version of the cluster and the volumes
-- of a minion.
use metalk8s.Prelude.{
  String, ◌<>◌, Bool, false, not, Option, none, some, List, [], ◌∷◌, contains, ◌==◌, if◌then◌else◌,
}
use metalk8s.Prelude.Dict
use metalk8s.Prelude.Dict.{Dict}
use metalk8s.Exec.{Outcome, return, raise, ◌>>=◌, type_error}
use metalk8s.Archives.{strip}
use metalk8s.Kubernetes.Values.{Value, null, text, array, object, Fields, no_fields, field, put}
use metalk8s.Pillars.{items_of, errors_to_dict, promote_errors}

-- what the pillar reads of a node
pub record Node : Type 0 where
  pub name : String
  pub labels : Dict String

abbrev version_label : String
version_label = "metalk8s.scality.com/version"

abbrev role_label_prefix : String
role_label_prefix = "node-role.kubernetes.io/"

-- `roles.add(role)`, of a set
abbrev pub add : String → List String → List String
add x xs = if contains x xs then xs else x ∷ xs

-- the role of a label
abbrev pub role_of : String → Option String
role_of label = elim (strip role_label_prefix label) [
  | none ↦ none
  | some role ↦ if role == "" then none else some role
]

abbrev pub add_role : Option String → List String → List String
add_role none roles = roles
add_role (some role) roles = add role roles

unfoldable pub label_roles : Dict String → List String
label_roles [] = []
label_roles ((label, value) ∷ labels) = add_role (role_of label) (label_roles labels)

abbrev is_minion : Option String → String → Bool
is_minion none name = false
is_minion (some ca) name = name == ca

-- the roles of `node_info`, in an order of their own
unfoldable pub roles_of : Node → Option String → List String
roles_of node ca_minion =
    let roles = label_roles node.labels in
    if is_minion ca_minion node.name then add "ca" roles else roles

abbrev version_value : Option String → Value
version_value none = null
version_value (some v) = text v

-- `node_info`
unfoldable pub node_info : Node → Option String → Fields
node_info node ca_minion =
    field "roles" (array (items_of (roles_of node ca_minion)))
      (field "version" (version_value (Dict.get version_label node.labels)) no_fields)

-- how a call of `metalk8s_kubernetes` ends: a value, or a `CommandExecutionError`
pub data Called {ℓ} (A : Type ℓ) : Type ℓ where
  given : A → Called A
  failed : String → Called A

-- `get_cluster_version`, by the annotations of the namespace; none where there is no namespace,
-- which has no `metadata`. The two errors are texts where `errors_to_dict` takes a list.
unfoldable pub get_cluster_version : Called (Option (Dict String)) → Outcome Value
get_cluster_version (failed e) =
    return
      (object (field "_errors" (text ("Unable to read namespace information " <> e)) no_fields))
get_cluster_version (given none) =
    raise (type_error "'NoneType' object has no attribute '__getitem__'")
get_cluster_version (given (some annotations)) =
    elim (Dict.get "metalk8s.scality.com/cluster-version" annotations) [
      | none ↦
          return (object (field "_errors" (text "Unable to retrieve cluster version") no_fields))
      | some v ↦ return (text v)
    ]

-- what the pillar reads of a StorageClass and of a Volume, with the dict that it stands in
pub record StorageClass : Type 0 where
  pub name : String
  pub content : Value

pub record Volume : Type 0 where
  pub name : String
  pub node_name : String
  pub storage_class_name : String
  pub spec : Fields
  pub content : Fields

-- `get_storage_classes`, whose timestamps are texts here, with the dict that it has made so far
unfoldable pub get_storage_classes : List StorageClass → Dict Value → Dict Value
get_storage_classes [] storage_classes = storage_classes
get_storage_classes (c ∷ cs) storage_classes =
    get_storage_classes cs (Dict.put c.name c.content storage_classes)

abbrev class_or_name : Option Value → String → Value
class_or_name none name = text name
class_or_name (some v) name = v

-- a Volume with the class in its `spec`
abbrev volume_value : Dict Value → Volume → Value
volume_value classes v = object (
    put "spec"
      (object (
        put "storageClass"
          (class_or_name (Dict.get v.storage_class_name classes) v.storage_class_name) v.spec))
      v.content)

-- the loop of `list_volumes`
unfoldable pub local_volumes : String → Dict Value → List Volume → Fields → Fields
local_volumes minion_id classes [] results = results
local_volumes minion_id classes (v ∷ vs) results =
    let next = local_volumes minion_id classes vs in
    if v.node_name == minion_id
    then next (put v.name (volume_value classes v) results)
    else next results

unfoldable pub list_volumes : String → Called (List StorageClass) → Called (List Volume) → Fields
list_volumes minion_id (failed e) volumes =
    errors_to_dict (("Unable to retrieve list of storage class: " <> e) ∷ [])
list_volumes minion_id (given classes) (failed e) =
    errors_to_dict (("Unable to retrieve list of Volumes: " <> e) ∷ [])
list_volumes minion_id (given classes) (given volumes) =
    local_volumes minion_id (get_storage_classes classes []) volumes no_fields

unfoldable pub infos : List Node → Option String → Fields → Fields
infos [] ca_minion result = result
infos (n ∷ ns) ca_minion result =
    infos ns ca_minion (put n.name (object (node_info n ca_minion)) result)

unfoldable pub pillar_nodes : Called (List Node) → Option String → Fields
pillar_nodes (failed e) ca_minion = errors_to_dict (("Failed to retrieve NodeList: " <> e) ∷ [])
pillar_nodes (given nodes) ca_minion = infos nodes ca_minion no_fields

-- What the pillar calls; `file` says whether the kubeconfig is a file.
pub record NodeCalls : Type 0 where
  pub is_file : Bool
  pub nodes : Called (List Node)
  pub annotations : Called (Option (Dict String))
  pub classes : Called (List StorageClass)
  pub volumes : Called (List Volume)

abbrev gathered : Fields → Value → Fields → Outcome Fields
gathered nodes cluster_version volumes =
    promote_errors
      (field "nodes" (object nodes)
        (field "cluster_version" cluster_version (field "volumes" (object volumes) no_fields)))
      "nodes"
    >>= λ r. promote_errors r "volumes"

abbrev not_found : String → Fields
not_found kubeconfig =
    errors_to_dict (("metalk8s_nodes: kubeconfig not found at " <> kubeconfig) ∷ [])

-- `ext_pillar`: what stands under `metalk8s`
unfoldable pub ext_pillar : NodeCalls → String → Option String → String → Outcome Fields
ext_pillar calls minion_id ca_minion kubeconfig =
    if not calls.is_file
    then gathered (not_found kubeconfig) (object (not_found kubeconfig)) (not_found kubeconfig)
    else (get_cluster_version calls.annotations >>= λ version.
        gathered (pillar_nodes calls.nodes ca_minion) version
          (list_volumes minion_id calls.classes calls.volumes))
