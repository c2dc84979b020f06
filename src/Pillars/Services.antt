-- ===== src/Pillars/Services.antt =====
-- salt/_pillar/metalk8s_endpoints.py, metalk8s_private.py and metalk8s_etcd.py: the pillars of the
-- service endpoints, of the private keys and of the etcd members.
use metalk8s.Prelude.{
  ℕ, String, ◌<>◌, Bool, true, false, Option, none, some, List, [], ◌∷◌, contains, nat_eq,
  if◌then◌else◌,
}
use metalk8s.Prelude.Dict
use metalk8s.Prelude.Dict.{Dict}
use metalk8s.Prelude.Integers.{pos}
use metalk8s.Exec.{Outcome, return, ◌>>=◌}
use metalk8s.Kubernetes.Values.{
  Value, null, text, integer, array, object, Items, no_items, Fields, no_fields, field, put,
}
use metalk8s.Pillars.{items_of, errors_to_dict, promote_errors}

-- an Endpoints object, by its first subset: the items of its first address and its ports
pub record Endpoint : Type 0 where
  pub address : Dict Value
  pub ports : Dict ℕ

-- what `get_object` and the reading of its answer give
pub data Lookup : Type 0 where
  found : Endpoint → Lookup
  missing : Lookup
  failing : String → Lookup

-- the keys that are taken from an address
unfoldable pub address_of : Dict Value → Fields → Fields
address_of [] res = res
address_of ((k, v) ∷ address) res =
    let next = address_of address in
    if contains k ("hostname" ∷ "ip" ∷ "node_name" ∷ []) then next (put k v res) else next res

unfoldable pub ports_of : Dict ℕ → Fields → Fields
ports_of [] res = res
ports_of ((name, port) ∷ ports) res = ports_of ports (put name (integer (pos port)) res)

unfoldable pub service_endpoints : String → String → Lookup → Fields
service_endpoints service namespace (found e) =
    put "ports" (object (ports_of e.ports no_fields)) (address_of e.address no_fields)
service_endpoints service namespace missing =
    errors_to_dict (("Endpoint not found: " <> service) ∷ [])
service_endpoints service namespace (failing e) = errors_to_dict (
    ("Unable to get kubernetes endpoints for " <> service <> " in namespace " <> namespace <> ":\n"
      <> e)
    ∷ [])

-- the loop over the services of the namespace
unfoldable pub add_services : (String → Lookup) → List String → Fields → Outcome Fields
add_services look [] endpoints = return endpoints
add_services look (service ∷ services) endpoints =
    promote_errors
      (put service (object (service_endpoints service "kube-system" (look service))) endpoints)
      service
    >>= λ next. add_services look services next

abbrev endpoints_of : Bool → String → (String → Lookup) → Outcome Fields
endpoints_of true kubeconfig look =
    add_services look ("salt-master" ∷ "repositories" ∷ []) no_fields
endpoints_of false kubeconfig look =
    return (errors_to_dict (("metalk8s_endpoints: kubeconfig not found at " <> kubeconfig) ∷ []))

-- `ext_pillar` of the endpoints: what stands under `metalk8s`
unfoldable pub endpoints_pillar : Bool → String → (String → Lookup) → Outcome Fields
endpoints_pillar is_file kubeconfig look = endpoints_of is_file kubeconfig look >>= λ endpoints.
    promote_errors (field "endpoints" (object endpoints) no_fields) "endpoints"

-- a file with a private key
pub data KeyFile : Type 0 where
  key_data : String → KeyFile
  -- an `IOError`, with its `errno` and its text
  unreadable : ℕ → String → KeyFile

-- `errno.ENOENT`
abbrev enoent : ℕ
enoent = 2

unfoldable pub read_private_key : String → String → KeyFile → Fields
read_private_key key_name key_path (key_data k) = field key_name (text k) no_fields
read_private_key key_name key_path (unreadable errno e) =
    if nat_eq errno enoent
    then errors_to_dict (
        ("Missing " <> key_name <> " key file to share with master node at " <> key_path <> ".")
        ∷ [])
    else errors_to_dict (
        ("Unable to read " <> key_name <> " key file contents at " <> key_path <> " - " <> e <> ".")
        ∷ [])

-- `data.update(other)`
unfoldable pub update : Fields → Fields → Fields
update fs no_fields = fs
update fs (field k v gs) = update (put k v fs) gs

abbrev sa_private_key_path : String
sa_private_key_path = "/etc/kubernetes/pki/sa.key"

abbrev apiserver_key_path : String
apiserver_key_path = "/etc/metalk8s/crypt/apiserver.key"

-- Of two errors the second replaces the first, since both stand under `_errors`.
unfoldable pub master_keys : KeyFile → KeyFile → Fields
master_keys sa apiserver =
    update (read_private_key "sa_private_key" sa_private_key_path sa)
      (read_private_key "apiserver_key" apiserver_key_path apiserver)

-- `ext_pillar` of the private keys: what stands under `metalk8s`, or nothing for a minion that
-- the pillar does not know; a node is given by its roles
unfoldable pub private_pillar :
    String → Dict (List String) → KeyFile → KeyFile → Outcome (Option Fields)
private_pillar minion_id nodes sa apiserver = elim (Dict.get minion_id nodes) [
  | none ↦ return none
  | some roles ↦
      if contains "master" roles
      then (promote_errors (field "private" (object (master_keys sa apiserver)) no_fields) "private"
          >>= λ r. return (some r))
      else return (some (field "private" null no_fields))
]

-- `_load_members`, with what `get_etcd_member_list` gives or the text of its exception
unfoldable pub load_members : Items → Option String → Fields
load_members members none = field "members" (array members) no_fields
load_members members (some e) = field "members" (array no_items) (
    field "_errors" (array (items_of (("Error while retrieving etcd cluster members: " <> e) ∷ [])))
      no_fields)
