-- ===== src/Kubernetes/Clients.antt =====
-- salt/_utils/kubernetes_utils.py: `ObjectScope` and `ApiClient`.
use metalk8s.Prelude.{
  String, ◌<>◌, Bool, not, Option, none, some, List, [], ◌∷◌, ◌==◌, if◌then◌else◌,
}
use metalk8s.Prelude.Dict
use metalk8s.Prelude.Dict.{Dict}
use metalk8s.Exec.{
  Outcome, return, raise, ◌>>=◌, value_error, key_error, assertion_error, attribute_error,
}
use metalk8s.Action.{Action}
use metalk8s.Kubernetes.Table.{MethodNames, one_method, methods}

-- What the code takes from `kubernetes.client.api`: the API classes and their methods, by name.
pub record Apis : Type 0 where
  pub is_api : String → Bool
  pub has_method : String → String → Bool

pub data ObjectScope : Type 0 where
  namespaced cluster : ObjectScope

-- `ObjectScope(value)`
unfoldable pub object_scope : String → Outcome ObjectScope
object_scope value =
    if value == "namespaced"
    then return namespaced
    else if value == "cluster"
    then return cluster
    else raise (value_error "Value must be one of ('namespaced', 'cluster').")

-- An `ApiClient`: the names of the methods of `api_cls` that it offers, under the client's own names.
pub record ApiClient : Type 0 where
  pub api_cls : String
  pub name : String
  pub all_namespaces_name : Option String
  pub api_methods : Dict String

-- `ApiClient.CRUD_METHODS`, and that of `CustomApiClient`
abbrev crud_with : String → Dict String
crud_with read =
    ("create", "create")
    ∷ ("retrieve", read)
    ∷ ("update", "patch")
    ∷ ("delete", "delete")
    ∷ ("replace", "replace")
    ∷ ("list", "list")
    ∷ []

abbrev pub crud_methods : Dict String
crud_methods = crud_with "read"

abbrev pub custom_crud_methods : Dict String
custom_crud_methods = crud_with "get"

-- `{func_name: self.CRUD_METHODS[func_name] for func_name in method_names}`
unfoldable pub chosen : Dict String → List String → Outcome (Dict String)
chosen crud [] = return []
chosen crud (m ∷ ms) = elim (Dict.get m crud) [
  | none ↦ raise (key_error m)
  | some verb ↦ chosen crud ms >>= λ rest. return ((m, verb) ∷ rest)
]

abbrev pub methods_of : Dict String → Option MethodNames → Outcome (Dict String)
methods_of crud none = return crud
methods_of crud (some (one_method m)) = chosen crud (m ∷ [])
methods_of crud (some (methods ms)) = chosen crud ms

-- `getattr(api_cls, name)`
abbrev pub getattr : Apis → String → String → Outcome String
getattr apis api_cls name =
    if apis.has_method api_cls name
    then return name
    else raise
        (attribute_error ("type object '" <> api_cls <> "' has no attribute '" <> name <> "'"))

-- the CRUD methods, attached at construction
unfoldable pub attach : Apis → String → String → Dict String → Outcome (Dict String)
attach apis api_cls name [] = return []
attach apis api_cls name ((method, verb) ∷ ms) = do
  m ← getattr apis api_cls (verb <> "_" <> name)
  rest ← attach apis api_cls name ms
  return ((method, m) ∷ rest)

abbrev pub attach_all :
    Apis → String → Option String → Dict String → Dict String → Outcome (Dict String)
attach_all apis api_cls none verbs attached = return attached
attach_all apis api_cls (some all_name) verbs attached =
    if Dict.has "list" verbs
    then (getattr apis api_cls all_name >>= λ m. return (Dict.put "list_all_namespaces" m attached))
    else return attached

-- `ApiClient.__init__`
unfoldable pub api_client :
    Apis → Dict String → String → String → Option MethodNames → Option String → Outcome ApiClient
unfolding chosen attach
api_client apis crud api_cls name method_names all_namespaces_name =
    if not (apis.is_api api_cls)
    then raise (value_error "`api_cls` must be an API from `kubernetes.client.api`")
    else do
      verbs ← methods_of crud method_names
      attached ← attach apis api_cls name verbs
      all ← attach_all apis api_cls all_namespaces_name verbs attached
      return record {
        api_cls = api_cls;
        name = name;
        all_namespaces_name = all_namespaces_name;
        api_methods = all;
      }

-- `_client` and `_api` of an `ApiClient`: what it was configured with, and what its API object was
-- made with
pub record Connection {ℓ} (C : Type ℓ) : Type ℓ where
  pub client : Option C
  pub api : Option C

-- `ApiClient.configure`, with the client that `new_client_from_config` gives
unfoldable pub configure {ℓ} : {C : Type ℓ} → C → Connection C → Connection C
configure c s = record { client = some c; api = s.api }

abbrev make_api {ℓ} : {C : Type ℓ} → Option C → Option C → Action (Connection C) C
make_api (some a) client s = (return a, s)
make_api none (some c) s = (return c, record { client = some c; api = some c })
make_api none none s =
    (raise (assertion_error "Cannot use API without configuring the client first"), s)

-- the property `ApiClient.api`
unfoldable pub api {ℓ} : {C : Type ℓ} → Action (Connection C) C
api s = make_api s.api s.client s

-- `ApiClient._method`: the method of the API class, once there is an API object
unfoldable pub method : ApiClient → String → Outcome String
method client name = elim (Dict.get name client.api_methods) [
  | none ↦ raise (key_error name)
  | some m ↦ return m
]

abbrev all_namespaces_method : ApiClient → Option String → Outcome String
all_namespaces_method client none =
    raise (assertion_error "Cannot use \"all_namespaces\" for this client")
all_namespaces_method client (some n) = method client "list_all_namespaces"

-- `ApiClient.list`
unfoldable pub list : ApiClient → Bool → Outcome String
unfolding method
list client all_namespaces =
    if all_namespaces
    then all_namespaces_method client client.all_namespaces_name
    else method client "list"
