-- ===== src/Kubernetes/Objects.antt =====
-- salt/_modules/metalk8s_kubernetes.py: the functions on objects, made by
-- `_object_manipulation_function`, `object_exists` and `list_objects`: the request and its answer.
-- The client is taken for configured.
pub mod Missing
use metalk8s.Prelude.{
  ℕ, String, ◌<>◌, Bool, true, false, not, ◌&&◌, Option, none, some, List, [], ◌∷◌, nat_eq, map,
  ◌==◌, if◌then◌else◌,
}
use metalk8s.Exec.{
  Exn, Outcome, return, raise, unfinished, ◌>>=◌, ◌>>◌, command, value_error, key_error,
  attribute_error, exn_text,
}
use metalk8s.Action.{Action, continue}
use metalk8s.Kubernetes.Values.{
  Value, null, text, object, instance_of, Fields, no_fields, field, get, put, remove,
}
use metalk8s.Kubernetes.Names.{convert_attribute_name}
use metalk8s.Kubernetes.Models.{Models}
use metalk8s.Prelude.Dict
use metalk8s.Kubernetes.Clients.{ObjectScope, namespaced, cluster, ApiClient, method, list}
use metalk8s.Kubernetes.Attributes.{
  converted, no_attribute, or_attribute, model_attribute, get_attribute, value_of, metadata_of,
  set_in, inside, set_attribute,
}
use metalk8s.Kubernetes.Kinds.{
  Info, standard, custom, Made, custom_object, model_object, get_kind_info,
}
use metalk8s.Kubernetes.Manifests.{
  Manipulation, create, retrieve, replace, delete, update, action_name, Args, Body, delete_options,
  plain, made, Request, Answer, result, api_exception, http_error, other, Server, truthy,
  truthy_value, by_name, choose_manifest, require, labelled, extract_obj_and_kind_info,
}

-- `d[key]`
abbrev item_of : String → Fields → Outcome Value
item_of key fs = elim (get key fs) [ none ↦ raise (key_error key) | some v ↦ return v ]

abbrev copy_if : Option Value → String → Made → Outcome Made
copy_if none name obj = return obj
copy_if (some v) name obj = set_attribute obj "metadata" name v

abbrev fields_of : Value → Fields
fields_of (object fs) = fs
fields_of _ = no_fields

abbrev is_text : String → Value → Bool
is_text s (text t) = t == s
is_text s _ = false

-- `obj.api_version == 'v1' and obj.kind == 'Service'`
abbrev is_service : Server → Made → Outcome Bool
is_service api obj = do
  v ← get_attribute api (value_of obj) "api_version"
  k ← get_attribute api (value_of obj) "kind"
  return (is_text "v1" v && is_text "Service" k)

abbrev keep_cluster_ip : Bool → Fields → Made → Outcome Made
keep_cluster_ip false old obj = return obj
keep_cluster_ip true old obj = do
  spec ← item_of "spec" old
  ip ← item_of "cluster_ip" (fields_of spec)
  set_attribute obj "spec" "cluster_ip" ip

-- what a replaced object takes over from the old one
unfoldable pub preserve : Server → Fields → Made → Outcome Made
preserve api old obj = do
  metadata ← item_of "metadata" old
  o1 ← copy_if (get "resource_version" (fields_of metadata)) "resource_version" obj
  o2 ← copy_if (get "resourceVersion" (fields_of metadata)) "resourceVersion" o1
  service ← is_service api obj
  keep_cluster_ip service old o2

-- the patch that is left of a manifest
unfoldable pub patch_of : Fields → Outcome Value
patch_of manifest = do
  _ ← item_of "kind" manifest
  _ ← item_of "apiVersion" manifest
  metadata ← item_of "metadata" manifest
  _ ← item_of "name" (fields_of metadata)
  return (
      object (
        put "metadata" (object (remove "namespace" (remove "name" (fields_of metadata))))
          (remove "apiVersion" (remove "kind" manifest))))

abbrev body_of : Server → Manipulation → Args → Fields → Made → Outcome (Option Body)
body_of api delete a manifest obj = return (some delete_options)
body_of api retrieve a manifest obj = return none
body_of api create a manifest obj = return (some (made obj))
body_of api replace a manifest obj = elim a.old_object [
  | none ↦ return (some (made obj))
  | some no_fields ↦ return (some (made obj))
  | some old ↦ preserve api old obj >>= λ o. return (some (made o))
]
body_of api update a manifest obj = elim a.patch [
  | none ↦ patch_of manifest >>= λ p. return (some (plain p))
  | some p ↦
      if truthy_value (some p)
      then return (some (plain p))
      else (patch_of manifest >>= λ q. return (some (plain q)))
]

abbrev pub scope_of : Info → ObjectScope
scope_of (standard e k) = k.scope
scope_of (custom k) = k.scope

abbrev pub client_of : Info → ApiClient
client_of (standard e k) = k.client
client_of (custom k) = k.client

-- what `CustomApiClient._method` adds
abbrev pub custom_of : Info → Option (String × String × String)
custom_of (standard e k) = none
custom_of (custom k) = some (k.group, k.version, k.plural)

-- `CustomApiClient._method` sends a `CustomObject` as a dict.
abbrev sent : Info → Option Body → Option Body
sent (custom k) (some (made (custom_object fs))) = some (plain (object fs))
sent i b = b

abbrev name_of : Server → Manipulation → Made → Outcome (Option Value)
name_of api create obj = return none
name_of api action obj = metadata_of api obj "name" >>= λ v. return (some v)

abbrev namespace_of : Server → ObjectScope → Made → Outcome (Option Value)
namespace_of api namespaced obj = metadata_of api obj "namespace" >>= λ v. return (some v)
namespace_of api cluster obj = return none

-- the request for an object
unfoldable pub request_for : Server → Manipulation → Args → Fields → Made → Info → Outcome Request
unfolding method
request_for api action a manifest obj i = do
  name ← name_of api action obj
  namespace ← namespace_of api (scope_of i) obj
  body ← body_of api action a manifest obj
  m ← method (client_of i) (action_name action)
  return record {
    api_cls = (client_of i).api_cls;
    method = m;
    name = name;
    namespace = namespace;
    body = sent i body;
    custom = custom_of i;
  }

-- all that a function does before it calls the API
unfoldable pub prepare : Server → Manipulation → Args → Outcome Request
unfolding labelled extract_obj_and_kind_info request_for
prepare api action a = do
  chosen ← choose_manifest api action a a.manifest
  manifest ← require action chosen
  marked ← labelled action a.saltenv manifest
  found ← extract_obj_and_kind_info api marked (by_name action)
  request_for api action a marked found.0 found.1

abbrev pub is_retrieve_or_delete : Manipulation → Bool
is_retrieve_or_delete retrieve = true
is_retrieve_or_delete delete = true
is_retrieve_or_delete _ = false

abbrev failed_to : Manipulation → String → Outcome (Option Value)
failed_to action e = raise (command ("Failed to " <> action_name action <> " object: " <> e) [])

-- `_handle_error`, and the result of a call
unfoldable pub settle : Server → Manipulation → Answer Value → Outcome (Option Value)
settle api action (result v) = return (some (object (api.to_dict v)))
settle api action (api_exception status e) =
    if is_retrieve_or_delete action && nat_eq status 404 then return none else failed_to action e
settle api action (http_error e) = failed_to action e
settle api action (other e) = raise e

module _ (api : Server) where
  abbrev pub send : Manipulation → Request → Action api.S (Option Value)
  send action req s = let (r, s') = api.call req s in (settle api action r, s')

  -- `method` of `_object_manipulation_function`
  unfoldable pub object_function : Manipulation → Args → Action api.S (Option Value)
  unfolding prepare
  object_function action a s = continue (prepare api action a) (send action) s

  abbrev is_found : Outcome (Option Value) → Outcome Bool
  is_found (return none) = return false
  is_found (return (some v)) = return true
  is_found (raise e) = raise e
  is_found unfinished = unfinished

  unfoldable pub object_exists : String → String → String → String → String → Action api.S Bool
  unfolding object_function
  object_exists kind api_version name namespace saltenv s =
      let (r, s') =
        object_function retrieve
          (record {
            manifest = none;
            name = some name;
            kind = some kind;
            api_version = some api_version;
            namespace = namespace;
            patch = none;
            old_object = none;
            saltenv = saltenv;
          })
          s in
      (is_found r, s')

  abbrev unsupported {ℓ} : {A : Type ℓ} → String → String → Outcome A → Outcome A
  unsupported api_version kind (raise (value_error e)) =
      raise (command ("Unsupported resource \"" <> api_version <> "/" <> kind <> "\": " <> e) [])
  unsupported api_version kind r = r

  abbrev list_failed : String → String → Option Value → String → Outcome (List Value)
  list_failed api_version kind none e =
      raise
        (command ("Failed to list resources \"" <> api_version <> "/" <> kind <> "\": " <> e) [])
  list_failed api_version kind (some (text namespace)) e = raise (
      command
        ("Failed to list resources \"" <> api_version <> "/" <> kind <> "\" in namespace \""
          <> namespace <> "\": " <> e)
        [])
  list_failed api_version kind (some _) e = raise (command e [])

  abbrev settle_list : String → String → Option Value → Answer (List Value) → Outcome (List Value)
  settle_list api_version kind namespace (result vs) = return (map (λ v. object (api.to_dict v)) vs)
  settle_list api_version kind namespace (api_exception status e) =
      list_failed api_version kind namespace e
  settle_list api_version kind namespace (http_error e) = list_failed api_version kind namespace e
  settle_list api_version kind namespace (other e) = raise e

  abbrev list_namespace : Bool → ObjectScope → String → Option Value
  list_namespace true scope namespace = none
  list_namespace false namespaced namespace = some (text namespace)
  list_namespace false cluster namespace = none

  -- the request of `list_objects`
  unfoldable pub list_request : String → String → String → Bool → Outcome Request
  unfolding get_kind_info list
  list_request kind api_version namespace all_namespaces = do
    i ← unsupported api_version kind (get_kind_info api.tables (some api_version) (some kind))
    m ← list (client_of i) all_namespaces
    return record {
      api_cls = (client_of i).api_cls;
      method = m;
      name = none;
      namespace = list_namespace all_namespaces (scope_of i) namespace;
      body = none;
      custom = custom_of i;
    }

  -- a selector that is empty is left out
  abbrev selector : Option String → Option String
  selector s = if truthy s then s else none

  abbrev send_list :
      String → String → Bool → Option String → Option String → Request → Action api.S (List Value)
  send_list kind api_version all_namespaces field_selector label_selector req s =
      let (r, s') =
        api.call_list req all_namespaces (selector field_selector) (selector label_selector) s in
      (settle_list api_version kind req.namespace r, s')

  unfoldable pub list_objects :
      String → String → String → Bool → Option String → Option String → Action api.S (List Value)
  unfolding list_request
  list_objects kind api_version namespace all_namespaces field_selector label_selector s =
      continue (list_request kind api_version namespace all_namespaces)
        (send_list kind api_version all_namespaces field_selector label_selector) s
