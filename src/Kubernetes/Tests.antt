-- ===== src/Kubernetes/Tests.antt =====
-- A small client library, API server and cluster, and the theorems at them.
use metalk8s.Prelude.{
  ℕ, zero, suc, ◌+◌, ◌*◌, ◌≤◌, String, ◌<>◌, Bool, true, false, Option, none, some, [], ◌∷◌, lower,
  decimal, ◌==◌, if◌then◌else◌, ◌≡◌, refl, arith, inl, inr,
}
use metalk8s.Prelude.Dict
use metalk8s.Prelude.Dict.{Dict}
use metalk8s.Exec.{Outcome, return}
use metalk8s.Kubernetes.Values.{
  Value, null, text, array, object, instance_of, no_items, item, Fields, no_fields, field, get, put,
}
use metalk8s.Kubernetes.Models.{
  Models, declared, cast_value, cast_scalar, reversed, dict_pattern, list_pattern,
  build_standard_object,
}
use metalk8s.Kubernetes.Models.Typed.{HasType}
use metalk8s.Kubernetes.Models.Casts.{cast_value-HasType}
use metalk8s.Kubernetes.Names.{convert_attribute_name}
use metalk8s.Kubernetes.Names.Inserted.{Inserted, Separated, Parted, convert_attribute_name-spaced}
use metalk8s.Kubernetes.Clients.{Apis, object_scope, api_client, attach, chosen, method}
use metalk8s.Kubernetes.Table.{std_kind, StdKind}
use metalk8s.Kubernetes.Kinds.{
  Tables, KindInfo, standard, kind_info, load, load_std, load_custom, rpartition, cr_kind_info,
  find_std, find_custom, get_kind_info,
}
use metalk8s.Kubernetes.Kinds.Known.{get_kind_info-standard}
use metalk8s.Archives.{strip}
use metalk8s.Kubernetes.Manifests
use metalk8s.Kubernetes.Manifests.{
  extract_obj_and_kind_info, Manipulation, retrieve, Args, Request, Server, api_exception, result,
  rendered, with_labels, version_label,
}
use metalk8s.Kubernetes.Manifests.Labels.{fields_at, with_labels-get}
use metalk8s.Kubernetes.Attributes.{get_attribute, converted}
use metalk8s.Kubernetes.Objects.{
  settle, request_for, prepare, object_function, is_retrieve_or_delete,
}
use metalk8s.Kubernetes.Objects.Missing.{object_function-none}
use metalk8s.Kubernetes.States.{wait_loop, Module, wait_int, wait_of, ret, old_new, object_absent}
use metalk8s.Kubernetes.States.Wait.{Gone, Stays, Timed}
use metalk8s.Kubernetes.States.Absent.{object_absent-Deleted, object_absent-clock}

types_of : String → Dict String
types_of model =
    if model == "V1ObjectMeta"
    then ("name", "str") ∷ ("labels", "dict(str, str)") ∷ ("finalizers", "list[str]") ∷ []
    else ("api_version", "str") ∷ ("metadata", "V1ObjectMeta") ∷ []

abbrev lib : Models
lib = record {
  has_model = λ name. true;
  attribute_map = λ model. ("api_version", "apiVersion") ∷ [];
  openapi_types = types_of;
  refused = λ model kwargs. none;
  strptime = λ s. none;
  float = λ n. "1.0";
  describe = λ v. "value";
}

program : Unit {0}
unfolding types_of cast_value convert_attribute_name lower get put load get_kind_info prepare
    object_function with_labels Dict.get Dict.put Dict.has object_absent HasType decimal Gone Stays
    strip reversed cast_scalar declared dict_pattern list_pattern api_client object_scope attach
    chosen method rpartition cr_kind_info load_std load_custom get_attribute settle
    build_standard_object find_std find_custom converted request_for wait_of wait_loop
    Manifests.labelled extract_obj_and_kind_info
program = tt

abbrev meta : Value
meta = object (
    field "name" (text "web") (
      field "labels" (object (field "app" (text "web") no_fields))
        (field "finalizers" (array (item (text "a") no_items)) no_fields)))

-- the keyword of a model is in its own spelling
made_pod :
    build_standard_object lib "V1Pod"
      (field "apiVersion" (text "v1") (field "metadata" null no_fields))
    ≡ return
        (instance_of "V1Pod" (field "api_version" (text "v1") (field "metadata" null no_fields)))
unfolding program build_standard_object
made_pod = refl

cast_value-HasType_example :
    HasType lib
      (instance_of "V1ObjectMeta" (
        field "name" (text "web") (
          field "labels"
            (object (field "app" (text "web") no_fields))
            (field "finalizers" (array (item (text "a") no_items)) no_fields))))
      (declared "V1ObjectMeta")
unfolding program
cast_value-HasType_example = cast_value-HasType lib meta "V1ObjectMeta" refl

abbrev keyword : String → Bool
keyword s = s == "continue"

-- the examples of the documentation of `_convert_attribute_name`
names :
    convert_attribute_name keyword "JSONPath"
      <> convert_attribute_name keyword "openAPIV3Schema"
      <> convert_attribute_name keyword "externalIPs"
      <> convert_attribute_name keyword "continue"
      <> convert_attribute_name keyword "$ref"
      <> convert_attribute_name keyword "volumeID"
    ≡ "json_pathopen_apiv3_schemaexternal_i_ps_continuerefvolume_id"
unfolding program
names = refl

convert_attribute_name-spaced_example :
    (spaced : String) × (convert_attribute_name keyword "openAPIV3Schema" ≡ lower spaced)
    × Inserted "openAPIV3Schema" spaced
    × Separated spaced
    × Parted spaced
unfolding program
convert_attribute_name-spaced_example =
    convert_attribute_name-spaced keyword "openAPIV3Schema" refl refl

abbrev apis : Apis
apis = record { is_api = λ c. true; has_method = λ c m. true }

tables_of : Outcome Tables → Tables
tables_of (return t) = t
tables_of _ = record { std = []; custom = [] }

abbrev tables : Tables
unfolding tables_of program
tables = tables_of (load apis)

tables_loaded : load apis ≡ return tables
unfolding program tables_of
tables_loaded = refl

abbrev pod : StdKind
pod = std_kind "v1" "Pod" "V1Pod" "CoreV1Api" "namespaced_pod"

get_kind_info-standard_example :
    (k : KindInfo) × (kind_info apis "V1Pod" "CoreV1Api" "namespaced_pod" none ≡ return k)
    × (get_kind_info tables (some "v1") (some "Pod") ≡ return (standard pod k))
get_kind_info-standard_example =
    get_kind_info-standard apis tables pod tables_loaded (inr (inr (inr (inr (inl refl)))))

-- an object that is there for some seconds times five, and the time
abbrev Cluster : Type 0
Cluster = ℕ × ℕ

abbrev look : Cluster → Outcome (Option Value) × Cluster
look (zero, t) = (return none, (zero, t))
look (suc n, t) = (return (some null), (suc n, t))

abbrev less : ℕ → ℕ
less zero = 0
less (suc n) = n

abbrev cluster_module : Module
cluster_module = record {
  S = Cluster;
  get_object = λ name manifest s. look s;
  delete_object = λ name manifest s. look s;
  create_object = λ name manifest s. look s;
  update_object = λ name manifest s. look s;
  replace_object = λ name manifest old s. look s;
  read_manifest = λ name s. return no_fields;
  sleep = λ seconds s. (less s.0, s.1 + seconds);
  recursive_diff = λ a b. no_fields;
  iskeyword = keyword;
}

object_absent-Deleted_example :
    (object_absent cluster_module false "web" none (wait_int 3) (2, 0)).0
    ≡ return (
        ret "web"
          (old_new "present" "absent")
          (some true)
          ("The object was deleted and not present after " <> decimal (2 + 1) <> " check attempts"))
unfolding program
object_absent-Deleted_example =
    object_absent-Deleted cluster_module "web" none (wait_int 3) 3 5 2 (2, 0) (2, 0) refl
      ((null, refl), (null, refl)) (omega arith) ((null, refl), ((null, refl), refl))

look-clock : (s : Cluster) → (look s).1.1 ≤ s.1 + 1
look-clock (zero, t) = omega arith
look-clock (suc n, t) = omega arith

timed : Timed cluster_module (λ s. s.1) 1 2
timed = record {
  get_object = λ name manifest s. look-clock s;
  delete_object = λ name manifest s. look-clock s;
  sleep = λ seconds s. omega arith;
}

object_absent-clock_example :
    (object_absent cluster_module false "web" none (wait_int 3) (9, 0)).1.1
    ≤ 0 + 2 * 1 + 3 * (1 + 5 + 2)
unfolding wait_of
object_absent-clock_example =
    object_absent-clock cluster_module "web" none (λ s. s.1) 1 2 timed false (wait_int 3) 3 5 (9, 0)
      refl

abbrev server : Server
server = record {
  S = Unit {0};
  lib = lib;
  tables = tables;
  iskeyword = keyword;
  read_and_render = λ name saltenv. rendered no_fields;
  call = λ req s. (api_exception 404 "Not Found", s);
  call_list = λ req all fields labels s. (result [], s);
  to_dict = λ v. no_fields;
}

abbrev node_args : Args
node_args = record {
  manifest = none;
  name = some "bootstrap";
  kind = some "Node";
  api_version = some "v1";
  namespace = "default";
  patch = none;
  old_object = none;
  saltenv = "base";
}

object_function-none_example :
    (req : Request) × (prepare server retrieve node_args ≡ return req)
    × ((e : String) × ((server.call req tt).0 ≡ api_exception 404 e))
    × (is_retrieve_or_delete retrieve ≡ true)
unfolding program tables
object_function-none_example = object_function-none server retrieve node_args tt refl

abbrev manifest : Fields
manifest =
    field "kind" (text "Pod")
      (field "metadata" (object (field "name" (text "web") no_fields)) no_fields)

abbrev labelled : Fields
labelled = field "kind" (text "Pod") (
    field "metadata"
      (object (
        field "name" (text "web") (
          field "labels"
            (object (
              field "metalk8s.scality.com/version" (text "2.5") (
                field "app.kubernetes.io/managed-by" (text "salt")
                  (field "heritage" (text "salt") no_fields))))
            no_fields)))
      no_fields)

with_labels-get_example :
    ((key : String)
      → get key (fields_at "labels" (fields_at "metadata" labelled)) ≡ (
          if "heritage" == key
          then some (text "salt")
          else if "app.kubernetes.io/managed-by" == key
          then some (text "salt")
          else if "metalk8s.scality.com/version" == key
          then some (text (version_label "metalk8s-2.5"))
          else get key (fields_at "labels" (fields_at "metadata" manifest))))
    × ((key : String)
        → ("labels" == key) ≡ false
        → get key (fields_at "metadata" labelled) ≡ get key (fields_at "metadata" manifest))
    × ((key : String) → ("metadata" == key) ≡ false → get key labelled ≡ get key manifest)
unfolding with_labels program
with_labels-get_example = with_labels-get "metalk8s-2.5" manifest labelled refl
