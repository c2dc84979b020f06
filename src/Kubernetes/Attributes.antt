-- ===== src/Kubernetes/Attributes.antt =====
-- salt/_utils/kubernetes_utils.py and salt/_modules/metalk8s_kubernetes.py: the attributes of the
-- objects of the Kubernetes client, and of the dicts that stand for custom ones.
use metalk8s.Prelude.{String, ◌<>◌, Bool, Option, none, some, ◌==◌, if◌then◌else◌}
use metalk8s.Exec.{Outcome, return, raise, ◌>>=◌, attribute_error}
use metalk8s.Kubernetes.Values.{
  Value, null, object, instance_of, Fields, no_fields, field, get, put,
}
use metalk8s.Kubernetes.Names.{convert_attribute_name}
use metalk8s.Prelude.Dict
use metalk8s.Kubernetes.Kinds.{Made, custom_object, model_object}
use metalk8s.Kubernetes.Manifests.{Server}

-- the first key that is the name in the spelling of the client
unfoldable pub converted : (String → Bool) → String → Fields → Option Value
unfolding convert_attribute_name
converted iskeyword name no_fields = none
converted iskeyword name (field k v fs) =
    if convert_attribute_name iskeyword k == name then some v else converted iskeyword name fs

abbrev pub no_attribute : String → Outcome Value
no_attribute name = raise (attribute_error ("Custom object has no attribute '" <> name <> "'"))

abbrev pub or_attribute : String → Option Value → Option Value → Outcome Value
or_attribute name (some v) found = return v
or_attribute name none (some v) = return v
or_attribute name none none = no_attribute name

-- an attribute of an object of a model class: `None` when it was not given
abbrev pub model_attribute : Option Value → Option String → String → Outcome Value
model_attribute (some v) declared name = return v
model_attribute none (some t) name = return null
model_attribute none none name = no_attribute name

-- `getattr(value, name)`: `_DictWrapper.__getattribute__` on a dict
unfoldable pub get_attribute : Server → Value → String → Outcome Value
unfolding converted
get_attribute api (object fs) name =
    or_attribute name (get name fs) (converted api.iskeyword name fs)
get_attribute api (instance_of model fs) name =
    model_attribute (get name fs) (Dict.get name (api.lib.openapi_types model)) name
get_attribute api _ name = no_attribute name

abbrev pub value_of : Made → Value
value_of (custom_object fs) = object fs
value_of (model_object v) = v

-- `obj.metadata.name`, and other attributes of `metadata`
abbrev pub metadata_of : Server → Made → String → Outcome Value
metadata_of api obj name =
    get_attribute api (value_of obj) "metadata" >>= λ m. get_attribute api m name

abbrev pub set_in : Value → String → Value → Outcome Value
set_in (object fs) name v = return (object (put name v fs))
set_in (instance_of model fs) name v = return (instance_of model (put name v fs))
set_in _ name v = raise (attribute_error ("no attribute '" <> name <> "'"))

abbrev pub inside : Fields → String → String → Value → Outcome Fields
inside fs part name v = elim (get part fs) [
  | none ↦ raise (attribute_error ("Custom object has no attribute '" <> part <> "'"))
  | some x ↦ set_in x name v >>= λ y. return (put part y fs)
]

-- `obj.part.name = v`
unfoldable pub set_attribute : Made → String → String → Value → Outcome Made
set_attribute (custom_object fs) part name v =
    inside fs part name v >>= λ gs. return (custom_object gs)
set_attribute (model_object (instance_of model fs)) part name v =
    inside fs part name v >>= λ gs. return (model_object (instance_of model gs))
set_attribute (model_object _) part name v =
    raise (attribute_error ("no attribute '" <> part <> "'"))
