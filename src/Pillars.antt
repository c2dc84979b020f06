-- ===== src/Pillars.antt =====
-- salt/_utils/pillar_utils.py and salt/_pillar/metalk8s.py: the errors in a pillar, and the
-- file of the bootstrap configuration. Its children have the pillars of the configuration, of the nodes
-- and of the Solutions.
pub mod Promoted
pub mod Bootstrap
pub mod Nodes
pub mod Solutions
pub mod Services
mod Tests
use metalk8s.Prelude.{
  String, ◌<>◌, Bool, true, false, not, Option, none, some, List, [], ◌∷◌, ◌++◌, is_empty, ◌==◌,
  if◌then◌else◌,
}
use metalk8s.Prelude.Dict.{Dict}
use metalk8s.Exec.{Outcome, return, raise, ◌>>=◌, attribute_error, key_error, exception}
use metalk8s.Kubernetes.Values.{
  Value, text, array, object, Items, no_items, item, Fields, no_fields, field, get, put,
}
use metalk8s.Helpers.{truthy}

unfoldable pub items_of : List String → Items
items_of [] = no_items
items_of (x ∷ xs) = item (text x) (items_of xs)

unfoldable pub append : Items → Items → Items
append no_items ys = ys
append (item x xs) ys = item x (append xs ys)

-- `errors_to_dict`
unfoldable pub errors_to_dict : List String → Fields
unfolding items_of
errors_to_dict errors = field "_errors" (array (items_of errors)) no_fields

-- `patch.get`, of a value that must be a dict
abbrev pub as_dict : Value → Outcome Fields
as_dict (object fs) = return fs
as_dict _ = raise (attribute_error "object has no attribute 'get'")

-- `source.setdefault("_errors", []).extend(errors)`
abbrev pub extend : Fields → Option Value → Items → Outcome Fields
extend source none xs = return (put "_errors" (array xs) source)
extend source (some (array old)) xs = return (put "_errors" (array (append old xs)) source)
extend source (some _) xs = raise (attribute_error "object has no attribute 'extend'")

-- the errors of a patch; a text would be taken letter by letter, and is refused here
abbrev pub add_errors : Fields → Option Value → Outcome Fields
add_errors source none = return source
add_errors source (some (array no_items)) = return source
add_errors source (some (array (item x xs))) = extend source (get "_errors" source) (item x xs)
add_errors source (some v) =
    if truthy v then raise (attribute_error "the errors are no list") else return source

-- `promote_errors`
unfoldable pub promote_errors : Fields → String → Outcome Fields
promote_errors source key = elim (get key source) [
  | none ↦ raise (key_error key)
  | some v ↦ as_dict v >>= λ patch. add_errors source (get "_errors" patch)
]

-- The texts of values, and the file of the configuration.
pub record Context : Type 0 where
  pub show : Value → String

abbrev is_text : String → Option Value → Bool
is_text value (some (text s)) = s == value
is_text value _ = false

-- `'{}'.format(source_dict.get(key))`
abbrev show_option : Context → Option Value → String
show_option c none = "None"
show_option c (some v) = c.show v

-- `assert_equals`, with the keys in the order in which they are written
unfoldable pub assert_equals : Context → Fields → Dict String → List String
assert_equals c source [] = []
assert_equals c source ((key, value) ∷ expected) =
    let rest = assert_equals c source expected in
    if is_text value (get key source)
    then rest
    else ("Expected value '"
        <> value
        <> "' for key '"
        <> key
        <> "', got '"
        <> show_option c (get key source)
        <> "'")
      ∷ rest

-- `assert_keys`
unfoldable pub assert_keys : Context → Fields → List String → List String
assert_keys c source [] = []
assert_keys c source (key ∷ keys) =
    let rest = assert_keys c source keys in
    elim (get key source) [
      | none ↦
          ("Expected presence of key '" <> key <> "' in data: " <> c.show (object source)) ∷ rest
      | some v ↦ rest
    ]

-- what reading the file of the configuration gives
pub data File : Type 0 where
  loaded : Value → File
  unreadable : String → File

abbrev checked : List String → Fields → Fields
checked [] config = config
checked (e ∷ es) config = errors_to_dict (e ∷ es)

abbrev check_config : Context → Fields → Fields
check_config c config =
    checked
      (assert_equals c config (
          ("apiVersion", "metalk8s.scality.com/v1alpha2") ∷ ("kind", "BootstrapConfiguration") ∷ [])
        ++ assert_keys c config ("archives" ∷ []))
      config

-- `_load_config`
unfoldable pub load_config : Context → String → File → Outcome Fields
load_config c path (unreadable e) =
    return (errors_to_dict (("Failed to load " <> path <> ": " <> e) ∷ []))
load_config c path (loaded v) =
    if not (truthy v)
    then return (errors_to_dict (("Invalid BootstrapConfiguration at " <> path) ∷ []))
    else as_dict v >>= λ config. return (check_config c config)
