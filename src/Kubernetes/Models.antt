-- ===== src/Kubernetes/Models.antt =====
-- salt/_utils/kubernetes_utils.py: `_build_standard_object` and `_cast_value`, which make an
-- object of the Kubernetes client from a manifest.
pub mod Typed
pub mod Casts
use Prim.Native.Char.{Char, code}
use metalk8s.Prelude.{
  ℕ, String, ◌<>◌, Bool, true, false, not, ◌&&◌, ◌||◌, Option, none, some, List, [], ◌∷◌, nat_eq,
  ltb, ◌==◌, if◌then◌else◌,
}
use metalk8s.Prelude.Dict
use metalk8s.Prelude.Dict.{Dict}
use metalk8s.Prelude.Integers.{ℤ, pos, negsuc}
use metalk8s.Exec.{
  Exn, Outcome, return, raise, unfinished, ◌>>=◌, type_error, value_error, exn_text,
}
use metalk8s.Archives.{strip}
use metalk8s.Kubernetes.Values.{
  Value, null, boolean, integer, real, date, text, array, object, instance_of, Items, no_items,
  item, Fields, no_fields, field, put,
}

-- What the code takes from `kubernetes.client.models` and from Python.
pub record Models : Type 0 where
  -- the model classes that there are, by name
  pub has_model : String → Bool
  pub attribute_map : String → Dict String
  pub openapi_types : String → Dict String
  -- the text of the `ValueError` with which `model(**kwargs)` refuses its arguments
  pub refused : String → Fields → Option String
  -- `datetime.strptime(value, '%Y-%m-%dT%H:%M:%SZ')`
  pub strptime : String → Option String
  -- `float(n)`
  pub float : ℤ → String
  -- `'{} (type: {})'.format(value, type(value))`
  pub describe : Value → String

-- What a type declaration of a model can be.
pub data Declared : Type 0 where
  -- `anything` is the type `object`
  str bool int float anything datetime : Declared
  dict_of list_of model_of : String → Declared

abbrev is_space : Char → Bool
is_space c = nat_eq (code c) 32 || (ltb 8 (code c) && ltb (code c) 14)

-- the text in front of a closing character, when no whitespace is in it
unfoldable before : ℕ → String → Option String
before close String.[] = none
before close (String.◌∷◌ c String.[]) = if nat_eq (code c) close then some "" else none
before close (String.◌∷◌ c (String.◌∷◌ d s)) = elim (before close (String.◌∷◌ d s)) [
  | none ↦ none
  | some body ↦ if is_space c then none else some (String.◌∷◌ c body)
]

-- `(?P<value_type>\S+)` and the closing character
abbrev value_type : ℕ → String → Option String
value_type close s = elim (before close s) [
  | none ↦ none
  | some body ↦ if body == "" then none else some body
]

-- `\s?`
abbrev skip_space : String → String
skip_space String.[] = ""
skip_space (String.◌∷◌ c s) = if is_space c then s else String.◌∷◌ c s

-- `DICT_PATTERN.match`
unfoldable pub dict_pattern : String → Option String
unfolding before
dict_pattern s = elim (strip "dict(str," s) [
  | none ↦ none
  | some rest ↦ value_type 41 (skip_space rest)
]

-- `LIST_PATTERN.match`
unfoldable pub list_pattern : String → Option String
unfolding before
list_pattern s = elim (strip "list[" s) [ none ↦ none | some rest ↦ value_type 93 rest ]

abbrev pattern_or : Option String → (String → Declared) → Declared → Declared
pattern_or none k other = other
pattern_or (some inner) k other = k inner

-- the tests of `_cast_value` on the type declaration
unfoldable pub declared : String → Declared
unfolding dict_pattern list_pattern
declared s =
    if s == "str"
    then str
    else if s == "bool"
    then bool
    else if s == "int"
    then int
    else if s == "float"
    then float
    else if s == "object"
    then anything
    else if s == "datetime"
    then datetime
    else pattern_or (dict_pattern s) dict_of (pattern_or (list_pattern s) list_of (model_of s))

-- `_type_error`
abbrev expected : Models → Value → String → Outcome Value
expected lib value what =
    raise (type_error ("Expected " <> what <> ", received: " <> lib.describe value))

abbrev float_value : Models → Value → Outcome Value
float_value lib (boolean true) = return (real (lib.float (pos 1)))
float_value lib (boolean false) = return (real (lib.float (pos 0)))
float_value lib (integer n) = return (real (lib.float n))
float_value lib (real x) = return (real x)
float_value lib value = expected lib value "a float"

-- an instance of `six.integer_types`, of which `bool` is a subclass
abbrev int_value : Models → Value → Outcome Value
int_value lib (boolean b) = return (boolean b)
int_value lib (integer n) = return (integer n)
int_value lib value = expected lib value "an integer"

abbrev date_value : Models → Value → Outcome Value
date_value lib (text s) = elim (lib.strptime s) [
  | none ↦ expected lib (text s) "a date-time string"
  | some d ↦ return (date d)
]
date_value lib value = expected lib value "a date-time string"

abbrev str_value : Models → Value → Outcome Value
str_value lib (text s) = return (text s)
str_value lib value = expected lib value "a string"

abbrev bool_value : Models → Value → Outcome Value
bool_value lib (boolean b) = return (boolean b)
bool_value lib value = expected lib value "a boolean"

abbrev pub unknown_type : String → Outcome Value
unknown_type name = raise (value_error ("Unknown type string provided: " <> name <> "."))

-- a value that is not a dict where a dict is cast
abbrev not_a_dict : Models → Value → String → Outcome Value
not_a_dict lib value name =
    if lib.has_model name
    then expected lib value ("a dict to cast as a \"" <> name <> "\"")
    else unknown_type name

-- `_cast_value` on a value in which nothing is cast
unfoldable pub cast_scalar : Models → Value → Declared → Outcome Value
cast_scalar lib value str = str_value lib value
cast_scalar lib value bool = bool_value lib value
cast_scalar lib value int = int_value lib value
cast_scalar lib value float = float_value lib value
cast_scalar lib value anything = return value
cast_scalar lib value datetime = date_value lib value
cast_scalar lib value (dict_of inner) = expected lib value "a dictionary"
cast_scalar lib value (list_of inner) = expected lib value "a list"
cast_scalar lib value (model_of name) = not_a_dict lib value name

-- `{value: key for key, value in model.attribute_map.items()}`
unfoldable pub reversed : Dict String → Dict String → Dict String
reversed [] acc = acc
reversed ((key, value) ∷ d) acc = reversed d (Dict.put value key acc)

abbrev or_else : Option String → String → String
or_else none default = default
or_else (some x) default = x

abbrev pub attribute : Models → String → String → String
attribute lib model src_key =
    or_else (Dict.get src_key (reversed (lib.attribute_map model) [])) src_key

-- `except TypeError`
abbrev pub as_value_error : String → String → Outcome Value → Outcome Value
as_value_error src_key model (raise (type_error e)) = raise (
    value_error (
      "Invalid value for attribute " <> src_key <> " of a \"" <> model <> "\" object: " <> e
      <> "."))
as_value_error src_key model r = r

-- `model(**kwargs)`
abbrev pub construct : Models → String → Fields → Outcome Value
construct lib model kwargs = elim (lib.refused model kwargs) [
  | none ↦ return (instance_of model kwargs)
  | some e ↦ raise (value_error e)
]

unfoldable mutual
  pub cast_value : Models → Value → String → Outcome Value
  cast_value lib null type_string = return null
  cast_value lib (array xs) type_string = elim (declared type_string) [
    | list_of inner ↦ cast_items lib xs inner >>= λ ys. return (array ys)
    | d ↦ cast_scalar lib (array xs) d
  ]
  cast_value lib (object fs) type_string = elim (declared type_string) [
    | dict_of inner ↦ cast_fields lib fs inner >>= λ gs. return (object gs)
    | model_of name ↦
        if lib.has_model name then cast_object lib name fs no_fields else unknown_type name
    | d ↦ cast_scalar lib (object fs) d
  ]
  cast_value lib value type_string = cast_scalar lib value (declared type_string)

  pub cast_items : Models → Items → String → Outcome Items
  cast_items lib no_items inner = return no_items
  cast_items lib (item v xs) inner =
      cast_value lib v inner >>= λ w. cast_items lib xs inner >>= λ ws. return (item w ws)

  pub cast_fields : Models → Fields → String → Outcome Fields
  cast_fields lib no_fields inner = return no_fields
  cast_fields lib (field k v fs) inner =
      cast_value lib v inner >>= λ w. cast_fields lib fs inner >>= λ ws. return (field k w ws)

  -- the loop of `_build_standard_object`, with the arguments that it has gathered
  pub cast_object : Models → String → Fields → Fields → Outcome Value
  cast_object lib model no_fields kwargs = construct lib model kwargs
  cast_object lib model (field src_key v fs) kwargs =
      elim (Dict.get (attribute lib model src_key) (lib.openapi_types model)) [
        | none ↦ raise (
            value_error ("Unsupported attribute " <> src_key <> " for \"" <> model <> "\" object."))
        | some type_string ↦ as_value_error src_key model (cast_value lib v type_string) >>= λ w.
            cast_object lib model fs (put (attribute lib model src_key) w kwargs)
      ]

-- `_build_standard_object`
unfoldable pub build_standard_object : Models → String → Fields → Outcome Value
unfolding cast_object
build_standard_object lib model manifest = cast_object lib model manifest no_fields
