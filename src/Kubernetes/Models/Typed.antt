-- ===== src/Kubernetes/Models/Typed.antt =====
-- What `_cast_value` returns has the type that was declared, as deep as the value goes.
use metalk8s.Prelude.{String, some, ◌≡◌}
use metalk8s.Prelude.Dict
use metalk8s.Kubernetes.Values.{
  Value, null, boolean, integer, real, date, text, array, object, instance_of, Items, no_items,
  item, Fields, no_fields, field,
}
use metalk8s.Kubernetes.Models.{
  Models, Declared, str, bool, int, float, anything, datetime, dict_of, list_of, model_of, declared,
}

abbrev IsBool : Declared → Type 0
IsBool bool = Unit
IsBool int = Unit
IsBool anything = Unit
IsBool _ = ⊥

abbrev IsInteger : Declared → Type 0
IsInteger int = Unit
IsInteger anything = Unit
IsInteger _ = ⊥

abbrev IsReal : Declared → Type 0
IsReal float = Unit
IsReal anything = Unit
IsReal _ = ⊥

abbrev IsDate : Declared → Type 0
IsDate datetime = Unit
IsDate anything = Unit
IsDate _ = ⊥

abbrev IsText : Declared → Type 0
IsText str = Unit
IsText anything = Unit
IsText _ = ⊥

-- A value of a declared type. `None` is of every type, as `_cast_value` takes it; a `bool` is an
-- `int`; an object of a model class has in each attribute a value of the type declared for it.
unfoldable mutual
  pub HasType : Models → Value → Declared → Type 0
  HasType lib null d = Unit
  HasType lib (boolean b) d = IsBool d
  HasType lib (integer n) d = IsInteger d
  HasType lib (real x) d = IsReal d
  HasType lib (date x) d = IsDate d
  HasType lib (text x) d = IsText d
  HasType lib (array xs) d = elim d [
    | list_of inner ↦ ItemsHaveType lib xs (declared inner)
    | anything ↦ Unit
    | _ ↦ ⊥
  ]
  HasType lib (object fs) d = elim d [
    | dict_of inner ↦ FieldsHaveType lib fs (declared inner)
    | anything ↦ Unit
    | _ ↦ ⊥
  ]
  HasType lib (instance_of model fs) d = elim d [
    | model_of name ↦ (model ≡ name) × AttributesHaveType lib model fs
    | anything ↦ Unit
    | _ ↦ ⊥
  ]

  pub ItemsHaveType : Models → Items → Declared → Type 0
  ItemsHaveType lib no_items d = Unit
  ItemsHaveType lib (item v xs) d = HasType lib v d × ItemsHaveType lib xs d

  pub FieldsHaveType : Models → Fields → Declared → Type 0
  FieldsHaveType lib no_fields d = Unit
  FieldsHaveType lib (field k v fs) d = HasType lib v d × FieldsHaveType lib fs d

  pub AttributesHaveType : Models → String → Fields → Type 0
  AttributesHaveType lib model no_fields = Unit
  AttributesHaveType lib model (field k v fs) =
      ((t : String) × (Dict.get k (lib.openapi_types model) ≡ some t) × HasType lib v (declared t))
      × AttributesHaveType lib model fs

pub HasType-anything : (lib : Models) (v : Value) → HasType lib v anything
unfolding HasType
HasType-anything lib null = tt
HasType-anything lib (boolean b) = tt
HasType-anything lib (integer n) = tt
HasType-anything lib (real x) = tt
HasType-anything lib (date x) = tt
HasType-anything lib (text x) = tt
HasType-anything lib (array xs) = tt
HasType-anything lib (object fs) = tt
HasType-anything lib (instance_of model fs) = tt
