-- ===== src/Kubernetes/Models/Casts.antt =====
-- The proof that what `_cast_value` returns has the type that was declared.
use mathlib.Core.Path.{subst}
use metalk8s.Prelude.{
  String, ◌<>◌, true, false, Option, none, some, ◌≡◌, refl, ◌==◌, if◌then◌else◌, if-both,
}
use metalk8s.Prelude.Dict
use metalk8s.Exec.{Outcome, return, raise, unfinished, Exn, type_error, value_error, ◌>>=◌}
use metalk8s.Kubernetes.Values.{
  Value, null, boolean, integer, real, date, text, array, object, instance_of, Items, no_items,
  item, Fields, no_fields, field, put,
}
use metalk8s.Kubernetes.Models.{
  Models, Declared, str, bool, int, float, anything, datetime, dict_of, list_of, model_of,
  attribute, construct, as_value_error, unknown_type, declared, cast_scalar, cast_value, cast_items,
  cast_fields, cast_object, build_standard_object,
}
use metalk8s.Kubernetes.Models.Typed.{
  HasType, ItemsHaveType, FieldsHaveType, AttributesHaveType, HasType-anything,
}

-- What is claimed of an outcome, for a value that it returns.
abbrev Returns {ℓ} : {A : Type ℓ} → (A → Type ℓ) → Outcome A → Type ℓ
Returns P (return a) = P a
Returns P (raise e) = Unit
Returns P unfinished = Unit

Returns-bind {ℓ} :
    {A B : Type ℓ} (P : A → Type ℓ) (Q : B → Type ℓ) (m : Outcome A) (f : A → Outcome B)
    → Returns P m
    → ((a : A) → P a → Returns Q (f a))
    → Returns Q (m >>= f)
Returns-bind P Q (return a) f h k = k a h
Returns-bind P Q (raise e) f h k = tt
Returns-bind P Q unfinished f h k = tt

AttributesHaveType-put :
    (lib : Models) (model k : String) (v : Value) (fs : Fields) (t : String)
    → Dict.get k (lib.openapi_types model) ≡ some t
    → HasType lib v (declared t)
    → AttributesHaveType lib model fs
    → AttributesHaveType lib model (put k v fs)
unfolding AttributesHaveType put
AttributesHaveType-put lib model k v no_fields t e h hs = ((t, e, h), tt)
AttributesHaveType-put lib model k v (field k' v' fs) t e h hs =
    if-both (AttributesHaveType lib model) (k' == k) ((t, e, h), hs.1)
      (hs.0, AttributesHaveType-put lib model k v fs t e h hs.1)

module _ (lib : Models) where
  str_value-HasType : (v : Value) → Returns (λ w. HasType lib w str) (cast_scalar lib v str)
  unfolding cast_scalar HasType
  str_value-HasType (text x) = tt
  str_value-HasType _ = tt

  bool_value-HasType : (v : Value) → Returns (λ w. HasType lib w bool) (cast_scalar lib v bool)
  unfolding cast_scalar HasType
  bool_value-HasType (boolean b) = tt
  bool_value-HasType _ = tt

  int_value-HasType : (v : Value) → Returns (λ w. HasType lib w int) (cast_scalar lib v int)
  unfolding cast_scalar HasType
  int_value-HasType (boolean b) = tt
  int_value-HasType (integer n) = tt
  int_value-HasType _ = tt

  float_value-HasType : (v : Value) → Returns (λ w. HasType lib w float) (cast_scalar lib v float)
  unfolding cast_scalar HasType
  float_value-HasType (boolean true) = tt
  float_value-HasType (boolean false) = tt
  float_value-HasType (integer n) = tt
  float_value-HasType (real x) = tt
  float_value-HasType _ = tt

  date_text-HasType :
      (o : Option String) (e : Exn)
      → Returns (λ w. HasType lib w datetime) (elim o [ none ↦ raise e | some d ↦ return (date d) ])
  unfolding HasType
  date_text-HasType none e = tt
  date_text-HasType (some d) e = tt

  date_value-HasType :
      (v : Value) → Returns (λ w. HasType lib w datetime) (cast_scalar lib v datetime)
  unfolding cast_scalar HasType
  date_value-HasType (text x) = date_text-HasType (lib.strptime x) _
  date_value-HasType _ = tt

  cast_scalar-HasType :
      (v : Value) (d : Declared) → Returns (λ w. HasType lib w d) (cast_scalar lib v d)
  unfolding cast_scalar
  cast_scalar-HasType v str = str_value-HasType v
  cast_scalar-HasType v bool = bool_value-HasType v
  cast_scalar-HasType v int = int_value-HasType v
  cast_scalar-HasType v float = float_value-HasType v
  cast_scalar-HasType v anything = HasType-anything lib v
  cast_scalar-HasType v datetime = date_value-HasType v
  cast_scalar-HasType v (dict_of inner) = tt
  cast_scalar-HasType v (list_of inner) = tt
  cast_scalar-HasType v (model_of name) =
      if-both (Returns (λ w. HasType lib w (model_of name))) (lib.has_model name) tt tt

  construct-HasType :
      (model : String) (kwargs : Fields)
      → AttributesHaveType lib model kwargs
      → Returns (λ w. HasType lib w (model_of model)) (construct lib model kwargs)
  unfolding HasType
  construct-HasType model kwargs h =
      elim (lib.refused model kwargs)
        as (λ o.
          Returns (λ w. HasType lib w (model_of model))
            (elim o [
              | none ↦ return (instance_of model kwargs)
              | some e ↦ raise (value_error e)
            ])) [ none ↦ (refl, h) | some e ↦ tt ]

  as_value_error-Returns :
      (P : Value → Type 0) (src_key model : String) (r : Outcome Value)
      → Returns P r
      → Returns P (as_value_error src_key model r)
  as_value_error-Returns P src_key model (return a) h = h
  as_value_error-Returns P src_key model (raise (type_error e)) h = tt
  as_value_error-Returns P src_key model (raise _) h = tt
  as_value_error-Returns P src_key model unfinished h = tt

  declared_field :
      (model k : String) (v : Value) (fs kwargs : Fields) (o : Option String)
      → Dict.get (attribute lib model k) (lib.openapi_types model) ≡ o
      → AttributesHaveType lib model kwargs
      → ((ty : String) → Returns (λ w. HasType lib w (declared ty)) (cast_value lib v ty))
      → ((kwargs' : Fields)
          → AttributesHaveType lib model kwargs'
          → Returns (λ w. HasType lib w (model_of model)) (cast_object lib model fs kwargs'))
      → Returns
          (λ w. HasType lib w (model_of model))
          (elim o [
            | none ↦
                raise (
                  value_error ("Unsupported attribute " <> k <> " for \"" <> model <> "\" object."))
            | some ty ↦ as_value_error k model (cast_value lib v ty) >>= λ w.
                cast_object lib model fs (put (attribute lib model k) w kwargs)
          ])
  declared_field model k v fs kwargs none e h value rest = tt
  declared_field model k v fs kwargs (some ty) e h value rest =
      Returns-bind (λ w. HasType lib w (declared ty)) _
        (as_value_error k model (cast_value lib v ty)) _
        (as_value_error-Returns _ k model (cast_value lib v ty) (value ty))
        (λ w hw.
          rest (put (attribute lib model k) w kwargs)
            (AttributesHaveType-put lib model (attribute lib model k) w kwargs ty e hw h))

  array_type :
      (xs : Items) (d : Declared)
      → ((inner : String)
          → Returns (λ ys. ItemsHaveType lib ys (declared inner)) (cast_items lib xs inner))
      → Returns
          (λ w. HasType lib w d)
          (elim d [
            | list_of inner ↦ cast_items lib xs inner >>= λ ys. return (array ys)
            | d ↦ cast_scalar lib (array xs) d
          ])
  unfolding HasType cast_scalar
  array_type xs (list_of inner) items =
      Returns-bind (λ ys. ItemsHaveType lib ys (declared inner)) _ (cast_items lib xs inner) _
        (items inner) (λ ys h. h)
  array_type xs d items = cast_scalar-HasType (array xs) d

  object_type :
      (fs : Fields) (d : Declared)
      → ((inner : String)
          → Returns (λ ys. FieldsHaveType lib ys (declared inner)) (cast_fields lib fs inner))
      → ((name : String)
          → Returns (λ w. HasType lib w (model_of name)) (cast_object lib name fs no_fields))
      → Returns
          (λ w. HasType lib w d)
          (elim d [
            | dict_of inner ↦ cast_fields lib fs inner >>= λ gs. return (object gs)
            | model_of name ↦
                if lib.has_model name then cast_object lib name fs no_fields else unknown_type name
            | d ↦ cast_scalar lib (object fs) d
          ])
  unfolding HasType cast_scalar
  object_type fs (dict_of inner) fields model =
      Returns-bind (λ gs. FieldsHaveType lib gs (declared inner)) _ (cast_fields lib fs inner) _
        (fields inner) (λ gs h. h)
  object_type fs (model_of name) fields model =
      if-both (Returns (λ w. HasType lib w (model_of name))) (lib.has_model name) (model name) tt
  object_type fs d fields model = cast_scalar-HasType (object fs) d

  mutual
    unfolding cast_value HasType

    go_value :
        (v : Value) (ty : String) → Returns (λ w. HasType lib w (declared ty)) (cast_value lib v ty)
    go_value null ty = tt
    go_value (array xs) ty = array_type xs (declared ty) (λ inner. go_items xs inner)
    go_value (object fs) ty =
        object_type fs (declared ty) (λ inner. go_fields fs inner)
          (λ name. go_object name fs no_fields tt)
    go_value v ty = cast_scalar-HasType v (declared ty)

    go_items :
        (xs : Items) (inner : String)
        → Returns (λ ys. ItemsHaveType lib ys (declared inner)) (cast_items lib xs inner)
    go_items no_items inner = tt
    go_items (item v xs) inner =
        Returns-bind (λ w. HasType lib w (declared inner)) _ (cast_value lib v inner) _
          (go_value v inner)
          (λ w hw.
            Returns-bind (λ ws. ItemsHaveType lib ws (declared inner)) _ (cast_items lib xs inner) _
              (go_items xs inner) (λ ws hws. (hw, hws)))

    go_fields :
        (fs : Fields) (inner : String)
        → Returns (λ ys. FieldsHaveType lib ys (declared inner)) (cast_fields lib fs inner)
    go_fields no_fields inner = tt
    go_fields (field k v fs) inner =
        Returns-bind (λ w. HasType lib w (declared inner)) _ (cast_value lib v inner) _
          (go_value v inner)
          (λ w hw.
            Returns-bind (λ ws. FieldsHaveType lib ws (declared inner)) _ (cast_fields lib fs inner)
              _ (go_fields fs inner) (λ ws hws. (hw, hws)))

    go_object :
        (model : String) (fs kwargs : Fields)
        → AttributesHaveType lib model kwargs
        → Returns (λ w. HasType lib w (model_of model)) (cast_object lib model fs kwargs)
    go_object model no_fields kwargs h = construct-HasType model kwargs h
    go_object model (field k v fs) kwargs h =
        declared_field model k v fs kwargs
          (Dict.get (attribute lib model k) (lib.openapi_types model)) refl h (λ ty. go_value v ty)
          (λ kwargs' h'. go_object model fs kwargs' h')

  cast_value-Returns :
      (v : Value) (ty : String) → Returns (λ w. HasType lib w (declared ty)) (cast_value lib v ty)
  cast_value-Returns = go_value

  object-Returns :
      (model : String) (fs : Fields)
      → Returns (λ w. HasType lib w (model_of model)) (build_standard_object lib model fs)
  unfolding build_standard_object AttributesHaveType
  object-Returns model fs = go_object model fs no_fields tt

-- A value that _cast_value returns for a declared type has this type, as deep as the value goes: an
-- object has in every attribute a value of the type that its model class declares for it.
pub cast_value-HasType :
    (lib : Models) (v : Value) (type_string : String) {w : Value}
    → cast_value lib v type_string ≡ return w
    → HasType lib w (declared type_string)
cast_value-HasType lib v type_string e =
    subst (Returns (λ w. HasType lib w (declared type_string))) e
      (cast_value-Returns lib v type_string)

-- A value that _build_standard_object returns for a model class is an object of this class, and
-- each attribute that it was given is declared by the class and has the declared type.
pub build_standard_object-HasType :
    (lib : Models) (model : String) (manifest : Fields) {w : Value}
    → build_standard_object lib model manifest ≡ return w
    → HasType lib w (model_of model)
build_standard_object-HasType lib model manifest e =
    subst (Returns (λ w. HasType lib w (model_of model))) e (object-Returns lib model manifest)
