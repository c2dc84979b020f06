-- ===== src/Kubernetes/Values.antt =====
-- The Python values that a manifest and the objects of the Kubernetes client are made of. The
-- keys of a dict are texts.
use metalk8s.Prelude.{
  String, Bool, Option, none, some, ◌==◌, if◌then◌else◌, ◌≡◌, refl, arith, eq_iff,
}
use metalk8s.Prelude.Integers.{ℤ}

mutual
  pub data Value : Type 0 where
    null : Value
    boolean : Bool → Value
    integer : ℤ → Value
    -- a float, and a datetime, by their text
    real : String → Value
    date : String → Value
    text : String → Value
    array : Items → Value
    object : Fields → Value
    -- an object of a model class of the client, with the arguments that it was made with
    instance_of : String → Fields → Value

  pub data Items : Type 0 where
    no_items : Items
    item : Value → Items → Items

  pub data Fields : Type 0 where
    no_fields : Fields
    field : String → Value → Fields → Fields

-- `fields.get(key)`
unfoldable pub get : String → Fields → Option Value
get key no_fields = none
get key (field k v fs) = if k == key then some v else get key fs

-- `fields[key] = value`
unfoldable pub put : String → Value → Fields → Fields
put key value no_fields = field key value no_fields
put key value (field k v fs) =
    let rest = put key value fs in if k == key then field key value fs else field k v rest

-- `fields.pop(key, None)`, the dict that is left
unfoldable pub remove : String → Fields → Fields
remove key no_fields = no_fields
remove key (field k v fs) = let rest = remove key fs in if k == key then rest else field k v rest

pub get-put :
    (key other : String) (value : Value) (fs : Fields)
    → get other (put key value fs) ≡ (if key == other then some value else get other fs)
unfolding get put
get-put key other value no_fields = refl
get-put key other value (field k v fs) =
    ground (arith, eq_iff key other, eq_iff k key, eq_iff k other, get-put key other value fs)
