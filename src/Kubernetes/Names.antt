-- ===== src/Kubernetes/Names.antt =====
-- salt/_utils/kubernetes_utils.py: `_convert_attribute_name`, `_cast_dict_keys` and
-- `camel_to_snake`, which spell the keys of a manifest the way the Kubernetes client does.
pub mod Inserted
use Prim.Native.Char.{Char, code}
use metalk8s.Prelude.{
  ℕ, String, ◌<>◌, Bool, true, false, ◌&&◌, ◌||◌, Option, none, some, nat_eq, ltb, lower, ◌==◌,
  if◌then◌else◌, ◌≡◌, refl,
}
use metalk8s.Kubernetes.Values.{
  Value, null, boolean, integer, real, date, text, array, object, instance_of, Items, no_items,
  item, Fields, no_fields, field, get, put,
}

-- `[a-z]` and `[A-Z0-9]`
abbrev pub is_small : Char → Bool
is_small c = ltb 96 (code c) && ltb (code c) 123

abbrev pub is_capital : Char → Bool
is_capital c = (ltb 64 (code c) && ltb (code c) 91) || (ltb 47 (code c) && ltb (code c) 58)

abbrev pub underscore : Char
underscore = "_"

-- `re.sub('([a-z])([A-Z0-9])', r'\1_\2', key)`: the capital of a match begins no other one
unfoldable pub split_words : String → String
split_words String.[] = ""
split_words (String.◌∷◌ a String.[]) = String.◌∷◌ a ""
split_words (String.◌∷◌ a (String.◌∷◌ b s)) =
    let rest = split_words (String.◌∷◌ b s) in
    String.◌∷◌ a (if is_small a && is_capital b then String.◌∷◌ underscore rest else rest)

-- `re.sub('([A-Z0-9])([A-Z0-9][a-z])', r'\1_\2', key)`: what is behind the first character of a
-- match begins no other one
unfoldable pub split_capitals : String → String
split_capitals String.[] = ""
split_capitals (String.◌∷◌ a String.[]) = String.◌∷◌ a ""
split_capitals (String.◌∷◌ a (String.◌∷◌ b String.[])) = String.◌∷◌ a (String.◌∷◌ b "")
split_capitals (String.◌∷◌ a (String.◌∷◌ b (String.◌∷◌ c s))) =
    let rest = split_capitals (String.◌∷◌ b (String.◌∷◌ c s)) in
    String.◌∷◌ a
      (if is_capital a && (is_capital b && is_small c) then String.◌∷◌ underscore rest else rest)

-- `key[1:]` of a key that begins with `$`
unfoldable pub without_dollar : String → Option String
without_dollar String.[] = none
without_dollar (String.◌∷◌ c s) = if nat_eq (code c) 36 then some s else none

abbrev snake : String → Option String → String
snake key (some rest) = rest
snake key none = lower (split_capitals (split_words key))

-- `keyword.iskeyword` is Python's own.
unfoldable pub convert_attribute_name : (String → Bool) → String → String
unfolding split_words split_capitals without_dollar
convert_attribute_name iskeyword key =
    if iskeyword key then "_" <> key else snake key (without_dollar key)

unfoldable mutual
  pub cast_dict_keys : Value → (String → String) → Value
  cast_dict_keys (object fs) key_cast = object (cast_fields_keys fs key_cast no_fields)
  cast_dict_keys (array xs) key_cast = array (cast_items_keys xs key_cast)
  cast_dict_keys data_value key_cast = data_value

  cast_items_keys : Items → (String → String) → Items
  cast_items_keys no_items key_cast = no_items
  cast_items_keys (item v xs) key_cast =
      item (cast_dict_keys v key_cast) (cast_items_keys xs key_cast)

  -- the dict that the comprehension has made so far: of two keys that become one the last counts
  pub cast_fields_keys : Fields → (String → String) → Fields → Fields
  cast_fields_keys no_fields key_cast acc = acc
  cast_fields_keys (field k v fs) key_cast acc =
      cast_fields_keys fs key_cast (put (key_cast k) (cast_dict_keys v key_cast) acc)

unfoldable pub camel_to_snake : (String → Bool) → Value → Value
unfolding cast_dict_keys convert_attribute_name
camel_to_snake iskeyword source = cast_dict_keys source (convert_attribute_name iskeyword)
