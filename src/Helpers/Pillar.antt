-- ===== src/Helpers/Pillar.antt =====
-- salt/_modules/metalk8s.py: `check_pillar_keys`.
pub mod Available
use Prim.Native.Char.{code}
use metalk8s.Prelude.{
  String, ◌<>◌, Bool, true, false, ◌&&◌, not, Option, none, some, List, [], ◌∷◌, map, join, nat_eq,
  is_empty, if◌then◌else◌,
}
use metalk8s.Exec.{Outcome, return, raise, ◌>>=◌, command, attribute_error}
use metalk8s.Kubernetes.Values.{Value, object, Fields, no_fields, get}
use metalk8s.Helpers.{truthy, listed}

-- a key: a text with dots, or a list of texts
pub data Key : Type 0 where
  dotted : String → Key
  path : List String → Key

-- the first part of a text that is split, with the others
abbrev onto : List String → String → List String
onto [] s = s ∷ []
onto (x ∷ xs) s = (s <> x) ∷ xs

-- `text.split('.')`
unfoldable pub split : String → List String
split String.[] = "" ∷ []
split (String.◌∷◌ c s) =
    let rest = split s in if nat_eq (code c) 46 then "" ∷ rest else onto rest (String.◌∷◌ c "")

abbrev pub key_list : Key → List String
key_list (dotted text) = split text
key_list (path keys) = keys

-- `value.get`
abbrev pub dict_of : Value → Outcome Fields
dict_of (object fs) = return fs
dict_of _ = raise (attribute_error "object has no attribute 'get'")

-- a value that is found and is not empty
abbrev pub present : Option Value → Option Value
present none = none
present (some v) = if truthy v then some v else none

abbrev or_default : List String → String → List String
or_default [] key = ("Empty value for " <> key) ∷ []
or_default (e ∷ es) key = e ∷ es

-- one key of the inner loop, with what is done with the value that it leads to
abbrev pub step :
    (Value → Outcome (Option String)) → String → String → Fields → Outcome (Option String)
step rest key whole fs = elim (present (get key fs)) [
  | some v ↦ rest v
  | none ↦ return (
      some (
        "Unable to get "
        <> whole
        <> ":\n\t"
        <> join "\n\t" (or_default (listed (get "_errors" fs)) key)))
]

-- the inner loop: the errors of a key that is not available, with the whole key for the text
unfoldable pub walk : Value → List String → String → Outcome (Option String)
walk value [] whole = return none
walk value (key ∷ keys) whole = dict_of value >>= step (λ v. walk v keys whole) key whole

abbrev pub and_then : Option String → List String → List String
and_then none errors = errors
and_then (some e) errors = e ∷ errors

unfoldable pub errors_for : Value → List Key → Outcome (List String)
unfolding walk
errors_for pillar [] = return []
errors_for pillar (k ∷ ks) = walk pillar (key_list k) (join "." (key_list k)) >>= λ e.
    errors_for pillar ks >>= λ es. return (and_then e es)

abbrev pub settle : Bool → List String → Outcome Bool
settle raise_error [] = return true
settle true (e ∷ es) = raise (command (join "\n" (e ∷ es)) [])
settle false (e ∷ es) = return false

-- `pillar`, what `get_pillar` compiles, and `__pillar__`
abbrev pub chosen_pillar : Bool → Fields → Fields → Fields → Fields
chosen_pillar refresh (Fields.field k v fs) compiled known = Fields.field k v fs
chosen_pillar true no_fields (Fields.field k v fs) known = Fields.field k v fs
chosen_pillar _ no_fields compiled known = known

unfoldable pub check_pillar_keys : List Key → Bool → Fields → Fields → Fields → Bool → Outcome Bool
unfolding errors_for
check_pillar_keys keys refresh pillar compiled known raise_error =
    errors_for (object (chosen_pillar refresh pillar compiled known)) keys >>= λ es.
    settle raise_error es
