-- ===== src/Pillars/Solutions.antt =====
-- salt/_pillar/metalk8s_solutions.py: the pillar of the Solutions.
use metalk8s.Prelude.{
  ℕ, suc, String, ◌<>◌, Bool, false, Option, none, some, List, [], ◌∷◌, contains, decimal, ◌==◌,
  if◌then◌else◌,
}
use metalk8s.Prelude.Dict
use metalk8s.Prelude.Dict.{Dict}
use metalk8s.Exec.{Outcome, return, ◌>>=◌}
use metalk8s.Kubernetes.Values.{
  Value, text, boolean, array, object, Items, no_items, item, Fields, no_fields, field, get, put,
}
use metalk8s.Pillars.{errors_to_dict, promote_errors}
use metalk8s.Pillars.Nodes.{Called, given, failed}

-- the calls of `metalk8s_solutions`; `available` is what the bootstrap node answers
pub record SolutionCalls : Type 0 where
  pub config : Called Fields
  pub available : Called (Dict (List String))
  pub active : Called (Dict String)
  pub environments : Called Fields

-- the dict of a part, with its error
abbrev part : String → Called Fields → Fields
part what (given fs) = fs
part what (failed e) = errors_to_dict ((what <> e) ∷ [])

-- a version with its flag
abbrev version_info : Option String → String → Value
version_info active version =
    object (field "version" (text version) (field "active" (boolean (is_active active)) no_fields))
  where
    is_active : Option String → Bool
    is_active none = false
    is_active (some v) = version == v

unfoldable pub flagged : Option String → List String → Items
flagged active [] = no_items
flagged active (v ∷ vs) = item (version_info active v) (flagged active vs)

unfoldable pub with_flags : Dict String → Dict (List String) → Fields
with_flags active [] = no_fields
with_flags active ((solution, versions) ∷ available) =
    field solution (array (flagged (Dict.get solution active) versions))
      (with_flags active available)

unfoldable pub unflagged : List String → Items
unflagged [] = no_items
unflagged (v ∷ vs) = item (object (field "version" (text v) no_fields)) (unflagged vs)

unfoldable pub without_flags : Dict (List String) → Fields
without_flags [] = no_fields
without_flags ((solution, versions) ∷ available) =
    field solution (array (unflagged versions)) (without_flags available)

abbrev error_of {ℓ} : {A : Type ℓ} → String → Called A → List String
error_of what (given a) = []
error_of what (failed e) = (what <> e) ∷ []

abbrev errors_put : List String → Fields → Fields
errors_put errors fs = elim (get "_errors" (errors_to_dict errors)) [
  | none ↦ fs
  | some v ↦ put "_errors" v fs
]

-- `result['available']`, after the two calls
abbrev available_of : Called (Dict (List String)) → Called (Dict String) → Fields
available_of (given available) (given active) = with_flags active available
available_of (given available) (failed e) =
    errors_put (("Error when listing active Solution versions: " <> e) ∷ [])
      (without_flags available)
available_of (failed e) active = errors_to_dict (
    ("Error when listing available Solutions: " <> e)
    ∷ error_of "Error when listing active Solution versions: " active)

-- `_load_solutions`
unfoldable pub load_solutions : SolutionCalls → Outcome Fields
load_solutions calls =
    promote_errors
      (field "available" (object (available_of calls.available calls.active)) (
        field "config" (object (part "Error when reading Solutions config file: " calls.config)) (
          field "environments"
            (object (part "Error when listing Solution Environments: " calls.environments))
            no_fields)))
      "available"
    >>= λ r1. promote_errors r1 "config" >>= λ r2. promote_errors r2 "environments"

-- the bootstrap nodes among those of the pillar, with their roles
unfoldable pub bootstrap_nodes : Dict (List String) → List String
bootstrap_nodes [] = []
bootstrap_nodes ((node, roles) ∷ nodes) =
    let rest = bootstrap_nodes nodes in if contains "bootstrap" roles then node ∷ rest else rest

abbrev count : List String → ℕ
count [] = 0
count (x ∷ xs) = suc (count xs)

abbrev number_error : List String → Fields
number_error nodes =
    errors_to_dict
      (("Must have one and only one bootstrap Node (found " <> decimal (count nodes) <> ")") ∷ [])

abbrev load_on : (String → SolutionCalls) → List String → Outcome Fields
load_on calls [] = return (number_error [])
load_on calls (x ∷ []) = load_solutions (calls x)
load_on calls (x ∷ y ∷ xs) = return (number_error (x ∷ y ∷ xs))

-- `ext_pillar`: what stands under `metalk8s:solutions`, by the nodes of the pillar or their errors
unfoldable pub ext_pillar : (String → SolutionCalls) → Option (Dict (List String)) → Outcome Fields
ext_pillar calls none = return (errors_to_dict ("Pillar 'metalk8s:nodes' has errors" ∷ []))
ext_pillar calls (some nodes) = load_on calls (bootstrap_nodes nodes)
