-- ===== src/Pillars/Tests.antt =====
-- Two bootstrap configurations, and the theorem on the errors at one.
use metalk8s.Prelude.{String, false, some, [], ◌∷◌, ◌==◌, ◌≡◌, refl}
use metalk8s.Prelude.Dict
use metalk8s.Exec.{raise, exception}
use metalk8s.Archives.{strip}
use metalk8s.Kubernetes.Values.{
  Value, null, text, array, object, no_items, item, Fields, no_fields, field, get, put,
}
use metalk8s.Helpers.{truthy}
use metalk8s.Pillars.{
  Context, File, loaded, items_of, append, errors_to_dict, promote_errors, assert_equals,
  assert_keys, load_config,
}
use metalk8s.Pillars.Promoted.{errors_at, promote_errors-append}
use metalk8s.Pillars.Bootstrap
use metalk8s.Pillars.Bootstrap.{load_networks, load_ca, load_iso_path}
use metalk8s.Pillars.Nodes.{label_roles, roles_of, node_info}

abbrev context : Context
context = record { show = λ v. "..." }

program : Unit {0}
unfolding items_of append errors_to_dict promote_errors assert_equals assert_keys load_config
    load_networks load_ca load_iso_path Bootstrap.ext_pillar get put truthy Dict.get label_roles
    roles_of node_info strip
program = tt

abbrev config : Value → File
config archives = loaded (
    object (
      field "apiVersion" (text "metalk8s.scality.com/v1alpha2") (
        field "kind" (text "BootstrapConfiguration") (
          field "archives" archives (
            field "networks" (text "none")
              (field "ca" (object (field "minion" (text "b") no_fields)) no_fields))))))

-- archives that are neither a text nor a list are an exception, and no error in the pillar
archives_null :
    Bootstrap.ext_pillar context "bootstrap.yaml" (config null)
    ≡ raise (exception "tuple index out of range")
unfolding program
archives_null = refl

node_roles :
    roles_of
      (record {
        name = "b";
        labels = ("node-role.kubernetes.io/etcd", "") ∷ ("node-role.kubernetes.io/", "") ∷ [];
      })
      (some "b")
    ≡ "ca" ∷ "etcd" ∷ []
unfolding program
node_roles = refl

abbrev broken : Fields
broken = field "_errors" (array (item (text "no networks") no_items)) no_fields

abbrev source : Fields
source =
    field "_errors" (array (item (text "old") no_items))
      (field "networks" (object broken) no_fields)

abbrev promoted : Fields
promoted =
    field "_errors" (array (item (text "old") (item (text "no networks") no_items)))
      (field "networks" (object broken) no_fields)

promote_errors-append_example :
    (errors_at promoted ≡ append (errors_at source) (item (text "no networks") no_items))
    × ((other : String) → ("_errors" == other) ≡ false → get other promoted ≡ get other source)
unfolding program
promote_errors-append_example =
    promote_errors-append source broken promoted "networks" (item (text "no networks") no_items)
      refl refl refl
