-- ===== src/Cordon/Tests.antt =====
-- An API server with one node, and the theorems on cordoning at it.
use metalk8s.Prelude.{true, false, not, some, [], ◌∷◌, keep, ◌==◌, ◌≡◌, refl}
use metalk8s.Exec.{return, answer}
use metalk8s.Action.{from_reply}
use metalk8s.Cordon.{
  Taint, NodeSpec, Patch, NodeApi, Ret, key_to_remove, taints_of, already, uncordon_patch,
  cordon_node, uncordon_node, act, node_set_unschedulable,
}
use metalk8s.Cordon.Taints.{patched, uncordon_node-patched}
use metalk8s.Cordon.Repeat.{Updates, node_set_unschedulable-again}

apply_patch : NodeSpec → Patch → NodeSpec
apply_patch node patch = record {
  unschedulable = some patch.unschedulable;
  taints = some (patched patch.taints (taints_of node));
}

abbrev api : NodeApi
api = record {
  State = NodeSpec;
  can_update = true;
  get_node = λ node name. answer (some node);
  update_node = λ node name patch. (answer (apply_patch node patch), apply_patch node patch);
}

abbrev kept : Taint
kept = record { key = "node-role.kubernetes.io/bootstrap"; value = ""; effect = "NoSchedule" }

abbrev cordoned : NodeSpec
cordoned = record {
  unschedulable = some true;
  taints = some (record { key = key_to_remove; value = ""; effect = "NoSchedule" } ∷ kept ∷ []);
}

program : Unit {0}
unfolding apply_patch node_set_unschedulable act cordon_node uncordon_node uncordon_patch
program = tt

uncordons :
    (node_set_unschedulable api false "node-1" false cordoned).1
    ≡ record { unschedulable = some false; taints = some (kept ∷ []) }
unfolding program
uncordons = refl

api_updates : Updates api
unfolding apply_patch
api_updates = record { patched = λ s name patch node e. cc; stored = λ s name patch node e. cc }

uncordon_node-patched_example :
    (patch : Patch) × (uncordon_node api "node-1" cordoned ≡ (
      from_reply (api.update_node cordoned "node-1" patch).0,
      (api.update_node cordoned "node-1" patch).1,
    ))
    × (patch.unschedulable ≡ false)
    × (patched patch.taints (taints_of cordoned)
        ≡ keep (λ taint. not (taint.key == key_to_remove)) (taints_of cordoned))
uncordon_node-patched_example = uncordon_node-patched api cordoned "node-1" cordoned refl refl

abbrev first : Ret
first = record {
  name = "node-1";
  changes = some (true, some false);
  result = some true;
  comment = "Node node-1 uncordoned";
}

node_set_unschedulable-again_example :
    node_set_unschedulable api false "node-1" false
      (node_set_unschedulable api false "node-1" false cordoned).1
    ≡ (
      return (already "node-1" false),
      (node_set_unschedulable api false "node-1" false cordoned).1,
    )
unfolding program
node_set_unschedulable-again_example =
    node_set_unschedulable-again api api_updates "node-1" false cordoned first refl
