-- ===== src/Cordon.antt =====
-- salt/_modules/metalk8s_cordon.py and salt/_states/metalk8s_cordon.py: a node is made unschedulable,
-- or schedulable again, by a patch.
pub mod Taints
pub mod Repeat
mod Tests
use metalk8s.Prelude.{
  String, ◌<>◌, Bool, true, false, not, Option, none, some, List, [], any, keep, ◌==◌,
  if◌then◌else◌,
}
use metalk8s.Exec.{Outcome, return, raise, command, type_error, Reply}
use metalk8s.Action.{Action, pure, throw, lift, ask, from_reply, ◌>>=◌, ◌>>◌}

pub record Taint : Type 0 where
  pub key : String
  pub value : String
  pub effect : String

-- The fields of the spec of a node that the module reads.
pub record NodeSpec : Type 0 where
  pub unschedulable : Option Bool
  pub taints : Option (List Taint)

pub record Patch : Type 0 where
  pub unschedulable : Bool
  pub taints : Option (List Taint)

-- `metalk8s_kubernetes.get_object` and `update_object` for nodes, and whether the second is loaded.
pub record NodeApi : Type 1 where
  pub State : Type 0
  pub can_update : Bool
  pub get_node : State → String → Reply (Option NodeSpec)
  pub update_node : State → String → Patch → Reply NodeSpec × State

abbrev pub key_to_remove : String
key_to_remove = "node.kubernetes.io/unschedulable"

abbrev pub taints_of : NodeSpec → List Taint
taints_of node = elim node.taints [ none ↦ [] | some taints ↦ taints ]

-- `get('unschedulable') or False`
abbrev pub is_unschedulable : NodeSpec → Bool
is_unschedulable node = elim node.unschedulable [ none ↦ false | some b ↦ b ]

unfoldable pub uncordon_patch : NodeSpec → Patch
uncordon_patch node = record {
  unschedulable = false;
  taints =
      if any (λ taint. taint.key == key_to_remove) (taints_of node)
      then some (keep (λ taint. not (taint.key == key_to_remove)) (taints_of node))
      else none;
}

-- the result of the state; `changes` are the old value and the new one
pub record Ret : Type 0 where
  pub name : String
  pub changes : Option (Bool × Option Bool)
  pub result : Option Bool
  pub comment : String

abbrev pub action : Bool → String
action true = "cordon"
action false = "uncordon"

abbrev pub same : Bool → Bool → Bool
same true b = b
same false b = not b

abbrev pub already : String → Bool → Ret
already name value = record {
  name = name;
  changes = none;
  result = some true;
  comment = "The node " <> name <> " is already " <> action value <> "ed";
}

-- `None['spec']`
abbrev pub spec_of : Option NodeSpec → Outcome NodeSpec
spec_of none = raise (type_error "'NoneType' object has no attribute '__getitem__'")
spec_of (some node) = return node

module _ (api : NodeApi) where
  abbrev pub check_deps : Action api.State Unit
  check_deps =
      if api.can_update
      then pure tt
      else throw (command "'metalk8s_kubernetes.update_object' is not available" [])

  abbrev pub update : String → Patch → Action api.State NodeSpec
  update name patch s = let (reply, s') = api.update_node s name patch in (from_reply reply, s')

  abbrev pub read_node : String → Action api.State NodeSpec
  read_node name = do found ← ask (λ s. from_reply (api.get_node s name)); lift (spec_of found)

  unfoldable pub cordon_node : String → Action api.State NodeSpec
  cordon_node name = check_deps >> update name (record { unschedulable = true; taints = none })

  unfoldable pub uncordon_node : String → Action api.State NodeSpec
  unfolding uncordon_patch
  uncordon_node name = do check_deps; node ← read_node name; update name (uncordon_patch node)

  -- `metalk8s_kubernetes.{cordon,uncordon}_node`
  unfoldable pub act : Bool → String → Action api.State NodeSpec
  unfolding cordon_node uncordon_node
  act true name = cordon_node name
  act false name = uncordon_node name

  -- `_node_set_unschedulable`, which `node_cordoned` and `node_uncordoned` call
  unfoldable pub node_set_unschedulable : Bool → String → Bool → Action api.State Ret
  unfolding act
  node_set_unschedulable test name value = do
    node ← read_node name
    if same (is_unschedulable node) value
        then pure (already name value)
        else if test
        then pure (record {
          name = name;
          changes = none;
          result = none;
          comment = "The node " <> name <> " is going to be " <> action value <> "ed";
        })
        else (do
          res ← act value name
          pure (record {
            name = name;
            changes = some (is_unschedulable node, res.unschedulable);
            result = some true;
            comment = "Node " <> name <> " " <> action value <> "ed";
          }))
