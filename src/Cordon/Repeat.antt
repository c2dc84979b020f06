-- ===== src/Cordon/Repeat.antt =====
-- The states `node_cordoned` and `node_uncordoned` are idempotent.
use metalk8s.Prelude.{String, Bool, true, false, none, some, ◌≡◌, refl, Bool-cases, inl, inr}
use metalk8s.Exec.{return, Reply, answer, failure}
use metalk8s.Action.{from_reply}
use metalk8s.Action.Rules.{Reply-cases, Outcome-cases}
use metalk8s.Cordon.{
  NodeSpec, Patch, NodeApi, Ret, same, already, is_unschedulable, uncordon_patch, cordon_node,
  uncordon_node, act, node_set_unschedulable,
}

-- What the code relies on of the API server: an update answers with the patched node, which is what
-- is found from then on.
pub record Updates (api : NodeApi) : Type 0 where
  pub patched :
      (s : api.State) (name : String) (patch : Patch) (node : NodeSpec)
      → (api.update_node s name patch).0 ≡ answer node
      → node.unschedulable ≡ some patch.unschedulable
  pub stored :
      (s : api.State) (name : String) (patch : Patch) (node : NodeSpec)
      → (api.update_node s name patch).0 ≡ answer node
      → api.get_node (api.update_node s name patch).1 name ≡ answer (some node)

module _ (api : NodeApi) (name : String) where
  -- In a state where the node has the value, the state reports so and does nothing.
  settled :
      (value : Bool) (s : api.State) (node : NodeSpec)
      → api.get_node s name ≡ answer (some node)
      → same (is_unschedulable node) value ≡ true
      → node_set_unschedulable api false name value s ≡ (return (already name value), s)
  unfolding node_set_unschedulable
  settled value s node found e = rw found (rw e refl)

  module _ (updates : Updates api) where
    -- The node behind an action that returned.
    record Acted (value : Bool) (after : api.State) : Type 0 where
      node : NodeSpec
      found : api.get_node after name ≡ answer (some node)
      has_value : same (is_unschedulable node) value ≡ true

    updated :
        (s : api.State) (patch : Patch) (r : Reply NodeSpec)
        → (api.update_node s name patch).0 ≡ r
        → (res : NodeSpec) → from_reply r ≡ return res
        → Acted patch.unschedulable (api.update_node s name patch).1
    updated s patch (answer node) e res done = record {
      node = node;
      found = updates.stored s name patch node e;
      has_value = rw (updates.patched s name patch node e) (same_self patch.unschedulable);
    }
      where
        same_self : (b : Bool) → same b b ≡ true
        same_self true = refl
        same_self false = refl
    updated s patch (failure text) e res done = absurd cc

    act-Acted :
        (value : Bool) (s : api.State) (res : NodeSpec)
        → (act api value name s).0 ≡ return res
        → Acted value (act api value name s).1
    unfolding act cordon_node uncordon_node
    act-Acted true s res e = elim (Bool-cases api.can_update) [
      | inl loaded ↦
          rw loaded
            (updated s (record { unschedulable = true; taints = none }) _ refl res (rw loaded at e))
      | inr missing ↦ absurd (cc (rw missing at e))
    ]
    act-Acted false s res e = elim (Bool-cases api.can_update) [
      | inr missing ↦ absurd (cc (rw missing at e))
      | inl loaded ↦ elim (Reply-cases (api.get_node s name)) [
        | inr (text, failed) ↦ absurd (cc (rw (loaded, failed) at e))
        | inl (none, found) ↦ absurd (cc (rw (loaded, found) at e))
        | inl (some node, found) ↦
            rw (loaded, found)
              (updated s (uncordon_patch node) _ refl res (rw (loaded, found) at e))
      ]
    ]

    -- a state that returned, behind its reading of the node
    acted :
        (value : Bool) (s : api.State) (node : NodeSpec) (ret : Ret)
        → api.get_node s name ≡ answer (some node)
        → (node_set_unschedulable api false name value s).0 ≡ return ret
        → Acted value (node_set_unschedulable api false name value s).1
    unfolding node_set_unschedulable
    acted value s node ret found e = elim (Bool-cases (same (is_unschedulable node) value)) [
      | inl settled_already ↦
          rw found (
            rw settled_already (record { node = node; found = found; has_value = settled_already }))
      | inr differs ↦ elim (Outcome-cases (act api value name s).0) [
        | inl (res, done) ↦ rw found (rw differs (rw done (act-Acted value s res done)))
        | inr (inl (x, raised)) ↦ absurd (cc (e, found, differs, raised))
        | inr (inr lost) ↦ absurd (cc (e, found, differs, lost))
      ]
    ]

  -- A state that returned has read the node.
  has_read :
      (value : Bool) (s : api.State) (ret : Ret)
      → (node_set_unschedulable api false name value s).0 ≡ return ret
      → (node : NodeSpec) × (api.get_node s name ≡ answer (some node))
  unfolding node_set_unschedulable
  has_read value s ret e = elim (Reply-cases (api.get_node s name)) [
    | inr (text, failed) ↦ absurd (cc (rw failed at e))
    | inl (none, found) ↦ absurd (cc (rw found at e))
    | inl (some node, found) ↦ (node, found)
  ]

-- On an API server that answers an update with the patched node and keeps it, a state that cordons or
-- uncordons a node and returned leaves the node so: the state run again reports that the node is
-- already there, with no change, and does nothing.
pub node_set_unschedulable-again :
    (api : NodeApi) (updates : Updates api) (name : String) (value : Bool) (s : api.State)
    (ret : Ret)
    → (node_set_unschedulable api false name value s).0 ≡ return ret
    → node_set_unschedulable api false name value (node_set_unschedulable api false name value s).1
      ≡ (return (already name value), (node_set_unschedulable api false name value s).1)
node_set_unschedulable-again api updates name value s ret e =
    let (node, found) = has_read api name value s ret e in
    let a = acted api name updates value s node ret found e in
    settled api name value (node_set_unschedulable api false name value s).1 a.node a.found
      a.has_value
