-- ===== src/Cordon/Taints.antt =====
-- The patch of `uncordon_node` takes the taint of a cordoned node away and leaves the others.
use metalk8s.Prelude.{
  String, true, false, not, Option, none, some, List, [], ◌∷◌, any, keep, ◌==◌, ◌≡◌, refl, arith,
  Bool-cases, inl, inr,
}
use metalk8s.Exec.{answer}
use metalk8s.Action.{from_reply}
use metalk8s.Cordon.{
  Taint, NodeSpec, Patch, NodeApi, key_to_remove, taints_of, uncordon_patch, uncordon_node,
}

-- The taints of a node once the patch is applied: a list in a patch replaces the list.
abbrev pub patched : Option (List Taint) → List Taint → List Taint
patched none taints = taints
patched (some taints) old = taints

keep-others :
    (taints : List Taint)
    → any (λ taint. taint.key == key_to_remove) taints ≡ false
    → taints ≡ keep (λ taint. not (taint.key == key_to_remove)) taints
keep-others [] e = refl
keep-others (taint ∷ taints) e = ground (arith, e, keep-others taints)

-- For a node that is found, with `update_object` loaded, `uncordon_node` is one update with a patch
-- that makes the node schedulable and whose taints are those of the node without the ones that
-- cordoning adds, in their order.
pub uncordon_node-patched :
    (api : NodeApi) (s : api.State) (name : String) (node : NodeSpec)
    → api.can_update ≡ true
    → api.get_node s name ≡ answer (some node)
    → (patch : Patch) × (uncordon_node api name s
        ≡ (from_reply (api.update_node s name patch).0, (api.update_node s name patch).1))
      × (patch.unschedulable ≡ false)
      × (patched patch.taints (taints_of node)
          ≡ keep (λ taint. not (taint.key == key_to_remove)) (taints_of node))
unfolding uncordon_node
uncordon_node-patched api s name node loaded found = (
  uncordon_patch node,
  rw (loaded, found) refl,
  refl,
  elim (Bool-cases (any (λ taint. taint.key == key_to_remove) (taints_of node))) [
    | inl tainted ↦ rw tainted refl
    | inr clean ↦ rw clean (keep-others (taints_of node) clean)
  ],
)
