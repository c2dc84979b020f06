-- ===== src/Drain/Select/Choice.antt =====
-- `get_pods_for_eviction` carries out the policy: it refuses when some pod of the node blocks the
-- drain, and otherwise selects the pods that neither a mirror annotation nor a DaemonSet keeps.
use metalk8s.Prelude.{
  String, Bool, true, false, not, ◌&&◌, ◌||◌, List, [], ◌∷◌, ◌++◌, any, keep, is_empty, All,
  if◌then◌else◌, ◌≡◌, refl, sym, arith,
}
use mathlib.Core.List.{append-nil, append_assoc}
use metalk8s.Prelude.Dict.{Dict, append_at}
use metalk8s.Exec.{Outcome, return, raise, drain, answer, ◌>>=◌}
use metalk8s.Drain.{
  Pod, Options, Cluster, is_mirror, is_finished, mirrorpod_filter, localstorage_filter,
  unreplicated_filter, daemonset_filter,
}
use metalk8s.Drain.Select.{
  Scan, apply_filter, scan_pod, scan_pods, get_pods_for_eviction, message_from_pods_dict, fresh,
}
use metalk8s.Drain.Select.Policy.{
  owner, is_missing, is_missing_daemonset, is_daemonset, is_readable, has_volumes, is_local,
}

-- What a filter says of a pod: it blocks the drain, or says whether the pod may go.
abbrev Judged : Outcome (Bool × String) → Bool → Bool → Type 0
Judged (return (go, warning)) blocks may_go = (blocks ≡ false) × (go ≡ may_go)
Judged (raise (drain message)) blocks may_go = blocks ≡ true
Judged _ blocks may_go = ⊥

append_at-ne-empty {ℓ} :
    {A : Type ℓ} (key : String) (x : A) (d : Dict (List A)) → is_empty (append_at key x d) ≡ false
unfolding append_at
append_at-ne-empty key x [] = refl
append_at-ne-empty key x ((k, xs) ∷ d) = ground arith

record Noted (r : Outcome Scan) (blocks may_go : Bool) (s : Scan) : Type 0 where
  after : Scan
  returned : r ≡ return after
  failures : is_empty after.failures ≡ (is_empty s.failures && not blocks)
  deletable : blocks ≡ false → after.is_deletable ≡ (s.is_deletable && may_go)

apply_filter-Noted :
    (name : String) (r : Outcome (Bool × String)) {blocks may_go : Bool} (s : Scan)
    → Judged r blocks may_go
    → Noted (apply_filter name r s) blocks may_go s
unfolding apply_filter
apply_filter-Noted name (return (go, warning)) s (b, g) = record {
  after = _;
  returned = refl;
  failures = ground arith;
  deletable = λ h. ground arith;
}
apply_filter-Noted name (raise (drain message)) s b = record {
  after = _;
  returned = refl;
  failures = ground (arith, append_at-ne-empty message name s.failures);
  deletable = λ h. cc;
}
apply_filter-Noted name _ s h = absurd h

Noted-bind :
    {r : Outcome Scan} {b₁ k₁ : Bool} (f : Scan → Outcome Scan) (b₂ k₂ : Bool) {s : Scan}
    → Noted r b₁ k₁ s
    → ((t : Scan) → Noted (f t) b₂ k₂ t)
    → Noted (r >>= f) (b₁ || b₂) (k₁ && k₂) s
Noted-bind f b₂ k₂ n g =
    let m = g n.after in
    record {
      after = m.after;
      returned = rw n.returned m.returned;
      failures = ground (arith, m.failures, n.failures);
      deletable = λ h. ground (arith, m.deletable, n.deletable);
    }

module _ (api : Cluster) (o : Options) (w : api.State) (pod : Pod) where
  abbrev pub blocks : Bool
  blocks =
      (is_local pod && not o.delete_local_data)
      || ((not (is_finished pod) && is_missing (owner api w pod) && not o.force)
          || ((is_missing_daemonset (owner api w pod) && not o.force)
              || (is_daemonset (owner api w pod) && not o.ignore_daemonset)))

  abbrev pub may_go : Bool
  may_go = not (is_mirror pod) && not (is_daemonset (owner api w pod))

  mirrorpod_filter-Judged : Judged (mirrorpod_filter pod) false (not (is_mirror pod))
  unfolding mirrorpod_filter
  mirrorpod_filter-Judged = (refl, refl)

  localstorage_filter-Judged :
      has_volumes pod ≡ true
      → Judged (localstorage_filter o pod) (is_local pod && not o.delete_local_data) true
  unfolding localstorage_filter
  localstorage_filter-Judged h = ground arith

  unreplicated_filter-Judged :
      is_readable (owner api w pod) ≡ true
      → Judged
          (unreplicated_filter api o w pod)
          (not (is_finished pod) && is_missing (owner api w pod) && not o.force)
          true
  unfolding unreplicated_filter
  unreplicated_filter-Judged h = ground arith

  daemonset_filter-Judged :
      is_readable (owner api w pod) ≡ true
      → Judged
          (daemonset_filter api o w pod)
          ((is_missing_daemonset (owner api w pod) && not o.force)
            || (is_daemonset (owner api w pod) && not o.ignore_daemonset))
          (not (is_daemonset (owner api w pod)))
  unfolding daemonset_filter
  daemonset_filter-Judged h = ground arith

  abbrev pub Readable : Type 0
  Readable = (has_volumes pod ≡ true) × (is_readable (owner api w pod) ≡ true)

  scan_pod-Noted :
      Readable
      → (s : Scan) → Noted (scan_pod api o w pod s) blocks may_go (record s { is_deletable = true })
  unfolding scan_pod
  scan_pod-Noted (h, k) s =
      Noted-bind _ _ _
        (apply_filter-Noted pod.name (mirrorpod_filter pod) _ mirrorpod_filter-Judged)
        λ t. Noted-bind _ _ _ (apply_filter-Noted pod.name _ t (localstorage_filter-Judged h)) λ t₂.
          Noted-bind _ _ _ (apply_filter-Noted pod.name _ t₂ (unreplicated_filter-Judged k))
            λ t₃. apply_filter-Noted pod.name _ t₃ (daemonset_filter-Judged k)

module _ (api : Cluster) (o : Options) (w : api.State) where
  record Chosen (all_pods : List Pod) (s : Scan) (pods : List Pod) : Type 0 where
    after : Scan
    chosen : List Pod
    returned : scan_pods api o w all_pods s pods ≡ return (after, chosen)
    failures :
        is_empty after.failures ≡ (is_empty s.failures && not (any (blocks api o w) all_pods))
    selected :
        any (blocks api o w) all_pods ≡ false → chosen ≡ pods ++ keep (may_go api o w) all_pods

  scan_pods-Chosen :
      (all_pods : List Pod) (s : Scan) (pods : List Pod)
      → All (Readable api o w) all_pods
      → Chosen all_pods s pods
  unfolding scan_pods
  scan_pods-Chosen [] s pods h = record {
    after = s;
    chosen = pods;
    returned = refl;
    failures = ground arith;
    selected = λ e. sym (append-nil pods);
  }
  scan_pods-Chosen (pod ∷ rest) s pods (h, hs) =
      let n = scan_pod-Noted api o w pod h s in
      let c =
        scan_pods-Chosen rest n.after (if n.after.is_deletable then pods ++ pod ∷ [] else pods)
          hs in
      record {
        after = c.after;
        chosen = c.chosen;
        returned = rw n.returned c.returned;
        failures = ground (arith, c.failures, n.failures);
        selected = λ e. ground (
          arith,
          c.selected,
          n.deletable,
          append_assoc pods (pod ∷ []) (keep (may_go api o w) rest),
        );
      }

  module _ (all_pods : List Pod) (listed : api.list_pods w o.node_name ≡ answer all_pods)
      (readable : All (Readable api o w) all_pods) where
    -- When the pods of the node and their controllers can be read and some pod blocks the drain,
    -- the selection raises a DrainException.
    pub get_pods_for_eviction_refuses :
        any (blocks api o w) all_pods ≡ true
        → (message : String) × (get_pods_for_eviction api o w ≡ raise (drain message))
    unfolding get_pods_for_eviction
    get_pods_for_eviction_refuses e =
        let c = scan_pods-Chosen all_pods fresh [] readable in
        (
          message_from_pods_dict c.after.failures,
          rw (listed, c.returned) (ground (arith, c.failures)),
        )

    -- When the pods of the node and their controllers can be read and no pod blocks the drain, the
    -- pods to evict are, in the order of the listing, exactly those that carry no mirror
    -- annotation and belong to no DaemonSet that exists, whether they name a controller or not and
    -- whatever the option `force` is.
    pub get_pods_for_eviction_selects :
        any (blocks api o w) all_pods ≡ false
        → get_pods_for_eviction api o w ≡ return (keep (may_go api o w) all_pods)
    unfolding get_pods_for_eviction
    get_pods_for_eviction_selects e =
        let c = scan_pods-Chosen all_pods fresh [] readable in
        rw (listed, c.returned) (ground (arith, c.failures, c.selected))
