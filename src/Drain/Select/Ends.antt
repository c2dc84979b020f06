-- ===== src/Drain/Select/Ends.antt =====
-- The selection of the pods ends: it has no loop but those over lists.
use metalk8s.Prelude.{String, Bool, List, [], ◌∷◌, ◌≢◌, refl, arith}
use metalk8s.Exec.{Outcome, return, raise, unfinished, Reply, answer, failure, ◌>>=◌}
use metalk8s.Action.{from_reply}
use metalk8s.Drain.{
  Pod, Options, Cluster, mirrorpod_filter, localstorage_filter, unreplicated_filter,
  daemonset_filter,
}
use metalk8s.Drain.Select.{
  Scan, apply_filter, scan_pod, scan_pods, get_pods_for_eviction, conclude, fresh,
}

>>=-ne-unfinished :
    {A B : Type 0} (m : Outcome A) (f : A → Outcome B)
    → m ≢ unfinished
    → ((a : A) → f a ≢ unfinished)
    → (m >>= f) ≢ unfinished
>>=-ne-unfinished (return a) f h k = k a
>>=-ne-unfinished (raise e) f h k = λ x. cc
>>=-ne-unfinished unfinished f h k = absurd (h refl)

apply_filter-ne-unfinished :
    (name : String) (r : Outcome (Bool × String)) (s : Scan)
    → r ≢ unfinished
    → apply_filter name r s ≢ unfinished
unfolding apply_filter
apply_filter-ne-unfinished name r s h e = ground arith

pub from_reply-ne-unfinished : {A : Type 0} (r : Reply A) → from_reply r ≢ unfinished
from_reply-ne-unfinished (answer a) e = cc
from_reply-ne-unfinished (failure text) e = cc

conclude-ne-unfinished : (s : Scan) (pods : List Pod) → conclude (s, pods) ≢ unfinished
conclude-ne-unfinished s pods e = ground arith

module _ (api : Cluster) (o : Options) (w : api.State) where
  filters-ne-unfinished :
      (pod : Pod)
      → (mirrorpod_filter pod ≢ unfinished)
        × (localstorage_filter o pod ≢ unfinished)
        × (unreplicated_filter api o w pod ≢ unfinished)
        × (daemonset_filter api o w pod ≢ unfinished)
  unfolding mirrorpod_filter localstorage_filter unreplicated_filter daemonset_filter
  filters-ne-unfinished pod =
      ((λ e. cc), (λ e. ground arith), (λ e. ground arith), (λ e. ground arith))

  scan_pod-ne-unfinished : (pod : Pod) (s : Scan) → scan_pod api o w pod s ≢ unfinished
  unfolding scan_pod
  scan_pod-ne-unfinished pod s =
      let (mirror, local, unreplicated, daemonset) = filters-ne-unfinished pod in
      >>=-ne-unfinished _ _ (apply_filter-ne-unfinished pod.name _ _ mirror) λ s₁.
        >>=-ne-unfinished _ _ (apply_filter-ne-unfinished pod.name _ s₁ local) λ s₂.
          >>=-ne-unfinished _ _ (apply_filter-ne-unfinished pod.name _ s₂ unreplicated)
            λ s₃. apply_filter-ne-unfinished pod.name _ s₃ daemonset

  scan_pods-ne-unfinished :
      (pods : List Pod) (s : Scan) (chosen : List Pod)
      → scan_pods api o w pods s chosen ≢ unfinished
  unfolding scan_pods
  scan_pods-ne-unfinished [] s chosen = λ e. cc
  scan_pods-ne-unfinished (pod ∷ pods) s chosen =
      >>=-ne-unfinished _ _ (scan_pod-ne-unfinished pod s) (λ s'. scan_pods-ne-unfinished pods s' _)

  pub get_pods_for_eviction-ne-unfinished : get_pods_for_eviction api o w ≢ unfinished
  unfolding get_pods_for_eviction
  get_pods_for_eviction-ne-unfinished =
      >>=-ne-unfinished _ _ (from_reply-ne-unfinished (api.list_pods w o.node_name)) λ all_pods.
        >>=-ne-unfinished _ _ (scan_pods-ne-unfinished all_pods fresh [])
          (λ (s, pods). conclude-ne-unfinished s pods)
