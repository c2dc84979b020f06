-- ===== src/Drain/Node/Safety.antt =====
-- Which evictions `node_drain` asks for, and what its success means.
use metalk8s.Prelude.{
  ℕ, String, Bool, true, false, ◌&&◌, ◌==◌, List, [], ◌∷◌, All, All-map, any, ◌≡◌, refl, arith,
  eq_refl,
}
use metalk8s.Exec.{
  Exn, Outcome, return, raise, unfinished, command, drain_timeout, Reply, answer, failure,
}
use metalk8s.Action.{from_reply, throw, resume, continue}
use metalk8s.Action.Rules.{
  Keeps, keeps_rules, Keeps-bind, Keeps-throw, Keeps-try_else, Post, Post-bind, Post-try_else,
  Post-trivial, Post-return,
}
use metalk8s.Drain.{ℤ, Pod, Options, Cluster, init}
use metalk8s.Drain.Select.{get_pods_for_eviction}
use metalk8s.Drain.Evict.{Session, evict_pods}
use metalk8s.Drain.Evict.Requests.{Asked, evict_pods-Asked}
use metalk8s.Drain.Evict.Gone.{Gone, AllGone, evict_pods-AllGone}
use metalk8s.Drain.Node.{
  not_deletable, select, list_remaining, report, evict_selected, run_drain, fresh, node_drain_with,
  node_drain,
}

-- The request names one of the pods.
abbrev pub named : List Pod → String × String → Bool
named pods (name, namespace) = any (λ pod. pod.name == name && pod.namespace == namespace) pods

-- What may be asked for: only pods of the selection, and nothing in a dry run, when the node could
-- not be cordoned, or when the selection raised.
abbrev pub Allowed : Bool → Reply (Unit {0}) → Outcome (List Pod) → String × String → Type 0
Allowed false (answer _) (return pods) request = named pods request ≡ true
Allowed _ _ _ request = ⊥

named-more :
    (p : Pod) (pods : List Pod) (q : Pod)
    → named pods (q.name, q.namespace) ≡ true
    → named (p ∷ pods) (q.name, q.namespace) ≡ true
named-more p pods q h = ground arith

named_self : (p : Pod) (pods : List Pod) → named (p ∷ pods) (p.name, p.namespace) ≡ true
named_self p pods = ground (arith, eq_refl p.name, eq_refl p.namespace)

All-named : (pods : List Pod) → All (λ p. named pods (p.name, p.namespace) ≡ true) pods
All-named [] = tt
All-named (p ∷ pods) = (named_self p pods, All-map (named-more p pods) pods (All-named pods))

-- Success of a real drain: the pods of the selection are gone.
abbrev pub Drained : (api : Cluster) → Outcome (List Pod) → Session api → Type 0
Drained api (return pods) s = All (λ pod. Gone api pod s.world) pods
Drained api _ s = Unit

module _ (api : Cluster) (o : Options) where
  module _ (R : String × String → Type 0) where
    select-Asked : Keeps (Asked api o R) (select api o)
    unfolding select
    select-Asked = search keeps_rules

    report-Asked : (e : Exn) → Keeps (Asked api o R) (report api o e)
    unfolding report
    report-Asked (drain_timeout message) =
        Keeps-bind (select api o) _ (search keeps_rules) (λ pods. Keeps-throw _)
    report-Asked (command message info) =
        Keeps-bind (select api o) _ (search keeps_rules) (λ pods. Keeps-throw _)
    report-Asked e = search keeps_rules

    evict_selected-Asked :
        (fuel : ℕ) (pods : List Pod)
        → All (λ p. R (p.name, p.namespace)) pods
        → Keeps (Asked api o R) (evict_selected api o fuel false pods)
    unfolding evict_selected
    evict_selected-Asked fuel pods r =
        Keeps-try_else (evict_pods api o fuel pods) (report api o) _
          (evict_pods-Asked api o R fuel pods r) report-Asked (λ _. search keeps_rules)

  module _ (fuel : ℕ) where
    after_selection :
        (dry_run : Bool) (selection : Outcome (List Pod)) (s : Session api)
        → s.requests ≡ []
        → All
            (Allowed dry_run (answer tt) selection)
            (resume selection
              (λ e. throw (not_deletable e))
              (evict_selected api o fuel dry_run)
              s).1.requests
    unfolding evict_selected
    after_selection false (return pods) s none_yet =
        (evict_selected-Asked (λ r. named pods r ≡ true) fuel pods (All-named pods)).at s
          (rw none_yet tt)
    after_selection true (return pods) s none_yet = rw none_yet tt
    after_selection dry_run (raise e) s none_yet = rw none_yet tt
    after_selection dry_run unfinished s none_yet = rw none_yet tt

    after_cordon :
        (dry_run : Bool) (reply : Reply (Unit {0})) (s : Session api)
        → s.requests ≡ []
        → All
            (Allowed dry_run reply (get_pods_for_eviction api o s.world))
            (continue (from_reply reply) (λ _. run_drain api o fuel dry_run) s).1.requests
    unfolding run_drain
    after_cordon dry_run (answer u) s none_yet =
        after_selection dry_run (get_pods_for_eviction api o s.world) s none_yet
    after_cordon dry_run (failure text) s none_yet = rw none_yet tt

    module _
        (stays : (pod : Pod) (w : api.State) (d : ℕ)
          → Gone api pod w
          → Gone api pod (api.sleep w d)) where
      listing_raises :
          (R : String → Session api → Type 0) (message : String) (s : Session api)
          → Post Unit R (list_remaining api o message s)
      listing_raises R message s =
          Post-bind Unit (λ _ _. Unit) R (select api o) _ s (Post-trivial (select api o s).0 _)
            (λ _ _ _. tt)

      report_raises :
          (R : String → Session api → Type 0) (e : Exn) (s : Session api)
          → Post Unit R (report api o e s)
      unfolding report
      report_raises R (drain_timeout message) s = listing_raises R message s
      report_raises R (command message info) s = listing_raises R message s
      report_raises R e s = tt

      selection-Drained :
          (selection : Outcome (List Pod)) (s : Session api)
          → Post Unit
              (λ _. Drained api selection)
              (resume selection (λ e. throw (not_deletable e)) (evict_selected api o fuel false) s)
      unfolding evict_selected
      selection-Drained (return pods) s =
          Post-try_else Unit (λ _. AllGone api o stays pods) (λ _. Drained api (return pods))
            (evict_pods api o fuel pods) (report api o) _ s
            (evict_pods-AllGone api o stays fuel pods s) (λ e. report_raises _ e _) (λ _ gone. gone)
      selection-Drained (raise e) s = tt
      selection-Drained unfinished s = tt

      cordon-Drained :
          (reply : Reply (Unit {0})) (s : Session api)
          → Post Unit
              (λ _. Drained api (get_pods_for_eviction api o s.world))
              (continue (from_reply reply) (λ _. run_drain api o fuel false) s)
      unfolding run_drain
      cordon-Drained (answer u) s = selection-Drained (get_pods_for_eviction api o s.world) s
      cordon-Drained (failure text) s = tt

-- Whatever the cluster does, `node_drain` asks only for evictions of pods that the selection gives
-- on the node once it is cordoned. In a dry run, when the cordon failed, or when the selection
-- raised, it asks for none.
pub node_drain-Allowed :
    (api : Cluster) (node_name : String) (force : Bool) (grace_period : ℤ) (ignore_daemonset : Bool)
    (timeout : ℕ) (delete_local_data dry_run : Bool) (fuel : ℕ) (w : api.State)
    → All
        (Allowed dry_run (api.cordon_node w node_name).0 (
          get_pods_for_eviction api
            (init node_name force grace_period ignore_daemonset timeout delete_local_data)
            (api.cordon_node w node_name).1))
        (node_drain api node_name force grace_period ignore_daemonset timeout delete_local_data
          dry_run fuel w).1.requests
unfolding node_drain init
node_drain-Allowed api name force grace ignore timeout local dry_run fuel w =
    let o = init name force grace ignore timeout local in
    let (reply, cordoned) = api.cordon_node w name in
    after_cordon api o fuel dry_run reply (record (fresh api o w) { world = cordoned }) refl

-- If the absence of a pod lasts while the drain sleeps, then after a `node_drain` that is no dry run
-- and returns, every pod that the selection gave on the cordoned node is gone: the cluster has no
-- pod of its name, or one with another uid.
pub node_drain_returned-Drained :
    (api : Cluster)
    (stays : (pod : Pod) (w : api.State) (d : ℕ) → Gone api pod w → Gone api pod (api.sleep w d))
    (node_name : String) (force : Bool) (grace_period : ℤ) (ignore_daemonset : Bool) (timeout : ℕ)
    (delete_local_data : Bool) (fuel : ℕ) (w : api.State) {message : String}
    → (node_drain api node_name force grace_period ignore_daemonset timeout delete_local_data false
        fuel w).0
      ≡ return message
    → Drained api
        (get_pods_for_eviction api
          (init node_name force grace_period ignore_daemonset timeout delete_local_data)
          (api.cordon_node w node_name).1)
        (node_drain api node_name force grace_period ignore_daemonset timeout delete_local_data
          false fuel w).1
unfolding node_drain init
node_drain_returned-Drained api stays name force grace ignore timeout local fuel w e =
    let o = init name force grace ignore timeout local in
    let (reply, cordoned) = api.cordon_node w name in
    Post-return Unit (λ _. Drained api (get_pods_for_eviction api o cordoned))
      (node_drain_with api o fuel false) (fresh api o w)
      (cordon-Drained api o fuel stays reply (record (fresh api o w) { world = cordoned })) e
