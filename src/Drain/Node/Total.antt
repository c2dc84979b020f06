-- ===== src/Drain/Node/Total.antt =====
-- `node_drain` ends: its loops stop at the latest when the timeout has passed.
use metalk8s.Prelude.{
  ℕ, suc, ◌<◌, String, Bool, true, false, none, List, ◌≡◌, ◌≢◌, refl, subst, arith,
}
use metalk8s.Exec.{Exn, Outcome, unfinished, command, drain_timeout}
use metalk8s.Action.Rules.{Post, Post-bind, Post-finished, Post-try_else}
use metalk8s.Drain.{ℤ, Pod, Options, Cluster, init, timeout_or_max}
use metalk8s.Drain.Select.Ends.{get_pods_for_eviction-ne-unfinished, from_reply-ne-unfinished}
use metalk8s.Drain.Evict.{Session, evict_pods}
use metalk8s.Drain.Evict.Timed.{Clock}
use metalk8s.Drain.Evict.Ends.{evict_pods-Post}
use metalk8s.Drain.Node.{
  select, list_remaining, report, evict_selected, run_drain, cordon_node, fresh, node_drain_with,
  node_drain,
}

module _ (api : Cluster) (clock : Clock api) (o : Options) where
  abbrev Ends : {A : Type 0} → Outcome A × Session api → Type 0
  Ends = Post ⊥ (λ _ _. Unit)

  select-Post : (s : Session api) → Ends (select api o s)
  unfolding select
  select-Post s =
      Post-finished ⊥ _ _ s (get_pods_for_eviction-ne-unfinished api o s.world) (λ _. tt)

  list_remaining-Post : (message : String) (s : Session api) → Ends (list_remaining api o message s)
  list_remaining-Post message s =
      Post-bind ⊥ (λ _ _. Unit) (λ _ _. Unit) (select api o) _ s (select-Post s) (λ _ _ _. tt)

  report-Post : (e : Exn) (s : Session api) → Ends (report api o e s)
  unfolding report
  report-Post (drain_timeout message) s = list_remaining-Post message s
  report-Post (command message info) s = list_remaining-Post message s
  report-Post e s = tt

  module _ (fuel : ℕ) (enough : o.timeout < fuel) where
    evict_selected-Post :
        (dry_run : Bool) (pods : List Pod) (s : Session api)
        → s.tick ≡ none
        → Ends (evict_selected api o (suc (suc fuel)) dry_run pods s)
    unfolding evict_selected
    evict_selected-Post true pods s fresh_tick = tt
    evict_selected-Post false pods s fresh_tick =
        Post-try_else ⊥ (λ _ _. Unit) (λ _ _. Unit) (evict_pods api o (suc (suc fuel)) pods)
          (report api o) _ s (evict_pods-Post api clock o fuel s pods fresh_tick (omega arith))
          (λ e. report-Post e _) (λ _ _. tt)

    run_drain-Post :
        (dry_run : Bool) (s : Session api)
        → s.tick ≡ none
        → Ends (run_drain api o (suc (suc fuel)) dry_run s)
    unfolding run_drain
    run_drain-Post dry_run s fresh_tick =
        Post-try_else ⊥ (λ _ _. Unit) (λ _ _. Unit) (select api o) _
          (evict_selected api o (suc (suc fuel)) dry_run) s (select-Post s) (λ e. tt)
          (λ pods _. evict_selected-Post dry_run pods s fresh_tick)

    cordon_node-Post : (s : Session api) → Post ⊥ (λ _ s'. s'.tick ≡ s.tick) (cordon_node api o s)
    unfolding cordon_node
    cordon_node-Post s =
        Post-finished ⊥ (λ _ s'. s'.tick ≡ s.tick) _ _
          (from_reply-ne-unfinished (api.cordon_node s.world o.node_name).0) (λ _. refl)

    node_drain_with-Post :
        (dry_run : Bool) (w : api.State)
        → Ends (node_drain_with api o (suc (suc fuel)) dry_run (fresh api o w))
    unfolding node_drain_with
    node_drain_with-Post dry_run w =
        Post-bind ⊥ (λ _ s'. s'.tick ≡ none) (λ _ _. Unit) (cordon_node api o)
          (λ _. run_drain api o (suc (suc fuel)) dry_run) (fresh api o w)
          (cordon_node-Post (fresh api o w)) (λ _ s' e. run_drain-Post dry_run s' e)

-- On a clock that no call turns back and that a sleep moves by at least its time, `node_drain` ends
-- for every cluster and all options, in at most three more rounds of each loop than the timeout has
-- seconds (2 ^ 64 - 1 for a timeout of 0): it returns or raises.
pub node_drain_ends :
    (api : Cluster) (clock : Clock api) (node_name : String) (force : Bool) (grace_period : ℤ)
    (ignore_daemonset : Bool) (timeout : ℕ) (delete_local_data dry_run : Bool) (fuel : ℕ)
    (w : api.State)
    → timeout_or_max timeout < fuel
    → (node_drain api node_name force grace_period ignore_daemonset timeout delete_local_data
        dry_run
        (suc (suc fuel))
        w).0
      ≢ unfinished
unfolding node_drain init
node_drain_ends api clock name force grace ignore timeout local dry_run fuel w enough e =
    let o = init name force grace ignore timeout local in
    let s = (node_drain_with api o (suc (suc fuel)) dry_run (fresh api o w)).1 in
    subst (λ r. Post ⊥ (λ _ _. Unit) (r, s)) e
      (node_drain_with-Post api clock o fuel enough dry_run w)
