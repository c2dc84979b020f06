-- ===== src/Drain/Evict/Requests.antt =====
-- Which evictions the loops ask for.
use metalk8s.Prelude.{
  ℕ, zero, suc, String, Bool, true, false, List, [], ◌∷◌, All, All-append, ltb, arith, Bool-cases,
  inl, inr, ◌*◌, ◌-◌, none, some,
}
use metalk8s.Action.{Action}
use metalk8s.Action.Rules.{Keeps, keeps_rules, Keeps-bind}
use metalk8s.Drain.{
  Pod, Options, Cluster, Created, created, api_exception, http_error, not_sent, second,
}
use metalk8s.Drain.Evict.{
  Session, asked, evict_pod, sleep, start_timer, check_timer, pause, tick, unless_evicted,
  evict_until, evict_each, pending_pods, unless_done, wait_for_eviction, evict_pods,
}

module _ (api : Cluster) (o : Options) (R : String × String → Type 0) where
  abbrev pub Asked : Session api → Type 0
  Asked s = All R s.requests

  abbrev pub Allows : Pod → Type 0
  Allows pod = R (pod.name, pod.namespace)

  evict_pod-Asked :
      (pod : Pod) → Allows pod → Keeps Asked (evict_pod api pod.name pod.namespace o.grace_period)
  unfolding evict_pod
  evict_pod-Asked pod r = record {
    at = λ s h. All-append R s.requests _ h (asked_allowed (api.create_eviction s.world _ _ _).0);
  }
    where
      asked_allowed : (answer : Created) → All R (asked pod.name pod.namespace answer)
      asked_allowed created = (r, tt)
      asked_allowed (http_error text) = (r, tt)
      asked_allowed (api_exception status text unread) = (r, tt)
      asked_allowed (not_sent x) = tt

  sleep-Asked : (d : ℕ) → Keeps Asked (sleep api d)
  unfolding sleep
  sleep-Asked d = record { at = λ s h. h }

  start_timer-Asked : Keeps Asked (start_timer api)
  unfolding start_timer
  start_timer-Asked = record { at = λ s h. h }

  check_timer-Asked : Keeps Asked (check_timer api o)
  unfolding check_timer
  check_timer-Asked = record {
    at = λ s h. elim (Bool-cases (ltb (o.timeout * second) (api.time s.world - s.start))) [
      | inl e ↦ rw e h
      | inr e ↦ rw e h
    ];
  }

  pause-Asked :
      (interval : ℕ) (last : _) (s : Session api) → Asked s → Asked (pause api interval last s)
  unfolding pause
  pause-Asked interval none s h = h
  pause-Asked interval (some last) s h = ground arith

  tick-Asked : (d : ℕ) → Keeps Asked (tick api d)
  unfolding tick
  tick-Asked d = record { at = λ s h. pause-Asked d s.tick s h }

  ruleset asked_rules =
      (keeps_rules, evict_pod-Asked, sleep-Asked, start_timer-Asked, check_timer-Asked, tick-Asked)

  unless_evicted-Asked :
      (again : Action (Session api) Unit)
      → Keeps Asked again
      → (done : Bool) → Keeps Asked (unless_evicted api again done)
  unless_evicted-Asked again k true = search asked_rules
  unless_evicted-Asked again k false = Keeps-bind _ _ (sleep-Asked _) (λ _. k)

  evict_until-Asked : (fuel : ℕ) (pod : Pod) → Allows pod → Keeps Asked (evict_until api o fuel pod)
  unfolding evict_until
  evict_until-Asked zero pod r = search asked_rules
  evict_until-Asked (suc fuel) pod r = Keeps-bind _ _ check_timer-Asked λ _.
      Keeps-bind _ _ (evict_pod-Asked pod r) (unless_evicted-Asked _ (evict_until-Asked fuel pod r))

  evict_each-Asked :
      (fuel : ℕ) (pods : List Pod) → All Allows pods → Keeps Asked (evict_each api o fuel pods)
  unfolding evict_each
  evict_each-Asked fuel [] r = search asked_rules
  evict_each-Asked fuel (pod ∷ pods) (r, rs) =
      Keeps-bind _ _ (evict_until-Asked fuel pod r) (λ _. evict_each-Asked fuel pods rs)

  pending_pods-Asked : (pods : List Pod) → Keeps Asked (pending_pods api pods)
  unfolding pending_pods
  pending_pods-Asked [] = search asked_rules
  pending_pods-Asked (pod ∷ pods) =
      Keeps-bind _ _ (search asked_rules)
        λ response. Keeps-bind _ _ (pending_pods-Asked pods) (λ pending. search asked_rules)

  unless_done-Asked :
      (again : List Pod → Action (Session api) Unit)
      → ((pods : List Pod) → Keeps Asked (again pods))
      → (pending : List Pod) → Keeps Asked (unless_done api again pending)
  unless_done-Asked again k [] = search asked_rules
  unless_done-Asked again k (pod ∷ rest) = k (pod ∷ rest)

  wait_for_eviction-Asked :
      (fuel : ℕ) (pods : List Pod) → Keeps Asked (wait_for_eviction api o fuel pods)
  unfolding wait_for_eviction
  wait_for_eviction-Asked zero pods = search asked_rules
  wait_for_eviction-Asked (suc fuel) pods = Keeps-bind _ _ check_timer-Asked λ _.
      Keeps-bind _ _ (tick-Asked second) λ _.
        Keeps-bind _ _ (pending_pods-Asked pods)
          (unless_done-Asked _ (wait_for_eviction-Asked fuel))

  -- Every eviction that the loops ask for is one of a pod that was given to them.
  pub evict_pods-Asked :
      (fuel : ℕ) (pods : List Pod) → All Allows pods → Keeps Asked (evict_pods api o fuel pods)
  unfolding evict_pods
  evict_pods-Asked fuel pods r =
      Keeps-bind _ _ start_timer-Asked
        λ _. Keeps-bind _ _ (evict_each-Asked fuel pods r) (λ _. wait_for_eviction-Asked fuel pods)
