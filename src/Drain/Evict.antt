-- ===== src/Drain/Evict.antt =====
-- salt/_modules/metalk8s_drain.py: `evict_pod`, the timers of a `Drain` object, and the two loops
-- `evict_pods` and `wait_for_eviction`.
pub mod Requests
pub mod Timed
pub mod Ends
pub mod Gone
use metalk8s.Prelude.{
  ℕ, zero, suc, ◌+◌, ◌-◌, ◌*◌, String, ◌<>◌, decimal, Bool, true, false, not, ◌||◌, Option, none,
  some, List, [], ◌∷◌, ◌++◌, ltb, nat_eq, ◌==◌, if◌then◌else◌,
}
use metalk8s.Exec.{Outcome, return, raise, Exn, command, drain_timeout, Reply}
use metalk8s.Action.{
  Action, pure, throw, out_of_fuel, lift, ask, gets, modify, from_reply, ◌>>=◌, ◌>>◌,
}
use metalk8s.Drain.{
  ℤ, pos, negsuc, Pod, Options, Cluster, Created, created, api_exception, http_error, not_sent,
  second,
}

-- The outside with the attributes `_start` and `_tick` of the `Drain` object, and a record of the
-- evictions that were asked for, by name and namespace.
pub record Session (api : Cluster) : Type 0 where
  pub world : api.State
  pub start : ℕ
  pub tick : Option ℕ
  pub requests : List (String × String)

-- `if grace_period >= 0: delete_options.grace_period = grace_period`
abbrev pub grace_option : ℤ → Option ℕ
grace_option (pos n) = some n
grace_option (negsuc n) = none

abbrev eviction_error : String → String → String → Exn
eviction_error name namespace text =
    command
      ("Failed to evict pod \"" <> name <> "\" in namespace \"" <> namespace <> "\": " <> text) []

-- the log entry of a rejected eviction, which reads the body of the answer
abbrev pub logged : Option Exn → Outcome Bool
logged none = return false
logged (some e) = raise e

-- the request of an eviction, where it was sent
abbrev pub asked : String → String → Created → List (String × String)
asked name namespace (not_sent e) = []
asked name namespace _ = (name, namespace) ∷ []

-- how `evict_pod` takes the answer to its call
unfoldable pub evicted : String → String → Created → Outcome Bool
evicted name namespace created = return true
evicted name namespace (not_sent e) = raise e
evicted name namespace (http_error text) = raise (eviction_error name namespace text)
evicted name namespace (api_exception status text unread) =
    if nat_eq status 404
    then return true
    else if nat_eq status 429
    then logged unread
    else raise (eviction_error name namespace text)

-- `not response or response['metadata']['uid'] != pod['metadata']['uid']`
abbrev pub is_gone : Pod → Option String → Bool
is_gone pod none = true
is_gone pod (some uid) = not (uid == pod.uid)

module _ (api : Cluster) where
  unfoldable pub evict_pod : String → String → ℤ → Action (Session api) Bool
  unfolding evicted
  evict_pod name namespace grace_period s =
      let (answer, world) =
        api.create_eviction s.world name namespace (grace_option grace_period) in
      (
        evicted name namespace answer,
        record s { world = world; requests = s.requests ++ asked name namespace answer },
      )

  unfoldable pub sleep : ℕ → Action (Session api) Unit
  sleep duration = modify (λ s. record s { world = api.sleep s.world duration })

  unfoldable pub start_timer : Action (Session api) Unit
  start_timer = modify (λ s. record s { start = api.time s.world })

  -- `time.time() - self._start > self.timeout`, in microseconds
  unfoldable pub check_timer : Options → Action (Session api) Unit
  check_timer o s =
      if ltb (o.timeout * second) (api.time s.world - s.start)
      then (
        raise (drain_timeout ("Drain did not complete within " <> decimal o.timeout <> " seconds")),
        s,
      )
      else (return tt, s)

  -- the wait of `tick`: `interval - (now - last)`, where it is above zero
  unfoldable pub pause : ℕ → Option ℕ → Session api → Session api
  pause interval none s = s
  pause interval (some last) s =
      let remaining = interval + last - api.time s.world in
      if ltb 0 remaining then record s { world = api.sleep s.world remaining } else s

  unfoldable pub tick : ℕ → Action (Session api) Unit
  unfolding pause
  tick interval s =
      let s' = pause interval s.tick s in (return tt, record s' { tick = some (api.time s'.world) })

  -- `if evicted: break`, and else a pause before the next round
  abbrev pub unless_evicted : Action (Session api) Unit → Bool → Action (Session api) Unit
  unless_evicted again true = pure tt
  unless_evicted again false = sleep (5 * second) >> again

  -- the `while` loop of `evict_pods` for one pod
  unfoldable pub evict_until : Options → ℕ → Pod → Action (Session api) Unit
  unfolding check_timer evict_pod sleep
  evict_until o zero pod = out_of_fuel
  evict_until o (suc fuel) pod = do
    check_timer o
    done ← evict_pod pod.name pod.namespace o.grace_period
    unless_evicted (evict_until o fuel pod) done

  unfoldable pub evict_each : Options → ℕ → List Pod → Action (Session api) Unit
  unfolding evict_until
  evict_each o fuel [] = pure tt
  evict_each o fuel (pod ∷ pods) = do evict_until o fuel pod; evict_each o fuel pods

  -- the `for` loop of `wait_for_eviction`: the pods that are still there
  unfoldable pub pending_pods : List Pod → Action (Session api) (List Pod)
  pending_pods [] = pure []
  pending_pods (pod ∷ pods) = do
    response ← ask (λ s. from_reply (api.get_object s.world "Pod" "v1" pod.name pod.namespace))
    pending ← pending_pods pods
    pure (if is_gone pod response then pending else pod ∷ pending)

  -- `if not pending: break`, and else the next round
  abbrev pub unless_done :
      (List Pod → Action (Session api) Unit) → List Pod → Action (Session api) Unit
  unless_done again [] = pure tt
  unless_done again (pod ∷ rest) = again (pod ∷ rest)

  unfoldable pub wait_for_eviction : Options → ℕ → List Pod → Action (Session api) Unit
  unfolding check_timer tick pending_pods
  wait_for_eviction o zero pods = out_of_fuel
  wait_for_eviction o (suc fuel) pods = do
    check_timer o
    tick second
    pending ← pending_pods pods
    unless_done (wait_for_eviction o fuel) pending

  unfoldable pub evict_pods : Options → ℕ → List Pod → Action (Session api) Unit
  unfolding start_timer evict_each wait_for_eviction
  evict_pods o fuel pods = do start_timer; evict_each o fuel pods; wait_for_eviction o fuel pods
