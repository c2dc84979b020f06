-- ===== src/Drain/Evict/Ends.antt =====
-- The loops of the eviction end: with fuel above the timeout they never run out of it.
use metalk8s.Prelude.{
  ℕ, zero, suc, ◌+◌, ◌-◌, ◌*◌, ◌≤◌, ◌<◌, Option, none, some, List, [], ◌∷◌, ◌≡◌, refl, subst, ltb,
  arith, Bool-cases, inl, inr,
}
use metalk8s.Action.{Action, ◌>>=◌}
use metalk8s.Action.Rules.{Reply-cases, Post, Post-bind}
use metalk8s.Drain.{Pod, Options, Cluster, second}
use metalk8s.Drain.Evict.{
  Session, start_timer, check_timer, pause, tick, evict_each, pending_pods, unless_done,
  wait_for_eviction, evict_pods,
}
use metalk8s.Drain.Evict.Timed.{Clock, Timed, Timed-later, check_timer-Post, evict_each-Post}

module _ (api : Cluster) (clock : Clock api) (o : Options) where
  pause-Timed :
      (t interval : ℕ) (last : Option ℕ) (s : Session api)
      → Timed api clock o t s
      → Timed api clock o t (pause api interval last s)
  unfolding pause
  pause-Timed t interval none s h = h
  pause-Timed t interval (some last) s h =
      let remaining = interval + last - api.time s.world in
      elim (Bool-cases (ltb 0 remaining)) [
        | inl e ↦ rw e (
            Timed-later api clock o (api.sleep s.world remaining) s.requests
              (omega (arith, clock.after_sleep s.world remaining)) h)
        | inr e ↦ rw e h
      ]

  -- From one tick to the next at least the interval passes.
  abbrev Spaced : ℕ → Option ℕ → ℕ → Type 0
  Spaced interval none now = Unit
  Spaced interval (some last) now = last + interval ≤ now

  pause-Spaced :
      (interval : ℕ) (last : Option ℕ) (s : Session api)
      → Spaced interval last (api.time (pause api interval last s).world)
  unfolding pause
  pause-Spaced interval none s = tt
  pause-Spaced interval (some last) s =
      ground (arith, clock.after_sleep s.world (interval + last - api.time s.world))

  -- The state behind a tick that started in `s`.
  abbrev Resumed : ℕ → Session api → Session api → Type 0
  Resumed t s s' =
      Timed api clock o t s'
      × (s'.tick ≡ some (api.time s'.world))
      × Spaced second s.tick (api.time s'.world)

  tick-Post :
      (t : ℕ) (s : Session api)
      → Timed api clock o t s
      → Post ⊥ (λ _. Resumed t s) (tick api second s)
  unfolding tick
  tick-Post t s h =
      let p = pause-Timed t second s.tick s h in
      (
        record { started = p.started; forward = p.forward; ticked = omega arith },
        refl,
        pause-Spaced second s.tick s,
      )

  pending_pods-Post :
      (s : Session api) (pods : List Pod) → Post ⊥ (λ _ s'. s' ≡ s) (pending_pods api pods s)
  unfolding pending_pods
  pending_pods-Post s [] = refl
  pending_pods-Post s (pod ∷ pods) =
      elim (Reply-cases (api.get_object s.world "Pod" "v1" pod.name pod.namespace)) [
        | inl (found, e) ↦ rw e (
            Post-bind ⊥ (λ _ s'. s' ≡ s) _ (pending_pods api pods) _ s (pending_pods-Post s pods)
              (λ _ s' same. same))
        | inr (text, e) ↦ rw e tt
      ]

  abbrev Again : ℕ → Session api → (List Pod → Action (Session api) Unit) → Type 0
  Again t s again =
      (pods : List Pod) (s' : Session api)
      → Timed api clock o t s'
      → s'.tick ≡ some (api.time s'.world)
      → Spaced second s.tick (api.time s'.world)
      → api.time s.world ≤ t + o.timeout * second
      → Post ⊥ (λ _ _. Unit) (again pods s')

  unless_done-Post :
      (t : ℕ) (s : Session api) (again : List Pod → Action (Session api) Unit)
      → Again t s again
      → (s' : Session api) → Timed api clock o t s'
      → s'.tick ≡ some (api.time s'.world)
      → Spaced second s.tick (api.time s'.world)
      → api.time s.world ≤ t + o.timeout * second
      → (pending : List Pod) → Post ⊥ (λ _ _. Unit) (unless_done api again pending s')
  unless_done-Post t s again k s' h e sp le [] = tt
  unless_done-Post t s again k s' h e sp le (pod ∷ rest) = k (pod ∷ rest) s' h e sp le

  wait_step :
      (t fuel : ℕ) (s : Session api) (pods : List Pod)
      → Timed api clock o t s
      → Again t s (wait_for_eviction api o fuel)
      → Post ⊥ (λ _ _. Unit) (wait_for_eviction api o (suc fuel) pods s)
  unfolding wait_for_eviction
  wait_step t fuel s pods h k =
      Post-bind ⊥ _ (λ _ _. Unit) (check_timer api o) _ s (check_timer-Post api clock o t s h)
        λ _ s₁ (same, le). rw same (
          Post-bind ⊥ (λ _. Resumed t s) (λ _ _. Unit) (tick api second)
            (λ _. pending_pods api pods >>= unless_done api (wait_for_eviction api o fuel)) s
            (tick-Post t s h)
            λ _ s₂ (h₂, e, sp).
              Post-bind ⊥ (λ _ s'. s' ≡ s₂) (λ _ _. Unit) (pending_pods api pods)
                (unless_done api (wait_for_eviction api o fuel)) s₂ (pending_pods-Post s₂ pods)
                (λ pending s₃ same₃. rw same₃ (unless_done-Post t s _ k s₂ h₂ e sp le pending)))

  wait_for_eviction-Post :
      (t fuel last : ℕ) (s : Session api) (pods : List Pod)
      → Timed api clock o t s
      → s.tick ≡ some last
      → last ≤ api.time s.world
      → t + o.timeout * second < last + 1000000 * fuel
      → Post ⊥ (λ _ _. Unit) (wait_for_eviction api o (suc fuel) pods s)
  wait_for_eviction-Post t zero last s pods h e le enough =
      wait_step t zero s pods h (λ pods' s' h' e' sp in_time. absurd (omega arith))
  wait_for_eviction-Post t (suc fuel) last s pods h e le enough =
      wait_step t (suc fuel) s pods h λ pods' s' h' e' sp in_time.
        let spaced : last + second ≤ api.time s'.world =
          subst (λ (x : Option ℕ). Spaced second x (api.time s'.world)) e sp in
        wait_for_eviction-Post t fuel (api.time s'.world) s' pods' h' e' (omega arith) (omega arith)

  -- With fuel above the timeout the eviction returns or raises.
  pub evict_pods-Post :
      (fuel : ℕ) (s : Session api) (pods : List Pod)
      → s.tick ≡ none
      → o.timeout * second < 1000000 * fuel
      → Post ⊥ (λ _ _. Unit) (evict_pods api o (suc (suc fuel)) pods s)
  unfolding evict_pods start_timer
  evict_pods-Post fuel s pods fresh enough =
      let t = api.time s.world in
      let s₁ : Session api = record s { start = t } in
      let h : Timed api clock o t s₁ = record {
        started = refl;
        forward = omega arith;
        ticked = rw fresh tt;
      } in
      Post-bind ⊥ (λ _. Timed api clock o t) (λ _ _. Unit) (evict_each api o (suc (suc fuel)) pods)
        (λ _. wait_for_eviction api o (suc (suc fuel)) pods) s₁
        (evict_each-Post api clock o t (suc fuel) s₁ pods h (omega arith))
        (λ _ s₂ h₂. wait_step t (suc fuel) s₂ pods h₂ λ pods' s' h' e sp in_time.
          wait_for_eviction-Post t fuel (api.time s'.world) s' pods' h' e (omega arith)
            (omega (arith, h'.forward)))
