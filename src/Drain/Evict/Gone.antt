-- ===== src/Drain/Evict/Gone.antt =====
-- When the wait for the eviction returns, the pods are gone.
use mathlib.Core.List.Memᴰ
use mathlib.Core.List.{Memᴰ}
use metalk8s.Prelude.{
  ℕ, zero, suc, ◌+◌, ◌-◌, ◌*◌, String, Bool, true, false, Option, none, some, List, [], ◌∷◌, All,
  All-map, ◌≡◌, refl, sym, subst, ltb, Bool-cases, ◌⊎◌, inl, inr, if◌then◌else◌,
}
use metalk8s.Exec.{answer}
use metalk8s.Action.{Action, ◌>>=◌}
use metalk8s.Action.Rules.{
  Keeps, keeps_rules, Keeps-bind, Post, Post-bind, Post-trivial, Post-weaken,
}
use metalk8s.Drain.{Pod, Options, Cluster, second}
use metalk8s.Action.Rules.{Reply-cases}
use metalk8s.Drain.Evict.{
  Session, check_timer, pause, tick, is_gone, pending_pods, unless_done, wait_for_eviction,
  evict_each, start_timer, evict_pods,
}

-- The pod is not there, or another pod has its name.
pub record Gone (api : Cluster) (pod : Pod) (w : api.State) : Type 0 where
  pub found : Option String
  pub answered : api.get_object w "Pod" "v1" pod.name pod.namespace ≡ answer found
  pub gone : is_gone pod found ≡ true

module _ (api : Cluster) (o : Options)
    (stays : (pod : Pod) (w : api.State) (d : ℕ)
      → Gone api pod w
      → Gone api pod (api.sleep w d)) where
  abbrev pub Away : Pod → Session api → Type 0
  Away pod s = Gone api pod s.world

  check_timer-Away : (pod : Pod) → Keeps (Away pod) (check_timer api o)
  unfolding check_timer
  check_timer-Away pod = record {
    at = λ s h. elim (Bool-cases (ltb (o.timeout * second) (api.time s.world - s.start))) [
      | inl e ↦ rw e h
      | inr e ↦ rw e h
    ];
  }

  pause-Away :
      (pod : Pod) (interval : ℕ) (last : Option ℕ) (s : Session api)
      → Away pod s
      → Away pod (pause api interval last s)
  unfolding pause
  pause-Away pod interval none s h = h
  pause-Away pod interval (some last) s h =
      elim (Bool-cases (ltb 0 (interval + last - api.time s.world))) [
        | inl e ↦ rw e (stays pod s.world (interval + last - api.time s.world) h)
        | inr e ↦ rw e h
      ]

  tick-Away : (pod : Pod) → Keeps (Away pod) (tick api second)
  unfolding tick
  tick-Away pod = record { at = λ s h. pause-Away pod second s.tick s h }

  -- Each pod is gone or still pending.
  abbrev Split : List Pod → List Pod → Session api → Type 0
  Split pods pending s = All (λ pod. Away pod s ⊎ Memᴰ pod pending) pods

  Split-cons :
      (pod : Pod) (pending pods : List Pod) (s : Session api)
      → Split pods pending s
      → Split pods (pod ∷ pending) s
  Split-cons pod pending pods s h =
      All-map (λ p. elim [ inl away ↦ inl away | inr m ↦ inr (Memᴰ.tail m) ]) pods h

  Split-step :
      (pod : Pod) (found : Option String) (pending pods : List Pod) (s : Session api)
      → api.get_object s.world "Pod" "v1" pod.name pod.namespace ≡ answer found
      → (away : Bool) → is_gone pod found ≡ away
      → Split pods pending s
      → Split (pod ∷ pods) (if away then pending else pod ∷ pending) s
  Split-step pod found pending pods s e true g h =
      (inl (record { found = found; answered = e; gone = g }), h)
  Split-step pod found pending pods s e false g h =
      (inr (Memᴰ.head refl), Split-cons pod pending pods s h)

  pending_pods-Split :
      (pods : List Pod) (s : Session api)
      → Post Unit (λ pending s'. (s' ≡ s) × Split pods pending s) (pending_pods api pods s)
  unfolding pending_pods
  pending_pods-Split [] s = (refl, tt)
  pending_pods-Split (pod ∷ pods) s =
      elim (Reply-cases (api.get_object s.world "Pod" "v1" pod.name pod.namespace)) [
        | inl (found, e) ↦ rw e (
            Post-bind Unit (λ pending s'. (s' ≡ s) × Split pods pending s)
              (λ pending s'. (s' ≡ s) × Split (pod ∷ pods) pending s) (pending_pods api pods) _ s
              (pending_pods-Split pods s)
              (λ pending s' (same, split).
                (same, Split-step pod found pending pods s e (is_gone pod found) refl split)))
        | inr (text, e) ↦ rw e tt
      ]

  pending_pods-Away : (pod : Pod) (pods : List Pod) → Keeps (Away pod) (pending_pods api pods)
  unfolding pending_pods
  pending_pods-Away pod [] = search keeps_rules
  pending_pods-Away pod (p ∷ pods) =
      Keeps-bind _ _ (search keeps_rules)
        λ response. Keeps-bind _ _ (pending_pods-Away pod pods) (λ pending. search keeps_rules)

  wait_for_eviction-Away :
      (pod : Pod) (fuel : ℕ) (pods : List Pod)
      → Keeps (Away pod) (wait_for_eviction api o fuel pods)
  unfolding wait_for_eviction
  wait_for_eviction-Away pod zero pods = search keeps_rules
  wait_for_eviction-Away pod (suc fuel) pods = Keeps-bind _ _ (check_timer-Away pod) λ _.
      Keeps-bind _ _ (tick-Away pod) λ _.
        Keeps-bind _ _ (pending_pods-Away pod pods)
          (unless_done-Away (wait_for_eviction-Away pod fuel))
    where
      unless_done-Away :
          {again : List Pod → Action (Session api) Unit}
          → ((rest : List Pod) → Keeps (Away pod) (again rest))
          → (pending : List Pod) → Keeps (Away pod) (unless_done api again pending)
      unless_done-Away k [] = search keeps_rules
      unless_done-Away k (p ∷ rest) = k (p ∷ rest)

  abbrev pub AllGone : List Pod → Session api → Type 0
  AllGone pods s = All (λ pod. Away pod s) pods

  all_of_mem : (P : Pod → Type 0) (pod : Pod) (pods : List Pod) → All P pods → Memᴰ pod pods → P pod
  all_of_mem P pod [] h m = elim m [ ]
  all_of_mem P pod (p ∷ pods) (h, hs) (Memᴰ.head e) = subst P (sym e) h
  all_of_mem P pod (p ∷ pods) (h, hs) (Memᴰ.tail m) = all_of_mem P pod pods hs m

  unless_done-AllGone :
      (again : List Pod → Action (Session api) Unit)
      → ((rest : List Pod) (s : Session api) → Post Unit (λ _. AllGone rest) (again rest s))
      → ((pod : Pod) (rest : List Pod) → Keeps (Away pod) (again rest))
      → (pods pending : List Pod) (s : Session api) → Split pods pending s
      → Post Unit (λ _. AllGone pods) (unless_done api again pending s)
  unless_done-AllGone again ends keeps pods [] s split =
      All-map (λ pod. elim [ inl away ↦ away | inr m ↦ absurd (Memᴰ.not-nil m) ]) pods split
  unless_done-AllGone again ends keeps pods (p ∷ rest) s split =
      Post-weaken Unit (λ _. AllGone (p ∷ rest)) (λ _. AllGone pods) (again (p ∷ rest) s).0 _
        (λ _ gone.
          All-map
            (λ pod. elim [
              | inl away ↦ (keeps pod (p ∷ rest)).at s away
              | inr m ↦ all_of_mem (λ q. Away q (again (p ∷ rest) s).1) pod (p ∷ rest) gone m
            ])
            pods split)
        (ends (p ∷ rest) s)

  wait_for_eviction-AllGone :
      (fuel : ℕ) (pods : List Pod) (s : Session api)
      → Post Unit (λ _. AllGone pods) (wait_for_eviction api o fuel pods s)
  unfolding wait_for_eviction
  wait_for_eviction-AllGone zero pods s = tt
  wait_for_eviction-AllGone (suc fuel) pods s =
      Post-bind Unit (λ _ _. Unit) (λ _. AllGone pods) (check_timer api o) _ s
        (Post-trivial (check_timer api o s).0 _)
        λ _ s₁ _.
          Post-bind Unit (λ _ _. Unit) (λ _. AllGone pods) (tick api second)
            (λ _. pending_pods api pods >>= unless_done api (wait_for_eviction api o fuel)) s₁ tt
            λ _ s₂ _.
              Post-bind Unit (λ pending s'. (s' ≡ s₂) × Split pods pending s₂) (λ _. AllGone pods)
                (pending_pods api pods) (unless_done api (wait_for_eviction api o fuel)) s₂
                (pending_pods-Split pods s₂)
                (λ pending s₃ (same, split). rw same (
                  unless_done-AllGone (wait_for_eviction api o fuel)
                    (wait_for_eviction-AllGone fuel) (λ pod. wait_for_eviction-Away pod fuel) pods
                    pending s₂ split))

  -- When the eviction returns, every pod that it was given is gone.
  pub evict_pods-AllGone :
      (fuel : ℕ) (pods : List Pod) (s : Session api)
      → Post Unit (λ _. AllGone pods) (evict_pods api o fuel pods s)
  unfolding evict_pods
  evict_pods-AllGone fuel pods s =
      Post-bind Unit (λ _ _. Unit) (λ _. AllGone pods) (evict_each api o fuel pods)
        (λ _. wait_for_eviction api o fuel pods) (start_timer api s).1
        (Post-trivial (evict_each api o fuel pods (start_timer api s).1).0 _)
        (λ _ s' _. wait_for_eviction-AllGone fuel pods s')
