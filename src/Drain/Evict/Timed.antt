-- ===== src/Drain/Evict/Timed.antt =====
-- The state of the timers during an eviction, and the loop of `evict_pods`: with fuel for the timeout
-- it does not run out of it.
use metalk8s.Prelude.{
  ℕ, zero, suc, ◌+◌, ◌-◌, ◌*◌, ◌≤◌, ◌<◌, Bool, true, false, Option, none, some, List, [], ◌∷◌, ◌≡◌,
  ◌≢◌, refl, ltb, arith, Bool-cases, inl, inr,
}
use metalk8s.Exec.{unfinished}
use metalk8s.Action.{Action}
use metalk8s.Action.Rules.{Post, Post-bind, Post-finished}
use metalk8s.Drain.{
  Pod, Options, Cluster, Created, created, api_exception, http_error, not_sent, second,
}
use metalk8s.Drain.Evict.{
  Session, grace_option, evicted, evict_pod, sleep, check_timer, unless_evicted, evict_until,
  evict_each,
}

-- What the code relies on of the clock: a sleep takes at least its time, and no call turns the
-- clock back.
pub record Clock (api : Cluster) : Type 0 where
  pub after_sleep : (w : api.State) (d : ℕ) → api.time w + d ≤ api.time (api.sleep w d)
  pub after_eviction :
      (w : api.State) (name namespace : _) (grace : _)
      → api.time w ≤ api.time (api.create_eviction w name namespace grace).1
  pub after_cordon : (w : api.State) (name : _) → api.time w ≤ api.time (api.cordon_node w name).1

abbrev pub Bounded : Option ℕ → ℕ → Type 0
Bounded none now = Unit
Bounded (some last) now = last ≤ now

Bounded-later :
    {now later : ℕ} (last : Option ℕ) → now ≤ later → Bounded last now → Bounded last later
Bounded-later none le h = tt
Bounded-later (some last) le h = omega arith

evicted-ne-unfinished :
    (name namespace : _) (answer : Created) → evicted name namespace answer ≢ unfinished
unfolding evicted
evicted-ne-unfinished name namespace created e = cc
evicted-ne-unfinished name namespace (http_error text) e = cc
evicted-ne-unfinished name namespace (not_sent x) e = cc
evicted-ne-unfinished name namespace (api_exception status text unread) e = ground arith

module _ (api : Cluster) (clock : Clock api) (o : Options) where
  -- The timer was started at `t`, and no reading of the clock lies in the future.
  pub record Timed (t : ℕ) (s : Session api) : Type 0 where
    pub started : s.start ≡ t
    pub forward : t ≤ api.time s.world
    pub ticked : Bounded s.tick (api.time s.world)

  pub Timed-later :
      {t : ℕ} {s : Session api} (w : api.State) (requests : _)
      → api.time s.world ≤ api.time w
      → Timed t s
      → Timed t (record s { world = w; requests = requests })
  Timed-later {s = s} w requests le h = record {
    started = h.started;
    forward = omega (arith, h.forward);
    ticked = Bounded-later s.tick le h.ticked;
  }

  pub check_timer-Post :
      (t : ℕ) (s : Session api)
      → Timed t s
      → Post ⊥
          (λ _ s'. (s' ≡ s) × (api.time s.world ≤ t + o.timeout * second))
          (check_timer api o s)
  unfolding check_timer
  check_timer-Post t s h =
      elim (Bool-cases (ltb (o.timeout * second) (api.time s.world - s.start))) [
        | inl e ↦ rw e tt
        | inr e ↦ rw e (refl, ground (arith, h.started, h.forward))
      ]

  evict_pod-Post :
      (t n : ℕ) (s : Session api) (pod : Pod)
      → Timed t s
      → n ≤ api.time s.world
      → Post ⊥
          (λ _ s'. Timed t s' × (n ≤ api.time s'.world))
          (evict_pod api pod.name pod.namespace o.grace_period s)
  unfolding evict_pod
  evict_pod-Post t n s pod h le =
      let later =
        clock.after_eviction s.world pod.name pod.namespace (grace_option o.grace_period) in
      Post-finished ⊥ (λ _ s'. Timed t s' × (n ≤ api.time s'.world)) _ _
        (evicted-ne-unfinished pod.name pod.namespace
          (api.create_eviction s.world pod.name pod.namespace (grace_option o.grace_period)).0)
        (λ _. (Timed-later _ _ later h, omega (arith, later, le)))

  sleep-Post :
      (t n d : ℕ) (s : Session api)
      → Timed t s
      → n ≤ api.time s.world
      → Post ⊥ (λ _ s'. Timed t s' × (n + d ≤ api.time s'.world)) (sleep api d s)
  unfolding sleep
  sleep-Post t n d s h le = (
    Timed-later (api.sleep s.world d) s.requests (omega (arith, clock.after_sleep s.world d)) h,
    omega (arith, clock.after_sleep s.world d),
  )

  unless_evicted-Post :
      (t n : ℕ) (again : Action (Session api) Unit)
      → ((s : Session api)
          → Timed t s
          → n + 5000000 ≤ api.time s.world
          → Post ⊥ (λ _. Timed t) (again s))
      → (done : Bool) (s : Session api) → Timed t s × (n ≤ api.time s.world)
      → Post ⊥ (λ _. Timed t) (unless_evicted api again done s)
  unless_evicted-Post t n again k true s (h, le) = h
  unless_evicted-Post t n again k false s (h, le) =
      Post-bind ⊥ _ (λ _. Timed t) (sleep api (5 * second)) (λ _. again) s
        (sleep-Post t n (5 * second) s h le) (λ _ s' (h', le'). k s' h' le')

  evict_until-Post :
      (t fuel : ℕ) (s : Session api) (pod : Pod)
      → Timed t s
      → t + o.timeout * second < api.time s.world + 5000000 * fuel
      → Post ⊥ (λ _ s'. Timed t s') (evict_until api o (suc fuel) pod s)
  unfolding evict_until
  evict_until-Post t zero s pod h enough =
      Post-bind ⊥ _ _ (check_timer api o) _ s (check_timer-Post t s h)
        (λ _ s₁ (same, in_time). absurd (omega arith))
  evict_until-Post t (suc fuel) s pod h enough =
      Post-bind ⊥ _ _ (check_timer api o) _ s (check_timer-Post t s h) λ _ s₁ (same, _). rw same (
        Post-bind ⊥ _ (λ _. Timed t) (evict_pod api pod.name pod.namespace o.grace_period)
          (unless_evicted api (evict_until api o (suc fuel) pod)) s
          (evict_pod-Post t (api.time s.world) s pod h (omega arith))
          (unless_evicted-Post t (api.time s.world) (evict_until api o (suc fuel) pod)
            (λ s₃ h₃ le. evict_until-Post t fuel s₃ pod h₃ (omega arith))))

  pub evict_each-Post :
      (t fuel : ℕ) (s : Session api) (pods : List Pod)
      → Timed t s
      → o.timeout * second < 5000000 * fuel
      → Post ⊥ (λ _ s'. Timed t s') (evict_each api o (suc fuel) pods s)
  unfolding evict_each
  evict_each-Post t fuel s [] h enough = h
  evict_each-Post t fuel s (pod ∷ pods) h enough =
      Post-bind ⊥ _ _ (evict_until api o (suc fuel) pod) _ s
        (evict_until-Post t fuel s pod h (omega (arith, h.forward)))
        (λ _ s' h'. evict_each-Post t fuel s' pods h' enough)
