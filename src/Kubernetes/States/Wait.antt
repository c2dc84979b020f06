-- ===== src/Kubernetes/States/Wait.antt =====
-- How long `object_absent` waits, and what it says when the object is gone.
use metalk8s.Prelude.{ℕ, zero, suc, ◌+◌, ◌*◌, ◌≤◌, String, Option, none, some, ◌≡◌, refl, ap, arith}
use metalk8s.Exec.{Outcome, return, raise, unfinished}
use metalk8s.Action.{Action, continue}
use metalk8s.Kubernetes.Values.{Value, Fields}
use metalk8s.Kubernetes.States.{Module, wait_loop}

module _ (m : Module) where
  -- The first of some checks that finds no object: `Gone k s` says that in `s` the `k`th check, k
  -- counted from 0, answers `None` and the checks before it an object, with a sleep after each.
  unfoldable pub Gone : Option String → Option Fields → ℕ → ℕ → m.S → Type 0
  Gone name manifest seconds zero s = (m.get_object name manifest s).0 ≡ return none
  Gone name manifest seconds (suc k) s =
      ((o : Value) × ((m.get_object name manifest s).0 ≡ return (some o)))
      × Gone name manifest seconds k (m.sleep seconds (m.get_object name manifest s).1)

  -- Every one of the checks answers with an object.
  unfoldable pub Stays : Option String → Option Fields → ℕ → ℕ → m.S → Type 0
  Stays name manifest seconds zero s = Unit
  Stays name manifest seconds (suc k) s =
      ((o : Value) × ((m.get_object name manifest s).0 ≡ return (some o)))
      × Stays name manifest seconds k (m.sleep seconds (m.get_object name manifest s).1)

  -- If the k-th check finds no object and k is below the number of attempts, the loop returns the
  -- number of checks that were made.
  pub wait_loop-Gone :
      (name : Option String) (manifest : Option Fields) (left seconds attempts k : ℕ) (s : m.S)
      → suc k ≤ left
      → Gone name manifest seconds k s
      → (wait_loop m name manifest left seconds attempts s).0 ≡ return (some (k + attempts))
  unfolding wait_loop Gone
  wait_loop-Gone name manifest zero seconds attempts k s h g = absurd (omega arith)
  wait_loop-Gone name manifest (suc left) seconds attempts zero s h g =
      let count : attempts ≡ 0 + attempts = omega arith in rw (g) (ap (λ n. return (some n)) count)
  wait_loop-Gone name manifest (suc left) seconds attempts (suc k) s h ((o, e), g) =
      let rest =
        wait_loop-Gone name manifest left seconds (suc attempts) k
          (m.sleep seconds (m.get_object name manifest s).1) (omega arith) g in
      let count : k + suc attempts ≡ suc k + attempts = omega arith in
      rw (e, rest) (ap (λ n. return (some n)) count)

  pub wait_loop-Stays :
      (name : Option String) (manifest : Option Fields) (left seconds attempts : ℕ) (s : m.S)
      → Stays name manifest seconds left s
      → (wait_loop m name manifest left seconds attempts s).0 ≡ return none
  unfolding wait_loop Stays
  wait_loop-Stays name manifest zero seconds attempts s g = refl
  wait_loop-Stays name manifest (suc left) seconds attempts s ((o, e), g) =
      rw (e, wait_loop-Stays name manifest left seconds (suc attempts) _ g)

-- The seconds that calls and sleeps take, where `clock` is the time in a state: a call takes at most
-- `longest`, and a sleep may end later than asked, by at most `late`.
pub record Timed (m : Module) (clock : m.S → ℕ) (longest late : ℕ) : Type 0 where
  pub get_object :
      (name : Option String) (manifest : Option Fields) (s : m.S)
      → clock (m.get_object name manifest s).1 ≤ clock s + longest
  pub delete_object :
      (name : Option String) (manifest : Option Fields) (s : m.S)
      → clock (m.delete_object name manifest s).1 ≤ clock s + longest
  pub sleep : (seconds : ℕ) (s : m.S) → clock (m.sleep seconds s) ≤ clock s + seconds + late

-- the state that a block leaves is not later than a bound, if that holds on every way
pub continue-clock :
    {S A B : Type 0} (clock : S → ℕ) (bound : ℕ) (r : Outcome A) (f : A → Action S B) (s : S)
    → clock s ≤ bound
    → ((a : A) → clock (f a s).1 ≤ bound)
    → clock (continue r f s).1 ≤ bound
continue-clock clock bound (return a) f s h k = k a
continue-clock clock bound (raise e) f s h k = h
continue-clock clock bound unfinished f s h k = h

module _ (m : Module) (clock : m.S → ℕ) (longest late : ℕ) (t : Timed m clock longest late) where
  pub checked-clock :
      {A : Type 0} (obj : Option Value) (gone there : Action m.S A) (s : m.S) (bound : ℕ)
      → clock (gone s).1 ≤ bound
      → clock (there s).1 ≤ bound
      → clock (elim obj as (λ _. Action m.S A) [ none ↦ gone | some o ↦ there ] s).1 ≤ bound
  checked-clock none gone there s bound h k = h
  checked-clock (some o) gone there s bound h k = k

  pub wait_loop-clock :
      (name : Option String) (manifest : Option Fields) (left seconds attempts : ℕ) (s : m.S)
      → clock (wait_loop m name manifest left seconds attempts s).1
        ≤ clock s + left * (longest + seconds + late)
  unfolding wait_loop
  wait_loop-clock name manifest zero seconds attempts s = omega arith
  wait_loop-clock name manifest (suc left) seconds attempts s =
      let s1 = (m.get_object name manifest s).1 in
      let h1 = t.get_object name manifest s in
      let h2 = t.sleep seconds s1 in
      let h3 = wait_loop-clock name manifest left seconds (suc attempts) (m.sleep seconds s1) in
      continue-clock clock _ (m.get_object name manifest s).0 _ s1 (omega (arith, h1))
        (λ obj. checked-clock obj _ _ s1 _ (omega (arith, h1)) (omega (arith, h1, h2, h3)))
