-- ===== src/Action/Rules.antt =====
-- Proof rules for actions: invariants that hold whatever the outcome, and postconditions of a
-- normal return.
use metalk8s.Prelude.{◌≡◌, ◌≢◌, ◌⊎◌, inl, inr, refl}
use mathlib.Core.Path.{subst}
use metalk8s.Exec
use metalk8s.Exec.{Reply, answer, failure, Exn, Outcome, return, raise, unfinished}
use metalk8s.Action.{Action, pure, throw, ask, out_of_fuel, continue, resume, try_else, ◌>>=◌}

-- `m` keeps `P`, whether it returns, raises or runs out of fuel.
pub record Keeps {ℓ} {S A : Type ℓ} (P : S → Type ℓ) (m : Action S A) : Type ℓ where
  pub at : (s : S) → P s → P (m s).1

module _ {ℓ} {S A B : Type ℓ} {P : S → Type ℓ} where
  pub Keeps-continue :
      (r : Outcome A) (f : A → Action S B) (s : S)
      → ((a : A) → Keeps P (f a))
      → P s
      → P (continue r f s).1
  Keeps-continue (return a) f s k h = (k a).at s h
  Keeps-continue (raise e) f s k h = h
  Keeps-continue unfinished f s k h = h

  pub Keeps-bind :
      (m : Action S A) (f : A → Action S B)
      → Keeps P m
      → ((a : A) → Keeps P (f a))
      → Keeps P (m >>= f)
  Keeps-bind m f km kf = record { at = λ s h. Keeps-continue (m s).0 f (m s).1 kf (km.at s h) }

module _ {ℓ} {S A : Type ℓ} {P : S → Type ℓ} where
  pub Keeps-pure : (a : A) → Keeps P (pure a)
  Keeps-pure a = record { at = λ s h. h }

  pub Keeps-throw : (e : Exn) → Keeps P (throw {A = A} e)
  Keeps-throw e = record { at = λ s h. h }

  pub Keeps-out_of_fuel : Keeps P (out_of_fuel {A = A})
  Keeps-out_of_fuel = record { at = λ s h. h }

  pub Keeps-ask : (f : S → Outcome A) → Keeps P (ask f)
  Keeps-ask f = record { at = λ s h. h }

-- A normal return satisfies `Q`; `U` is what is claimed when the fuel ran out, `Unit` or `⊥`.
abbrev pub Post {ℓ} : {S A : Type ℓ} → Type ℓ → (A → S → Type ℓ) → Outcome A × S → Type ℓ
Post U Q (return a, s) = Q a s
Post U Q (raise e, s) = Unit
Post U Q (unfinished, s) = U

module _ {ℓ} {S A B : Type ℓ} where
  Post-continue :
      (U : Type ℓ) (Q : A → S → Type ℓ) (R : B → S → Type ℓ) (r : Outcome A) (f : A → Action S B)
      (s : S)
      → Post U Q (r, s)
      → ((a : A) (s' : S) → Q a s' → Post U R (f a s'))
      → Post U R (continue r f s)
  Post-continue U Q R (return a) f s h k = k a s h
  Post-continue U Q R (raise e) f s h k = tt
  Post-continue U Q R unfinished f s h k = h

  pub Post-bind :
      (U : Type ℓ) (Q : A → S → Type ℓ) (R : B → S → Type ℓ) (m : Action S A) (f : A → Action S B)
      (s : S)
      → Post U Q (m s)
      → ((a : A) (s' : S) → Q a s' → Post U R (f a s'))
      → Post U R ((m >>= f) s)
  Post-bind U Q R m f s h k = Post-continue U Q R (m s).0 f (m s).1 h k

module _ {ℓ} {S A : Type ℓ} where
  -- An outcome that is not `unfinished`, in a state that satisfies the postcondition.
  pub Post-finished :
      (U : Type ℓ) (Q : A → S → Type ℓ) (r : Outcome A) (s : S)
      → r ≢ unfinished
      → ((a : A) → Q a s)
      → Post U Q (r, s)
  Post-finished U Q (return a) s h q = q a
  Post-finished U Q (raise e) s h q = tt
  Post-finished U Q unfinished s h q = absurd (h refl)

  pub Post-trivial : (r : Outcome A) (s : S) → Post Unit (λ _ _. Unit) (r, s)
  Post-trivial (return a) s = tt
  Post-trivial (raise e) s = tt
  Post-trivial unfinished s = tt

  pub Post-weaken :
      (U : Type ℓ) (Q R : A → S → Type ℓ) (r : Outcome A) (s : S)
      → ((a : A) → Q a s → R a s)
      → Post U Q (r, s)
      → Post U R (r, s)
  Post-weaken U Q R (return a) s f h = f a h
  Post-weaken U Q R (raise e) s f h = tt
  Post-weaken U Q R unfinished s f h = h

  -- What a postcondition says of an action that returned.
  pub Post-return :
      (U : Type ℓ) (Q : A → S → Type ℓ) (m : Action S A) (s : S) {a : A}
      → Post U Q (m s)
      → (m s).0 ≡ return a
      → Q a (m s).1
  Post-return U Q m s h e = subst (λ r. Post U Q (r, (m s).1)) e h

module _ {ℓ} {S A B : Type ℓ} where
  Post-resume :
      (U : Type ℓ) (Q : A → S → Type ℓ) (R : B → S → Type ℓ) (r : Outcome A)
      (handler : Exn → Action S B) (f : A → Action S B) (s : S)
      → Post U Q (r, s)
      → ((e : Exn) → Post U R (handler e s))
      → ((a : A) → Q a s → Post U R (f a s))
      → Post U R (resume r handler f s)
  Post-resume U Q R (return a) handler f s h kh kf = kf a h
  Post-resume U Q R (raise e) handler f s h kh kf = kh e
  Post-resume U Q R unfinished handler f s h kh kf = h

  pub Post-try_else :
      (U : Type ℓ) (Q : A → S → Type ℓ) (R : B → S → Type ℓ) (m : Action S A)
      (handler : Exn → Action S B) (f : A → Action S B) (s : S)
      → Post U Q (m s)
      → ((e : Exn) → Post U R (handler e (m s).1))
      → ((a : A) → Q a (m s).1 → Post U R (f a (m s).1))
      → Post U R (try_else m handler f s)
  Post-try_else U Q R m handler f s h kh kf = Post-resume U Q R (m s).0 handler f (m s).1 h kh kf

module _ {ℓ} {S A B : Type ℓ} {P : S → Type ℓ} where
  Keeps-resume :
      (r : Outcome A) (handler : Exn → Action S B) (f : A → Action S B) (s : S)
      → ((e : Exn) → Keeps P (handler e))
      → ((a : A) → Keeps P (f a))
      → P s
      → P (resume r handler f s).1
  Keeps-resume (return a) handler f s kh kf h = (kf a).at s h
  Keeps-resume (raise e) handler f s kh kf h = (kh e).at s h
  Keeps-resume unfinished handler f s kh kf h = h

  pub Keeps-try_else :
      (m : Action S A) (handler : Exn → Action S B) (f : A → Action S B)
      → Keeps P m
      → ((e : Exn) → Keeps P (handler e))
      → ((a : A) → Keeps P (f a))
      → Keeps P (try_else m handler f)
  Keeps-try_else m handler f km kh kf = record {
    at = λ s h. Keeps-resume (m s).0 handler f (m s).1 kh kf (km.at s h);
  }

-- A block goes on with a value, or it ends there and leaves the state.
pub Outcome-split {ℓ} :
    {S A B : Type ℓ} (r : Outcome A)
    → ((a : A) × (r ≡ return a)) ⊎ ((f : A → Action S B) (s : S) → (continue r f s).1 ≡ s)
Outcome-split (return a) = inl (a, refl)
Outcome-split (raise e) = inr (λ f s. refl)
Outcome-split unfinished = inr (λ f s. refl)

-- A block whose rest leaves the state leaves it too.
pub continue-state {ℓ} :
    {S A B : Type ℓ} (r : Outcome A) (f : A → Action S B) (s : S)
    → ((a : A) → (f a s).1 ≡ s)
    → (continue r f s).1 ≡ s
continue-state (return a) f s h = h a
continue-state (raise e) f s h = refl
continue-state unfinished f s h = refl

pub ruleset keeps_rules =
    (Keeps-bind, Keeps-pure, Keeps-throw, Keeps-out_of_fuel, Keeps-ask, Keeps-try_else)

-- A chain of outcomes that returned.
pub >>=-eq-return :
    {A B : Type 0} (m : Outcome A) (f : A → Outcome B) {b : B}
    → (metalk8s.Exec.◌>>=◌ m f) ≡ return b
    → (a : A) × (m ≡ return a) × (f a ≡ return b)
>>=-eq-return (return a) f h = (a, refl, h)
>>=-eq-return (raise e) f h = cc
>>=-eq-return unfinished f h = cc

pub Outcome-cases :
    {A : Type 0} (r : Outcome A)
    → ((a : A) × (r ≡ return a)) ⊎ ((e : Exn) × (r ≡ raise e)) ⊎ (r ≡ unfinished)
Outcome-cases (return a) = inl (a, refl)
Outcome-cases (raise e) = inr (inl (e, refl))
Outcome-cases unfinished = inr (inr refl)

pub Reply-cases :
    {A : Type 0} (r : Reply A) → ((a : A) × (r ≡ answer a)) ⊎ ((text : _) × (r ≡ failure text))
Reply-cases (answer a) = inl (a, refl)
Reply-cases (failure text) = inr (text, refl)

pub return-injective : {A : Type 0} {a b : A} → return a ≡ return b → a ≡ b
return-injective h = cc
