-- ===== src/Action.antt =====
-- Actions on a mutable state that may raise, for `do` blocks.
pub mod Rules
use metalk8s.Exec.{Exn, Outcome, return, raise, unfinished, Reply, answer, failure, command}
use metalk8s.Prelude.{[]}

abbrev pub Action {ℓ} : Type ℓ → Type ℓ → Type ℓ
Action S A = S → Outcome A × S

module _ {ℓ} {S A : Type ℓ} where
  abbrev pub pure : A → Action S A
  pure a s = (return a, s)

  abbrev pub throw : Exn → Action S A
  throw e s = (raise e, s)

  abbrev pub out_of_fuel : Action S A
  out_of_fuel s = (unfinished, s)

  abbrev pub lift : Outcome A → Action S A
  lift r s = (r, s)

  -- a call to the outside that reads the state
  abbrev pub ask : (S → Outcome A) → Action S A
  ask f s = (f s, s)

  abbrev pub gets : (S → A) → Action S A
  gets f s = (return (f s), s)

module _ {ℓ} {S : Type ℓ} where
  abbrev pub modify : (S → S) → Action S (Unit {ℓ})
  modify f s = (return tt, f s)

module _ {ℓ} {S A B : Type ℓ} where
  abbrev pub continue : Outcome A → (A → Action S B) → Action S B
  continue (return a) f s = f a s
  continue (raise e) f s = (raise e, s)
  continue unfinished f s = (unfinished, s)

  infixl 5 ◌>>=◌ ◌>>◌
  abbrev pub ◌>>=◌ : Action S A → (A → Action S B) → Action S B
  ◌>>=◌ m f s = let (r, s') = m s in continue r f s'

  abbrev pub ◌>>◌ : Action S A → Action S B → Action S B
  m >> n = m >>= λ _. n

  -- `try: m` with `except`: the handler takes the exceptions, the rest takes the value
  abbrev pub resume : Outcome A → (Exn → Action S B) → (A → Action S B) → Action S B
  resume (return a) handler rest s = rest a s
  resume (raise e) handler rest s = handler e s
  resume unfinished handler rest s = (unfinished, s)

  abbrev pub try_else : Action S A → (Exn → Action S B) → (A → Action S B) → Action S B
  try_else m handler rest s = let (r, s') = m s in resume r handler rest s'

-- A reply of the outside as an outcome: a failure is a `CommandExecutionError`.
abbrev pub from_reply {ℓ} : {A : Type ℓ} → Reply A → Outcome A
from_reply (answer a) = return a
from_reply (failure text) = raise (command text [])

module _ {ℓ} {S A : Type ℓ} where
  -- `except: cleanup; raise`
  abbrev pub on_error : Action S A → (Exn → Action S A) → Action S A
  on_error m handler = try_else m handler pure
