-- ===== src/Exec.antt =====
-- Python statements that mutate a state and may raise. What was written before a `raise` stays
-- written, so the state comes back beside the exception too. A `while` loop takes fuel, and
-- `unfinished` says that the fuel ran out.
use metalk8s.Prelude.{ℕ, String, List}

-- The exceptions of the Salt modules, with the text that they carry. `command` is
-- `salt.exceptions.CommandExecutionError`, with its `info` argument.
pub data Exn : Type 0 where
  command : String → List String → Exn
  drain drain_timeout value_error type_error key_error assertion_error : String → Exn
  attribute_error blkid_error exception name_error : String → Exn
  -- an `ApiException` of the Kubernetes client, with its `status`
  api_error : ℕ → String → Exn
  -- an `OSError`, and an `IOError`, with its `errno`
  os_error io_error : ℕ → String → Exn

pub data Outcome {ℓ} (A : Type ℓ) : Type ℓ where
  return : A → Outcome A
  raise : Exn → Outcome A
  unfinished : Outcome A

-- `abbrev`, so that a bind of a known outcome computes wherever it stands
infixl 5 ◌>>=◌ ◌>>◌
abbrev pub ◌>>=◌ {ℓ κ} : {A : Type ℓ} {B : Type κ} → Outcome A → (A → Outcome B) → Outcome B
return a >>= f = f a
raise e >>= f = raise e
unfinished >>= f = unfinished

abbrev pub ◌>>◌ {ℓ κ} : {A : Type ℓ} {B : Type κ} → Outcome A → Outcome B → Outcome B
m >> k = m >>= λ _. k

-- What a call to the outside gives: a value, or the text of a `CommandExecutionError`.
pub data Reply {ℓ} (A : Type ℓ) : Type ℓ where
  answer : A → Reply A
  failure : String → Reply A

-- `str(exn)`
abbrev pub exn_text : Exn → String
exn_text (command text info) = text
exn_text (drain text) = text
exn_text (drain_timeout text) = text
exn_text (value_error text) = text
exn_text (type_error text) = text
exn_text (key_error text) = text
exn_text (assertion_error text) = text
exn_text (attribute_error text) = text
exn_text (blkid_error text) = text
exn_text (exception text) = text
exn_text (name_error text) = text
exn_text (api_error status text) = text
exn_text (os_error errno text) = text
exn_text (io_error errno text) = text
