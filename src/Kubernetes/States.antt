-- ===== src/Kubernetes/States.antt =====
-- salt/_states/metalk8s_kubernetes.py: the states `object_absent`, `object_present` and
-- `object_updated`.
pub mod Wait
pub mod Absent
use metalk8s.Prelude.{
  ℕ, zero, suc, String, ◌<>◌, Bool, true, false, Option, none, some, decimal, if◌then◌else◌,
}
use metalk8s.Exec.{Exn, Outcome, return, raise, unfinished}
use metalk8s.Action.{Action, pure, modify, ◌>>=◌, ◌>>◌}
use metalk8s.Kubernetes.Values.{Value, object, Fields, no_fields}
use metalk8s.Kubernetes.Names.{camel_to_snake}

-- The execution module `metalk8s_kubernetes` and what else the states call, on the state of the
-- cluster and of the clock. The template, the environment and the other arguments are fixed.
pub record Module : Type 1 where
  pub S : Type 0
  pub get_object : Option String → Option Fields → Action S (Option Value)
  pub delete_object : Option String → Option Fields → Action S (Option Value)
  pub create_object : Option String → Option Fields → Action S (Option Value)
  pub update_object : Option String → Option Fields → Action S (Option Value)
  pub replace_object : Option String → Option Fields → Value → Action S (Option Value)
  -- `read_and_render_yaml_file`
  pub read_manifest : String → S → Outcome Fields
  pub sleep : ℕ → S → S
  -- the `diffs` of `recursive_diff`
  pub recursive_diff : Option Value → Option Value → Fields
  pub iskeyword : String → Bool

-- the `changes` of a state
pub data Changes : Type 0 where
  no_changes : Changes
  old_new : String → String → Changes
  diffs : Fields → Changes

pub record Ret : Type 0 where
  pub name : String
  pub changes : Changes
  pub result : Option Bool
  pub comment : String

abbrev pub ret : String → Changes → Option Bool → String → Ret
ret name changes result comment = record {
  name = name;
  changes = changes;
  result = result;
  comment = comment;
}

-- the argument `wait`; its numbers are not negative
pub data WaitArg : Type 0 where
  no_wait : WaitArg
  wait_bool : Bool → WaitArg
  wait_int : ℕ → WaitArg
  wait_dict : Option ℕ → Option ℕ → WaitArg
  wait_other : WaitArg

-- `wait` once it is a dict with its defaults: the attempts and the seconds between them
pub data Waiting : Type 0 where
  off invalid : Waiting
  waiting : ℕ → ℕ → Waiting

abbrev or_five : Option ℕ → ℕ
or_five none = 5
or_five (some n) = n

-- an empty dict is no `wait` either
unfoldable pub wait_of : WaitArg → Waiting
wait_of no_wait = off
wait_of (wait_bool false) = off
wait_of (wait_bool true) = waiting 5 5
wait_of (wait_int zero) = off
wait_of (wait_int (suc n)) = waiting (suc n) 5
wait_of (wait_dict none none) = off
wait_of (wait_dict (some n) sleep) = waiting n (or_five sleep)
wait_of (wait_dict none (some sleep)) = waiting 5 sleep
wait_of wait_other = invalid

-- `not manifest`
abbrev pub given : Option Fields → Bool
given none = false
given (some no_fields) = false
given (some _) = true

-- `None if manifest else name`
abbrev pub name_arg : Option Fields → String → Option String
name_arg manifest name = if given manifest then none else some name

module _ (m : Module) where
  -- The loop after the deletion: `attempts` so far, and as many left. It gives `attempts` when the
  -- object is gone, and nothing when `attempts > wait['attempts']`.
  unfoldable pub wait_loop : Option String → Option Fields → ℕ → ℕ → ℕ → Action m.S (Option ℕ)
  wait_loop name manifest zero seconds attempts = pure none
  wait_loop name manifest (suc left) seconds attempts = m.get_object name manifest >>= λ obj.
      elim obj [
        | none ↦ pure (some attempts)
        | some o ↦
            modify (m.sleep seconds) >>= λ _. wait_loop name manifest left seconds (suc attempts)
      ]

  abbrev pub waited : String → ℕ → Option ℕ → Ret
  waited name limit none =
      ret name no_changes (some false)
        ("The object is still present after " <> decimal limit <> " check attempts")
  waited name limit (some attempts) =
      ret name (old_new "present" "absent") (some true)
        ("The object was deleted and not present after " <> decimal attempts <> " check attempts")

  abbrev pub after_delete : String → Option Fields → Waiting → Action m.S Ret
  after_delete name manifest (waiting attempts seconds) = do
    r ← wait_loop (name_arg manifest name) manifest attempts seconds 1
    pure (waited name attempts r)
  after_delete name manifest _ =
      pure (ret name (old_new "present" "absent") (some true) "The object was deleted")

  abbrev pub delete_with : String → Option Fields → Waiting → Action m.S Ret
  delete_with name manifest w = do
    result ← m.delete_object (name_arg manifest name) manifest
    elim result [
      | none ↦ pure (ret name no_changes (some true) "The object does not exist")
      | some o ↦ after_delete name manifest w
    ]

  abbrev pub absent_with : Bool → String → Option Fields → Waiting → Action m.S Ret
  absent_with test name manifest w = do
    obj ← m.get_object (name_arg manifest name) manifest
    elim obj [
      | none ↦ pure (ret name no_changes (some true) "The object does not exist")
      | some o ↦
          if test
          then pure (ret name no_changes none "The object is going to be deleted")
          else delete_with name manifest w
    ]

  unfoldable pub object_absent : Bool → String → Option Fields → WaitArg → Action m.S Ret
  unfolding wait_of
  object_absent test name manifest wait = elim (wait_of wait) [
    | invalid ↦ pure (
        ret name no_changes (some false) "Invalid value for \"wait\" should be a bool, int or dict")
    | w ↦ absent_with test name manifest w
  ]

  abbrev present_with : String → Option Fields → Option Value → Action m.S Ret
  present_with name manifest none = do
    _ ← m.create_object (name_arg manifest name) manifest
    pure (ret name (old_new "absent" "present") (some true) "The object was created")
  present_with name manifest (some obj) = do
    new ← m.replace_object (name_arg manifest name) manifest obj
    pure (ret name (diffs (m.recursive_diff (some obj) new)) (some true) "The object was replaced")

  abbrev going_to : Option Value → String
  going_to none = "The object is going to be created"
  going_to (some obj) = "The object is going to be replaced"

  unfoldable pub object_present : Bool → String → Option Fields → Action m.S Ret
  object_present test name manifest = do
    obj ← m.get_object (name_arg manifest name) manifest
    if test then pure (ret name no_changes none (going_to obj)) else present_with name manifest obj

  -- `cmp_manifest`
  abbrev compared : String → Option Fields → m.S → Option Fields
  compared name manifest s =
      if given manifest
      then manifest
      else elim (m.read_manifest name s) [ return fs ↦ some fs | _ ↦ none ]

  -- whether the object differs from what is asked of it
  abbrev is_good : Option Fields → Option Value → Bool
  is_good none obj = false
  is_good (some no_fields) obj = false
  is_good (some fs) obj =
      elim (m.recursive_diff obj (some (camel_to_snake m.iskeyword (object fs)))) [
        | no_fields ↦ true
        | _ ↦ false
      ]

  -- what is left to do, by whether the object is already good
  abbrev update_with : Bool → Bool → String → Option Fields → Option Value → Action m.S Ret
  update_with true test name manifest obj =
      pure (ret name no_changes (some true) "The object is already good")
  update_with false true name manifest obj =
      pure (ret name no_changes none "The object is going to be updated")
  update_with false false name manifest obj = do
    new ← m.update_object (name_arg manifest name) manifest
    pure (ret name (diffs (m.recursive_diff obj new)) (some true) "The object was updated")

  unfoldable pub object_updated : Bool → String → Option Fields → Action m.S Ret
  object_updated test name manifest = do
    obj ← m.get_object (name_arg manifest name) manifest
    cmp_manifest ← λ s. (return (compared name manifest s), s)
    update_with (is_good cmp_manifest obj) test name manifest obj
