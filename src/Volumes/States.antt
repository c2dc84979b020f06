-- ===== src/Volumes/States.antt =====
-- salt/_states/metalk8s_volumes.py: the four states. Each checks first, reports only in a dry run,
-- and else calls the module.
pub mod Repeat
pub mod Leftover
use metalk8s.Prelude.{
  String, ◌<>◌, Bool, true, false, Option, none, some, List, [], ◌∷◌, if◌then◌else◌,
}
use metalk8s.Prelude.Dict.{Dict}
use metalk8s.Exec.{Outcome, Exn, command, exn_text}
use metalk8s.Action.{Action, pure, throw, try_else, ◌>>=◌}
use metalk8s.Volumes.{VolumeInfo, Host, Machine}
use metalk8s.Volumes.Device.{
  on_volume, exists, create, is_provisioned, provision, is_formatted, format, is_cleaned_up,
  clean_up,
}

-- The state's return value; `changes` is the value under the volume's name.
pub record Ret : Type 0 where
  pub name : String
  pub changes : Option String
  pub result : Option Bool
  pub comment : String

abbrev pub ret : String → Option String → Option Bool → String → Ret
ret name changes result comment = record {
  name = name;
  changes = changes;
  result = result;
  comment = comment;
}

module _ (host : Host) (volumes : Dict VolumeInfo) (test : Bool) (name : String) where
  -- the branch behind the check, for a state that is not there yet
  abbrev pub attempt :
      String
      → String
      → Action (Machine host) Unit
      → (Exn → Action (Machine host) Ret)
      → String
      → Action (Machine host) Ret
  attempt change going_to method handler success =
      if test
      then pure (ret name (some change) none going_to)
      else try_else method handler (λ _. pure (ret name (some change) (some true) success))

  -- `except Exception`
  abbrev pub give_up : (Exn → String) → Exn → Action (Machine host) Ret
  give_up comment e = pure (ret name none (some false) (comment e))

  -- `except CommandExecutionError`
  abbrev pub give_up_on_command : (Exn → String) → Exn → Action (Machine host) Ret
  give_up_on_command comment (command text info) =
      pure (ret name none (some false) (comment (command text info)))
  give_up_on_command comment e = throw e

  unfoldable pub present : Action (Machine host) Ret
  present = do
    already ← on_volume host volumes name (exists host)
    if already
        then pure (ret name none (some true) ("Storage for volume " <> name <> " already exists."))
        else attempt "Present" ("Storage for volume " <> name <> " is going to be created.")
            (on_volume host volumes name (create host))
            (give_up
              (λ e. "Cannot create storage for volume " <> name <> ": " <> exn_text e <> "."))
            ("Storage for volume " <> name <> " created.")

  unfoldable pub provisioned : Action (Machine host) Ret
  provisioned = do
    already ← on_volume host volumes name (is_provisioned host)
    if already
        then pure
            (ret name none (some true) ("Storage for volume " <> name <> " already provisioned."))
        else attempt "Provisioned" ("Storage for volume " <> name <> " is going to be provisioned.")
            (on_volume host volumes name (provision host))
            (give_up_on_command
              (λ e. "Storage provisioning for volume " <> name <> " failed: " <> exn_text e <> "."))
            ("Storage provisioned for volume " <> name <> ".")

  unfoldable pub formatted : Action (Machine host) Ret
  formatted = do
    already ← on_volume host volumes name (is_formatted host)
    if already
        then pure (ret name none (some true) ("Volume " <> name <> " already formatted."))
        else attempt "Formatted" ("Volume " <> name <> " is going to be formatted.")
            (on_volume host volumes name (format host))
            (give_up (λ e. "Failed to format volume " <> name <> ": " <> exn_text e <> "."))
            ("Volume " <> name <> " formatted.")

  unfoldable pub removed : Action (Machine host) Ret
  removed = do
    already ← on_volume host volumes name (is_cleaned_up host)
    if already
        then pure (ret name none (some true) ("Volume " <> name <> " already cleaned up."))
        else attempt "Cleaned up" ("Volume " <> name <> " is going to be cleaned up.")
            (on_volume host volumes name (clean_up host))
            (give_up (λ e. "Failed to clean up volume " <> name <> ": " <> exn_text e <> "."))
            ("Volume " <> name <> " cleaned up.")
