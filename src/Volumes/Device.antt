-- ===== src/Volumes/Device.antt =====
-- salt/_modules/metalk8s_volumes.py: the methods of `Volume`, `SparseLoopDevice` and
-- `RawBlockDevice`, and the module's functions, which look the volume up in the pillar first.
pub mod Safety
pub mod Liveness
use metalk8s.Prelude.{
  ℕ, String, ◌<>◌, join, lower, Bool, true, false, not, Option, none, some, List, [], ◌∷◌, nat_eq,
  ◌==◌, if◌then◌else◌,
}
use metalk8s.Prelude.Dict
use metalk8s.Prelude.Dict.{Dict}
use text.Mathlib.Text.{find?}
use metalk8s.Exec.{Outcome, return, raise, Exn, key_error, exception, os_error, io_error}
use metalk8s.Action.{Action, pure, throw, lift, ask, try_else, on_error, ◌>>=◌, ◌>>◌}
use metalk8s.Volumes.{
  StorageClass, unresolved, resolved, VolumeInfo, SysReply, done, failed, enoent, Host, Machine,
  from_sys, run_cmd, mkfs, Kind, raw, sparse, Volume, get_volume,
}
use metalk8s.Volumes.Quantity.{quantity_to_bytes}
use metalk8s.Volumes.Blkid.{DeviceInfo, get_from_blkid}

unfoldable pub path : Volume → String
path v = elim v.kind [
  | raw device_path ↦ device_path
  | sparse size ↦ "/var/lib/metalk8s/storage/sparse/" <> v.info.uid
]

-- `if text:`
abbrev pub truthy : Option String → Bool
truthy none = false
truthy (some text) = not (text == "")

abbrev is_equal : Option String → String → Bool
is_equal none text = false
is_equal (some other) text = other == text

abbrev pub found : Option ℕ → Bool
found none = false
found (some i) = true

abbrev pub text_or : Option String → String → String
text_or none default = default
text_or (some text) default = text

abbrev pub required : String → Option String → Outcome String
required key none = raise (key_error key)
required key (some text) = return text

-- `fcntl.ioctl` raises an `IOError`, which is no `OSError`
abbrev pub from_ioctl : SysReply → Outcome (Unit {0})
from_ioctl done = return tt
from_ioctl (failed errno text) = raise (io_error errno text)

abbrev pub device_path : Volume → String
device_path v = "/dev/disk/by-uuid/" <> v.info.uid

module _ (host : Host) where
  -- a system call that writes
  abbrev pub sys : (host.State → SysReply × host.State) → Action (Machine host) Unit
  sys call m = let (reply, state) = call m.state in (from_sys reply, record m { state = state })

  unfoldable pub exists_kind : Volume → Kind → Action (Machine host) Bool
  exists_kind v (raw device_path) = ask (λ m. return (host.is_blkdev m.state device_path))
  exists_kind v (sparse size) = ask (λ m.
      if host.is_file m.state (path v)
      then metalk8s.Exec.◌>>=◌ (quantity_to_bytes size)
          (λ n. return (nat_eq (host.get_size m.state (path v)) n))
      else return false)

  unfoldable pub exists : Volume → Action (Machine host) Bool
  unfolding exists_kind
  exists v = exists_kind v v.kind

  -- `except OSError` around the creation
  unfoldable pub cannot_create : String → Exn → Action (Machine host) Unit
  cannot_create file (os_error errno text) =
      throw (exception ("cannot create sparse file at " <> file <> ": " <> text))
  cannot_create file e = throw e

  unfoldable pub create_kind : Volume → Kind → Action (Machine host) Unit
  unfolding cannot_create
  create_kind v (raw device_path) =
      throw (exception ("block device " <> path v <> " does not exists"))
  create_kind v (sparse size) =
      on_error
        (do
          sys (λ s. host.open_exclusive s (path v))
          on_error (do n ← lift (quantity_to_bytes size); sys (λ s. host.truncate s (path v) n))
              (λ e. sys (λ s. host.unlink s (path v)) >> throw e))
        (cannot_create (path v))

  unfoldable pub create : Volume → Action (Machine host) Unit
  unfolding create_kind
  create v = create_kind v v.kind

  unfoldable pub is_provisioned_kind : Volume → Kind → Action (Machine host) Bool
  unfolding run_cmd
  is_provisioned_kind v (raw device_path) = pure true
  is_provisioned_kind v (sparse size) = do
    result ← run_cmd host ("losetup --associated " <> path v)
    pure (found (find? result.stdout ("(" <> path v <> ")")))

  unfoldable pub is_provisioned : Volume → Action (Machine host) Bool
  unfolding is_provisioned_kind
  is_provisioned v = is_provisioned_kind v v.kind

  unfoldable pub provision_kind : Volume → Kind → Action (Machine host) Unit
  unfolding run_cmd
  provision_kind v (raw device_path) = pure tt
  provision_kind v (sparse size) = do run_cmd host ("losetup --find " <> path v); pure tt

  unfoldable pub provision : Volume → Action (Machine host) Unit
  unfolding provision_kind
  provision v = provision_kind v v.kind

  unfoldable pub is_cleaned_up_kind : Volume → Kind → Action (Machine host) Bool
  unfolding is_provisioned exists
  is_cleaned_up_kind v (raw device_path) = pure true
  is_cleaned_up_kind v (sparse size) = do
    provisioned ← is_provisioned v
    if provisioned then pure false else do there ← exists v; pure (not there)

  unfoldable pub is_cleaned_up : Volume → Action (Machine host) Bool
  unfolding is_cleaned_up_kind
  is_cleaned_up v = is_cleaned_up_kind v v.kind

  -- `except OSError`: only a missing file is let pass
  unfoldable pub already_removed : Exn → Action (Machine host) Unit
  already_removed (os_error errno text) =
      if nat_eq errno enoent then pure tt else throw (os_error errno text)
  already_removed e = throw e

  abbrev pub ioctl_clear : String → Action (Machine host) Unit
  ioctl_clear device m =
      let (reply, state) = host.loop_clear m.state device in
      (from_ioctl reply, record m { state = state })

  unfoldable pub clean_up_kind : Volume → Kind → Action (Machine host) Unit
  unfolding already_removed
  clean_up_kind v (raw _) = pure tt
  clean_up_kind v (sparse size) =
      on_error
        (do
          ask (λ m. from_sys (host.open_readonly m.state (device_path v)))
          ioctl_clear (device_path v)
          sys (λ s. host.unlink s (path v)))
        already_removed

  unfoldable pub clean_up : Volume → Action (Machine host) Unit
  unfolding clean_up_kind
  clean_up v = clean_up_kind v v.kind

  unfoldable pub is_formatted : Volume → Action (Machine host) Bool
  unfolding get_from_blkid
  is_formatted v = do
    info ← ask (λ m. get_from_blkid host m.state (path v))
    pure (is_equal info.uuid (lower v.info.uid))

  unfoldable pub make_filesystem : Volume → Bool → StorageClass → Action (Machine host) Unit
  unfolding run_cmd mkfs
  make_filesystem v force (unresolved name) =
      throw (exception ("StorageClass " <> name <> " not found"))
  make_filesystem v force (resolved parameters) = do
    options ← lift (host.loads (text_or (Dict.get "mkfsOptions" parameters) "[]"))
    fs_type ← lift (required "fsType" (Dict.get "fsType" parameters))
    words ← lift (mkfs (path v) fs_type v.info.uid force options)
    run_cmd host (join " " words)
    pure tt

  -- `Volume.format`
  unfoldable pub format_with : Volume → Bool → Action (Machine host) Unit
  unfolding get_from_blkid make_filesystem
  format_with v force = do
    info ← ask (λ m. get_from_blkid host m.state (path v))
    if truthy info.fstype
        then throw (exception ("backing device `" <> path v <> "` already formatted"))
        else if info.has_partition
        then throw (exception ("backing device `" <> path v <> "` contains a partition table"))
        else make_filesystem v force v.info.storage_class

  -- both classes format with `force=True`
  unfoldable pub format : Volume → Action (Machine host) Unit
  unfolding format_with
  format v = format_with v true

  -- The module's functions: the method of the volume that the pillar has under the name.
  abbrev pub on_volume :
      {A : Type 0}
      → Dict VolumeInfo
      → String
      → (Volume → Action (Machine host) A)
      → Action (Machine host) A
  on_volume volumes name method = do v ← lift (get_volume volumes name); method v
