-- ===== src/Volumes.antt =====
-- salt/_modules/metalk8s_volumes.py: the pillar's Volume dict, the host that the module acts on, and
-- the helpers below the classes. The children hold the quantities, the blkid probe of
-- salt/_utils/volume_utils.py, the device classes, and the states of salt/_states/metalk8s_volumes.py.
pub mod Quantity
pub mod Blkid
pub mod Device
pub mod States
mod Tests
use metalk8s.Prelude.{
  ℕ, String, ◌<>◌, Bool, true, false, not, Option, none, some, List, [], ◌∷◌, ◌++◌, join, nat_eq,
  ◌==◌, if◌then◌else◌,
}
use metalk8s.Prelude.Dict
use metalk8s.Prelude.Dict.{Dict}
use metalk8s.Exec.{Outcome, return, raise, Exn, command, value_error, os_error, ◌>>=◌}
use metalk8s.Action.{Action}

-- `spec.storageClass`: its name where the pillar found no such object, or the object's `parameters`.
pub data StorageClass : Type 0 where
  unresolved : String → StorageClass
  resolved : Dict String → StorageClass

-- The parts of a Volume dict that the module reads. `size` is the text of the quantity.
pub record VolumeInfo : Type 0 where
  pub uid : String
  pub storage_class : StorageClass
  pub raw_block_device : Option String
  pub sparse_loop_device : Option (List ℕ)

-- What `cmd.run_all` gives.
pub record CommandResult : Type 0 where
  pub retcode : ℕ
  pub stdout : String
  pub stderr : String

-- A system call: done, or an `OSError` with its `errno` and text.
pub data SysReply : Type 0 where
  done : SysReply
  failed : ℕ → String → SysReply

abbrev pub enoent : ℕ
enoent = 2

-- A call of libblkid: negative, or its result.
pub data Code : Type 0 where
  negative : Code
  code : ℕ → Code

-- The calls on one probe. `get_value` gives the name and the text of a value.
pub record Probe : Type 0 where
  pub enable_superblocks : ℕ → Code
  pub set_superblocks_flags : ℕ → Code
  pub enable_partitions : ℕ → Code
  pub set_partitions_flags : ℕ → Code
  pub do_safeprobe : Code
  pub numof_values : Code
  pub get_value : ℕ → Code × String × String

-- The host of the minion: files, devices, commands, and libblkid, where `none` is a NULL probe.
-- `open_exclusive` is `os.open` with `O_WRONLY | O_CREAT | O_EXCL`; `loop_clear` is the `ioctl` with
-- `LOOP_CLR_FD` on an open device, `open_readonly` whether the device opens.
pub record Host : Type 1 where
  pub State : Type 0
  pub is_blkdev : State → String → Bool
  pub is_file : State → String → Bool
  pub get_size : State → String → ℕ
  pub open_exclusive : State → String → SysReply × State
  pub truncate : State → String → ℕ → SysReply × State
  pub unlink : State → String → SysReply × State
  pub open_readonly : State → String → SysReply
  pub loop_clear : State → String → SysReply × State
  pub run_all : State → String → CommandResult × State
  pub new_probe : State → String → Option Probe
  -- `json.loads` of a list of texts
  pub loads : String → Outcome (List String)

-- The host, with the commands that the module ran on it.
pub record Machine (host : Host) : Type 0 where
  pub state : host.State
  pub commands : List String

abbrev pub from_sys : SysReply → Outcome (Unit {0})
from_sys done = return tt
from_sys (failed errno text) = raise (os_error errno text)

-- `_run_cmd`
unfoldable pub check_result : String → CommandResult → Outcome CommandResult
check_result cmd result =
    if nat_eq result.retcode 0
    then return result
    else raise (command ("error while trying to run `" <> cmd <> "`: " <> result.stderr) [])

unfoldable pub run_cmd : (host : Host) → String → Action (Machine host) CommandResult
unfolding check_result
run_cmd host cmd m =
    let (result, state) = host.run_all m.state cmd in
    (check_result cmd result, record { state = state; commands = m.commands ++ cmd ∷ [] })

abbrev when_forced : Bool → String → List String
when_forced true option = option ∷ []
when_forced false option = []

-- `_mkfs_ext4`, `_mkfs_xfs`, `_mkfs`
unfoldable pub mkfs_ext4 : String → String → Bool → List String → List String
mkfs_ext4 path uuid force options =
    "mkfs.ext4" ∷ (when_forced force "-F" ++ ("-U" ∷ uuid ∷ (options ++ path ∷ [])))

unfoldable pub mkfs_xfs : String → String → Bool → List String → List String
mkfs_xfs path uuid force options =
    "mkfs.xfs" ∷ (when_forced force "-f" ++ ("-m" ∷ ("uuid=" <> uuid) ∷ (options ++ path ∷ [])))

unfoldable pub mkfs : String → String → String → Bool → List String → Outcome (List String)
unfolding mkfs_ext4 mkfs_xfs
mkfs path fs_type uuid force options =
    if fs_type == "ext4"
    then return (mkfs_ext4 path uuid force options)
    else if fs_type == "xfs"
    then return (mkfs_xfs path uuid force options)
    else raise (value_error ("unsupported filesystem: " <> fs_type))

pub data Kind : Type 0 where
  raw : (device_path : String) → Kind
  sparse : (size : List ℕ) → Kind

-- an object of one of the two classes, over its dict
pub record Volume : Type 0 where
  pub info : VolumeInfo
  pub kind : Kind

-- `_get_volume`
unfoldable pub volume_of : String → VolumeInfo → Outcome Volume
volume_of name info = elim info.raw_block_device [
  | some path ↦ return (record { info = info; kind = raw path })
  | none ↦ elim info.sparse_loop_device [
    | some size ↦ return (record { info = info; kind = sparse size })
    | none ↦ raise (value_error ("unsupported Volume type for Volume " <> name))
  ]
]

unfoldable pub get_volume : Dict VolumeInfo → String → Outcome Volume
unfolding volume_of
get_volume volumes name = elim (Dict.get name volumes) [
  | none ↦ raise (value_error ("volume " <> name <> " not found in pillar"))
  | some info ↦ volume_of name info
]
