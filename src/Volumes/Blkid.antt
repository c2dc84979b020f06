-- ===== src/Volumes/Blkid.antt =====
-- salt/_utils/volume_utils.py: the libblkid wrapper, and `_get_from_blkid` of
-- salt/_modules/metalk8s_volumes.py. Every call of the library is checked, so that "nothing found"
-- is told apart from "could not look".
pub mod Blank
use Prim.Native.Nat.{bit_or}
use metalk8s.Prelude.{
  ℕ, zero, suc, ◌+◌, ◌^◌, String, ◌<>◌, Bool, true, false, Option, none, some, List, [], ◌∷◌,
  nat_eq, ◌==◌, if◌then◌else◌,
}
use metalk8s.Prelude.Dict
use metalk8s.Prelude.Dict.{Dict}
use metalk8s.Exec.{Outcome, return, raise, attribute_error, blkid_error, type_error, ◌>>=◌, ◌>>◌}
use metalk8s.Volumes.{Code, negative, code, Probe, Host}

pub record DeviceInfo : Type 0 where
  pub fstype : Option String
  pub uuid : Option String
  pub has_partition : Bool

-- `_check_error_code`. Where the call failed, `BlkidError` joins the arguments of the call for its
-- message; the first is a pointer, which `join` does not take.
unfoldable pub check_error_code : Code → Outcome ℕ
check_error_code negative = raise (type_error "sequence item 0: expected string, int found")
check_error_code (code n) = return n

-- `_check_null_pointer`
unfoldable pub check_null_pointer : String → String → Option Probe → Outcome Probe
check_null_pointer function argument none =
    raise (blkid_error ("function call " <> function <> "(" <> argument <> ") failed"))
check_null_pointer function argument (some probe) = return probe

-- `SUBLKS_DEFAULT`
abbrev pub default_superblocks : ℕ
default_superblocks = bit_or (2 ^ 1) (bit_or (2 ^ 3) (bit_or (2 ^ 5) (2 ^ 6)))

-- the attributes of `SuperblockFlags`, by name
unfoldable pub superblock_flags : Dict ℕ
superblock_flags =
    ("LABEL", 2 ^ 1)
    ∷ ("LABELRAW", 2 ^ 2)
    ∷ ("UUID", 2 ^ 3)
    ∷ ("UUIDRAW", 2 ^ 4)
    ∷ ("TYPE", 2 ^ 5)
    ∷ ("SECTYPE", 2 ^ 6)
    ∷ ("USAGE", 2 ^ 7)
    ∷ ("VERSION", 2 ^ 8)
    ∷ ("MAGIC", 2 ^ 9)
    ∷ ("BADCSUM", 2 ^ 10)
    ∷ ("DEFAULT", default_superblocks)
    ∷ []

-- `_get_flags` behind its first test: `getattr` of each name, and the bitwise or of the flags so far
unfoldable pub flags_from : Dict ℕ → ℕ → List String → Outcome ℕ
flags_from klass acc [] = return acc
flags_from klass acc (name ∷ names) = elim (Dict.get name klass) [
  | none ↦ raise (attribute_error name)
  | some flag ↦ flags_from klass (bit_or acc flag) names
]

unfoldable pub get_flags : Dict ℕ → ℕ → List String → Outcome ℕ
unfolding flags_from
get_flags klass default [] = return default
get_flags klass default (name ∷ names) = flags_from klass 0 (name ∷ names)

-- `get_superblock_flags`
unfoldable pub get_superblock_flags : List String → Outcome ℕ
unfolding get_flags superblock_flags
get_superblock_flags names = get_flags superblock_flags default_superblocks names

-- `_Probe.configure`
unfoldable pub configure : Probe → Bool → ℕ → Bool → ℕ → Outcome (Unit {0})
unfolding check_error_code
configure probe use_superblocks superblocks_flags use_partitions partitions_flags = do
  check_error_code (probe.enable_superblocks (if use_superblocks then 1 else 0))
  check_error_code (probe.set_superblocks_flags (if use_superblocks then superblocks_flags else 0))
  check_error_code (probe.enable_partitions (if use_partitions then 1 else 0))
  check_error_code (probe.set_partitions_flags (if use_partitions then partitions_flags else 0))
  return tt

-- the loop over the values, from `index` on: `left` values are still to be read
unfoldable pub read_values : Probe → ℕ → ℕ → Dict String → Outcome (Dict String)
unfolding check_error_code
read_values probe index zero info = return info
read_values probe index (suc left) info = do
  let (result, name, text) = probe.get_value index
  check_error_code result
  read_values probe (index + 1) left (Dict.put name text info)

abbrev pub nothing_found : DeviceInfo
nothing_found = record { fstype = none; uuid = none; has_partition = false }

abbrev pub info_from : Dict String → DeviceInfo
info_from info = record {
  fstype = Dict.get "TYPE" info;
  uuid = Dict.get "UUID" info;
  has_partition = Dict.has "PTTYPE" info;
}

-- the part of `_Probe.probe` behind the early return
unfoldable pub probe_values : Probe → Outcome DeviceInfo
unfolding check_error_code read_values
probe_values probe = do
  number ← check_error_code probe.numof_values
  info ← read_values probe 0 number []
  return (info_from info)

-- `_Probe.probe`
unfoldable pub probe_device : Probe → Outcome DeviceInfo
unfolding check_error_code probe_values
probe_device probe = do
  found ← check_error_code probe.do_safeprobe
  if nat_eq found 1 then return nothing_found else probe_values probe

-- `_get_from_blkid`; freeing the probe in `get_blkid_probe` leaves nothing behind
unfoldable pub get_from_blkid : (host : Host) → host.State → String → Outcome DeviceInfo
unfolding get_superblock_flags check_null_pointer configure probe_device
get_from_blkid host state path = do
  flags ← get_superblock_flags ("UUID" ∷ "TYPE" ∷ [])
  probe ← check_null_pointer "blkid_new_probe_from_filename" path (host.new_probe state path)
  configure probe true flags true 0
  probe_device probe
