-- ===== src/Volumes/Tests.antt =====
-- A small host with one sparse volume, and the theorems on volumes at it.
use metalk8s.Prelude.{
  ℕ, String, ◌<>◌, true, false, Option, none, some, [], ◌∷◌, ◌*◌, ◌^◌, if◌then◌else◌, ◌≡◌, ◌⊎◌, ◌↔◌,
  refl, arith, eq_refl, lower, join, decimal, codes,
}
use metalk8s.Prelude.Dict
use metalk8s.Prelude.Dict.{Dict, get-put, has-put}
use metalk8s.Exec.{return, raise, key_error}
use metalk8s.Volumes.{
  resolved, VolumeInfo, SysReply, done, failed, enoent, code, Probe, Host, Machine, sparse, Volume,
  get_volume,
}
use metalk8s.Volumes.Quantity.{quantity_to_bytes}
use metalk8s.Volumes.Quantity.Laws.{
  gibi, suffix, factor, print, unlisted, quantity_to_bytes-print, quantity_to_bytes-unlisted,
}
use metalk8s.Volumes.Blkid.{nothing_found, get_from_blkid}
use metalk8s.Volumes.Blkid.Blank.{Nothing, get_from_blkid-Nothing}
use metalk8s.Volumes.Device.{path, exists, create, is_cleaned_up, format, on_volume}
use metalk8s.Volumes.Device.Safety.{FoundBlank, MadeFilesystem, format-only_blank}
use metalk8s.Volumes.Device.Liveness.{Formats, format-Formattable}
use metalk8s.Volumes.States.{ret, present, removed}
use metalk8s.Volumes.States.Leftover.{removed-leftover}
use metalk8s.Volumes.States.Repeat.{Files, present-present}

-- The files with their sizes; there is no loop device.
abbrev Disk : Type 0
Disk = Dict ℕ

size_of : Option ℕ → ℕ
size_of none = 0
size_of (some n) = n

make_file : Disk → String → SysReply × Disk
make_file files file =
    if Dict.has file files then (failed 17 "File exists", files) else (done, Dict.put file 0 files)

set_size : Disk → String → ℕ → SysReply × Disk
set_size files file n = (done, Dict.put file n files)

-- a probe that detects nothing
abbrev blank : Probe
blank = record {
  enable_superblocks = λ n. code 0;
  set_superblocks_flags = λ n. code 0;
  enable_partitions = λ n. code 0;
  set_partitions_flags = λ n. code 0;
  do_safeprobe = code 1;
  numof_values = code 0;
  get_value = λ n. (code 0, "", "");
}

abbrev host : Host
host = record {
  State = Disk;
  is_blkdev = λ files file. false;
  is_file = λ files file. Dict.has file files;
  get_size = λ files file. size_of (Dict.get file files);
  open_exclusive = λ files file. make_file files file;
  truncate = λ files file n. set_size files file n;
  unlink = λ files file. (done, Dict.remove file files);
  open_readonly = λ files file. failed enoent "No such file or directory";
  loop_clear = λ files file. (done, files);
  run_all = λ files cmd. (record { retcode = 0; stdout = ""; stderr = "" }, files);
  new_probe = λ files file. some blank;
  loads = λ text. return [];
}

abbrev info : VolumeInfo
info = record {
  uid = "ABC-1";
  storage_class = resolved (("fsType", "ext4") ∷ []);
  raw_block_device = none;
  sparse_loop_device = some (codes "5Gi");
}

abbrev volume : Volume
volume = record { info = info; kind = sparse (codes "5Gi") }

abbrev volumes : Dict VolumeInfo
volumes = ("vol", info) ∷ []

abbrev empty : Machine host
empty = record { state = []; commands = [] }

abbrev file : String
file = "/var/lib/metalk8s/storage/sparse/ABC-1"

-- the machine with the file of the volume
abbrev created : Machine host
created = record { state = (file, 5 * 2 ^ 30) ∷ []; commands = [] }

program : Unit {0}
unfolding Dict.get Dict.put Dict.has Dict.remove size_of make_file set_size get_volume
    quantity_to_bytes present removed is_cleaned_up exists create path get_from_blkid format lower
    join decimal
program = tt

present_creates : (present host volumes false "vol" empty).1 ≡ created
unfolding program
present_creates = refl

formats :
    (on_volume host volumes "vol" (format host) created).1.commands
    ≡ ("mkfs.ext4 -F -U ABC-1 " <> file) ∷ []
unfolding program
formats = refl

host_files : Files host
unfolding make_file set_size size_of
host_files = record {
  created = λ s f e. ground (arith, has-put f f 0 s, eq_refl f);
  sized = λ s f n e. rw (get-put f f n s, eq_refl f) refl;
  kept = λ s f n e. ground (arith, has-put f f n s, eq_refl f);
}

quantity_to_bytes-print_example :
    quantity_to_bytes (print 5 (suffix gibi)) ≡ return (5 * factor gibi)
quantity_to_bytes-print_example = quantity_to_bytes-print 5 gibi (omega arith)

quantity_to_bytes-unlisted_example :
    quantity_to_bytes (print 12 (unlisted false)) ≡ raise (key_error "unit")
quantity_to_bytes-unlisted_example = quantity_to_bytes-unlisted 12 false (omega arith)

get_from_blkid-Nothing_example :
    (probe : Probe) × (host.new_probe [] file ≡ some probe) × Nothing probe
unfolding get_from_blkid Dict.get
get_from_blkid-Nothing_example = get_from_blkid-Nothing host [] file nothing_found refl refl refl

format-only_blank_example :
    ((on_volume host volumes "vol" (format host) created).1 ≡ created)
    ⊎ ((v : Volume) × (get_volume volumes "vol" ≡ return v)
        × FoundBlank host v created
        × MadeFilesystem host v created (on_volume host volumes "vol" (format host) created).1)
format-only_blank_example = format-only_blank host volumes "vol" created

removed-leftover_example : removed host volumes false "vol" created ≡ (
  return (ret "vol" (some "Cleaned up") (some true) "Volume vol cleaned up."),
  record created { commands = ("losetup --associated " <> file) ∷ [] },
)
unfolding program
removed-leftover_example =
    removed-leftover host volumes "vol" volume (codes "5Gi") created
      (record created { commands = ("losetup --associated " <> file) ∷ [] })
      "No such file or directory" refl refl refl refl

present-present_example :
    present host volumes false "vol" (present host volumes false "vol" empty).1 ≡ (
      return (ret "vol" none (some true) "Storage for volume vol already exists."),
      (present host volumes false "vol" empty).1,
    )
unfolding program
present-present_example =
    present-present host host_files volumes "vol" empty
      (ret "vol" (some "Present") (some true) "Storage for volume vol created.") refl refl

format-Formattable_example :
    ((on_volume host volumes "vol" (format host) created).0 ≡ return tt)
    ↔ ((v : Volume) × (get_volume volumes "vol" ≡ return v) × Formats host v created)
format-Formattable_example = format-Formattable host volumes "vol" created

-- and it does return
formatted_once : (on_volume host volumes "vol" (format host) created).0 ≡ return tt
unfolding program
formatted_once = refl
