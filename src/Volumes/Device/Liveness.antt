-- ===== src/Volumes/Device/Liveness.antt =====
-- When `format` succeeds: exactly on a blank device that can be formatted.
use metalk8s.Prelude.{
  String, join, true, false, Option, none, some, List, [], ◌∷◌, ◌++◌, nat_eq, ◌≡◌, ◌↔◌, refl, ap,
  Bool-cases, inl, inr,
}
use metalk8s.Prelude.Dict
use metalk8s.Prelude.Dict.{Dict}
use metalk8s.Exec.{Outcome, return, raise, unfinished}
use metalk8s.Action.{Action, continue}
use metalk8s.Action.Rules.{return-injective}
use metalk8s.Volumes.{
  StorageClass, unresolved, resolved, CommandResult, VolumeInfo, Host, Machine, check_result,
  run_cmd, mkfs, Volume, get_volume,
}
use metalk8s.Volumes.Blkid.{DeviceInfo, get_from_blkid}
use metalk8s.Volumes.Device.{
  path, truthy, text_or, required, make_filesystem, format_with, format, on_volume,
}

-- What a format needs: a blank device, a storage class that was found, and parameters that name a
-- filesystem with a mkfs and options that can be read. `words` is the command they give.
pub record Formattable (host : Host) (v : Volume) (m : Machine host) (words : List String)
    : Type 0 where
  pub info : DeviceInfo
  pub parameters : Dict String
  pub options : List String
  pub fs_type : String
  pub probed : get_from_blkid host m.state (path v) ≡ return info
  pub no_filesystem : truthy info.fstype ≡ false
  pub no_partition : info.has_partition ≡ false
  pub has_class : v.info.storage_class ≡ resolved parameters
  pub has_options : host.loads (text_or (Dict.get "mkfsOptions" parameters) "[]") ≡ return options
  pub has_type : Dict.get "fsType" parameters ≡ some fs_type
  pub made : mkfs (path v) fs_type v.info.uid true options ≡ return words

format-runs :
    (host : Host) (volumes : Dict VolumeInfo) (name : String) (m : Machine host) (v : Volume)
    (words : List String)
    → get_volume volumes name ≡ return v
    → Formattable host v m words
    → nat_eq (host.run_all m.state (join " " words)).0.retcode 0 ≡ true
    → on_volume host volumes name (format host) m ≡ (
      return tt,
      record {
        state = (host.run_all m.state (join " " words)).1;
        commands = m.commands ++ join " " words ∷ [];
      },
    )
unfolding format format_with make_filesystem run_cmd check_result path
format-runs host volumes name m v words known f exits = rw known (
    rw f.probed (
      rw f.no_filesystem (
        rw f.no_partition
          (rw f.has_class (rw f.has_options (rw f.has_type (rw f.made (rw exits refl))))))))

-- an action that returned had a first part that returned
continue-eq-return :
    {S A B : Type 0} (r : Outcome A) (f : A → Action S B) (s : S) {b : B}
    → (continue r f s).0 ≡ return b
    → (a : A) × (r ≡ return a) × ((f a s).0 ≡ return b)
continue-eq-return (return a) f s e = (a, refl, e)
continue-eq-return (raise x) f s e = absurd cc
continue-eq-return unfinished f s e = absurd cc

required-return :
    (key : String) (found : Option String) {text : String}
    → required key found ≡ return text
    → found ≡ some text
required-return key none e = cc
required-return key (some t) e = ap (λ x. some x) (return-injective e)

check_result-return :
    (cmd : String) (result : CommandResult) {r : CommandResult}
    → check_result cmd result ≡ return r
    → nat_eq result.retcode 0 ≡ true
unfolding check_result
check_result-return cmd result e = elim (Bool-cases (nat_eq result.retcode 0)) [
  | inl exits ↦ exits
  | inr fails ↦ absurd (cc (rw fails at e))
]

module _ (host : Host) (v : Volume) (m : Machine host) where
  -- The device is one that can be formatted, and its mkfs exits with 0.
  abbrev pub Formats : Type 0
  Formats =
      (words : List String) × Formattable host v m words
      × (nat_eq (host.run_all m.state (join " " words)).0.retcode 0 ≡ true)

  make_filesystem-Formats :
      (info : DeviceInfo) (sc : StorageClass)
      → get_from_blkid host m.state (path v) ≡ return info
      → truthy info.fstype ≡ false
      → info.has_partition ≡ false
      → v.info.storage_class ≡ sc
      → (make_filesystem host v true sc m).0 ≡ return tt
      → Formats
  unfolding make_filesystem run_cmd
  make_filesystem-Formats info (unresolved name) probed typed parted class e = absurd cc
  make_filesystem-Formats info (resolved parameters) probed typed parted class e =
      let (options, loaded, e₁) = continue-eq-return _ _ m e in
      let (fs_type, named, e₂) = continue-eq-return _ _ m e₁ in
      let (words, made, e₃) = continue-eq-return _ _ m e₂ in
      let (result, ran, e₄) = continue-eq-return _ _ _ e₃ in
      (
        words,
        record {
          info = info;
          parameters = parameters;
          options = options;
          fs_type = fs_type;
          probed = probed;
          no_filesystem = typed;
          no_partition = parted;
          has_class = class;
          has_options = loaded;
          has_type = required-return "fsType" (Dict.get "fsType" parameters) named;
          made = made;
        },
        check_result-return _ _ ran,
      )

  format-Formats : (format host v m).0 ≡ return tt → Formats
  unfolding format format_with
  format-Formats e =
      let (info, probed, e₁) = continue-eq-return (get_from_blkid host m.state (path v)) _ m e in
      elim (Bool-cases (truthy info.fstype)) [
        | inl typed ↦ absurd (cc (rw typed at e₁))
        | inr untyped ↦ elim (Bool-cases info.has_partition) [
          | inl parted ↦ absurd (cc (rw (untyped, parted) at e₁))
          | inr whole ↦
              make_filesystem-Formats info v.info.storage_class probed untyped whole refl
                (rw (untyped, whole) at e₁)
        ]
      ]

-- The module's `format` returns exactly if the pillar has the volume, the probe of its device worked
-- and found neither a filesystem nor a partition table, the storage class was found, with options that
-- can be read and a filesystem that has a mkfs, and this mkfs of the device exits with 0.
pub format-Formattable :
    (host : Host) (volumes : Dict VolumeInfo) (name : String) (m : Machine host)
    → ((on_volume host volumes name (format host) m).0 ≡ return tt)
      ↔ ((v : Volume) × (get_volume volumes name ≡ return v) × Formats host v m)
format-Formattable host volumes name m = (
  (λ e.
      let (v, known, e₁) = continue-eq-return (get_volume volumes name) (format host) m e in
      (v, known, format-Formats host v m e₁)),
  (λ f. ap (λ r. r.0) (format-runs host volumes name m f.0 f.2.0 f.1 f.2.1 f.2.2)),
)
