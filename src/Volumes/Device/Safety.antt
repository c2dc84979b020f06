-- ===== src/Volumes/Device/Safety.antt =====
-- Formatting runs a command only on a device that the probe found blank.
use metalk8s.Prelude.{
  String, join, true, false, List, [], ◌∷◌, ◌++◌, ◌≡◌, ◌⊎◌, inl, inr, refl, ap, Bool-cases,
}
use metalk8s.Prelude.Dict
use metalk8s.Prelude.Dict.{Dict}
use metalk8s.Exec.{return}
use metalk8s.Action.Rules.{Outcome-split, continue-state}
use metalk8s.Action.{pure, ◌>>=◌}
use metalk8s.Volumes.{
  StorageClass, unresolved, resolved, VolumeInfo, Host, Machine, check_result, run_cmd, mkfs,
  Volume, get_volume,
}
use metalk8s.Volumes.Blkid.{DeviceInfo, get_from_blkid}
use metalk8s.Volumes.Device.{path, truthy, text_or, required, make_filesystem, format, on_volume}

-- The command that made the filesystem, and the parts it was made of.
pub record MadeFilesystem (host : Host) (v : Volume) (before after : Machine host) : Type 0 where
  pub fs_type : String
  pub options : List String
  pub words : List String
  pub made : mkfs (path v) fs_type v.info.uid true options ≡ return words
  pub ran : after.commands ≡ before.commands ++ join " " words ∷ []

-- The probe of the device worked, and found neither a filesystem nor a partition table.
pub record FoundBlank (host : Host) (v : Volume) (before : Machine host) : Type 0 where
  pub info : DeviceInfo
  pub probed : get_from_blkid host before.state (path v) ≡ return info
  pub no_filesystem : truthy info.fstype ≡ false
  pub no_partition : info.has_partition ≡ false

module _ (host : Host) where
  ran_command :
      (v : Volume) (cmd : String) (m : Machine host)
      → ((run_cmd host cmd >>= λ _. pure tt) m).1.commands ≡ m.commands ++ cmd ∷ []
  unfolding run_cmd
  ran_command v cmd m =
      let (result, state) = host.run_all m.state cmd in
      let after : Machine host = record { state = state; commands = m.commands ++ cmd ∷ [] } in
      ap (λ (x : Machine host). x.commands)
        (continue-state (check_result cmd result) (λ _. pure tt) after (λ _. refl))

  make_filesystem-MadeFilesystem :
      (v : Volume) (sc : StorageClass) (m : Machine host)
      → ((make_filesystem host v true sc m).1 ≡ m)
        ⊎ MadeFilesystem host v m (make_filesystem host v true sc m).1
  unfolding make_filesystem
  make_filesystem-MadeFilesystem v (unresolved name) m = inl refl
  make_filesystem-MadeFilesystem v (resolved parameters) m =
      elim (Outcome-split (host.loads (text_or (Dict.get "mkfsOptions" parameters) "[]"))) [
        | inr stopped ↦ inl (stopped _ m)
        | inl (options, e) ↦
            rw e (elim (Outcome-split (required "fsType" (Dict.get "fsType" parameters))) [
              | inr stopped ↦ inl (stopped _ m)
              | inl (fs_type, e₂) ↦
                  rw e₂ (elim (Outcome-split (mkfs (path v) fs_type v.info.uid true options)) [
                    | inr stopped ↦ inl (stopped _ m)
                    | inl (words, e₃) ↦ rw e₃ (
                        inr (record {
                          fs_type = fs_type;
                          options = options;
                          words = words;
                          made = e₃;
                          ran = ran_command v (join " " words) m;
                        }))
                  ])
            ])
      ]

  format-FoundBlank :
      (v : Volume) (m : Machine host)
      → ((format host v m).1 ≡ m)
        ⊎ (FoundBlank host v m × MadeFilesystem host v m (format host v m).1)
  unfolding format
  format-FoundBlank v m = elim (Outcome-split (get_from_blkid host m.state (path v))) [
    | inr stopped ↦ inl (stopped _ m)
    | inl (info, e) ↦ rw e (elim (Bool-cases (truthy info.fstype)) [
      | inl typed ↦ rw typed (inl refl)
      | inr untyped ↦ rw untyped (elim (Bool-cases info.has_partition) [
        | inl parted ↦ rw parted (inl refl)
        | inr whole ↦ rw whole (elim (make_filesystem-MadeFilesystem v v.info.storage_class m) [
          | inl same ↦ inl same
          | inr made ↦ inr (
            record { info = info; probed = e; no_filesystem = untyped; no_partition = whole },
            made,
          )
        ])
      ])
    ])
  ]

-- The module's `format` either leaves the machine as it was, or it has run one command more, a mkfs
-- of the device of the volume that the pillar has under the name, and the probe had worked and had
-- found on that device neither a filesystem nor a partition table.
pub format-only_blank :
    (host : Host) (volumes : Dict VolumeInfo) (name : String) (m : Machine host)
    → ((on_volume host volumes name (format host) m).1 ≡ m)
      ⊎ ((v : Volume) × (get_volume volumes name ≡ return v)
          × FoundBlank host v m
          × MadeFilesystem host v m (on_volume host volumes name (format host) m).1)
format-only_blank host volumes name m = elim (Outcome-split (get_volume volumes name)) [
  | inr stopped ↦ inl (stopped _ m)
  | inl (v, e) ↦ rw e (elim (format-FoundBlank host v m) [
    | inl same ↦ inl same
    | inr (blank, made) ↦ inr (v, refl, blank, made)
  ])
]
