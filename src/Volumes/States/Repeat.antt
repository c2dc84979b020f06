-- ===== src/Volumes/States/Repeat.antt =====
-- `present` is idempotent: after it succeeded, the volume is there for the next run.
use metalk8s.Prelude.{
  ℕ, String, ◌<>◌, Bool, true, false, none, some, [], ◌≡◌, refl, inl, inr, arith, if◌then◌else◌,
}
use metalk8s.Prelude.Dict.{Dict}
use metalk8s.Exec.{Exn, exn_text, Outcome, return, raise, unfinished}
use metalk8s.Action.{Action, pure, continue, ◌>>=◌}
use metalk8s.Action.Rules.{Outcome-cases, continue-state}
use metalk8s.Volumes.{VolumeInfo, done, Host, Machine, Kind, raw, sparse, Volume, get_volume}
use metalk8s.Volumes.Quantity.{quantity_to_bytes}
use metalk8s.Volumes.Device.{path, on_volume, exists, exists_kind, create, create_kind}
use metalk8s.Volumes.States.{Ret, ret, attempt, give_up, present}

-- What the code relies on of the file system: a file that is created is there, and truncating a file
-- sets its size and leaves it there.
pub record Files (host : Host) : Type 0 where
  pub created :
      (s : host.State) (file : String)
      → (host.open_exclusive s file).0 ≡ done
      → host.is_file (host.open_exclusive s file).1 file ≡ true
  pub sized :
      (s : host.State) (file : String) (n : ℕ)
      → (host.truncate s file n).0 ≡ done
      → host.get_size (host.truncate s file n).1 file ≡ n
  pub kept :
      (s : host.State) (file : String) (n : ℕ)
      → host.is_file s file ≡ true
      → host.is_file (host.truncate s file n).1 file ≡ true

module _ (host : Host) (files : Files host) where
  create_kind-exists_kind :
      (v : Volume) (kind : Kind) (m : Machine host)
      → (create_kind host v kind m).0 ≡ return tt
      → exists_kind host v kind (create_kind host v kind m).1
        ≡ (return true, (create_kind host v kind m).1)
  unfolding create_kind exists_kind
  create_kind-exists_kind v (raw device_path) m e = cc
  create_kind-exists_kind v (sparse size) m e = elim (Outcome-cases (quantity_to_bytes size)) [
    | inl (n, q) ↦ rw q (
        ground (
          arith,
          q,
          files.created m.state (path v),
          files.sized (host.open_exclusive m.state (path v)).1 (path v) n,
          files.kept (host.open_exclusive m.state (path v)).1 (path v) n,
        ))
    | inr (inl (x, bad)) ↦ ground (arith, bad)
    | inr (inr bad) ↦ ground (arith, bad)
  ]

  create-exists :
      (v : Volume) (m : Machine host)
      → (create host v m).0 ≡ return tt
      → exists host v (create host v m).1 ≡ (return true, (create host v m).1)
  unfolding create exists
  create-exists v m e = create_kind-exists_kind v v.kind m e

  exists-state : (v : Volume) (m : Machine host) → (exists host v m).1 ≡ m
  unfolding exists exists_kind
  exists-state v m = kind_state v.kind
    where
      kind_state : (kind : Kind) → (exists_kind host v kind m).1 ≡ m
      kind_state (raw device_path) = refl
      kind_state (sparse size) = refl

  -- The scheme of `present`: a check that only reads, and an action behind which the check holds.
  module _ (name going_to success : String) (failure : Exn → String)
      (check : Action (Machine host) Bool) (make : Action (Machine host) Unit)
      (reads : (m : Machine host) → (check m).1 ≡ m)
      (makes : (m : Machine host)
        → (make m).0 ≡ return tt
        → check (make m).1 ≡ (return true, (make m).1)) where
    abbrev rest : Bool → Action (Machine host) Ret
    rest already =
        if already
        then pure (ret name none (some true) ("Storage for volume " <> name <> " already exists."))
        else attempt host [] false name "Present" going_to make (give_up host [] false name failure)
            success

    abbrev scheme : Action (Machine host) Ret
    scheme = check >>= rest

    scheme-there :
        (m : Machine host) (first : Ret)
        → (scheme m).0 ≡ return first
        → first.result ≡ some true
        → check (scheme m).1 ≡ (return true, (scheme m).1)
    scheme-there m first e good =
        rw (reads m) (behind (check m).0 refl (make m).0 refl (rw (reads m) at e))
      where
        behind :
            (r : Outcome Bool)
            → (check m).0 ≡ r
            → (r' : Outcome Unit) → (make m).0 ≡ r'
            → (continue (check m).0 rest m).0 ≡ return first
            → check (continue (check m).0 rest m).1 ≡ (return true, (continue (check m).0 rest m).1)
        behind (return true) p r' q e' = rw p (λ i. (p i, reads m i))
        behind (return false) p (return u) q e' = rw p (rw q (makes m q))
        behind (return false) p (raise x) q e' = absurd (cc (p, q, e', good))
        behind (return false) p unfinished q e' = absurd (cc (p, q, e'))
        behind (raise x) p r' q e' = absurd (cc (p, e'))
        behind unfinished p r' q e' = absurd (cc (p, e'))

  present-there :
      (volumes : Dict VolumeInfo) (name : String) (m : Machine host) (first : Ret)
      → (present host volumes false name m).0 ≡ return first
      → first.result ≡ some true
      → let after = (present host volumes false name m).1 in
        on_volume host volumes name (exists host) after ≡ (return true, after)
  unfolding present
  present-there volumes name m first e good =
      scheme-there name ("Storage for volume " <> name <> " is going to be created.")
        ("Storage for volume " <> name <> " created.")
        (λ e. "Cannot create storage for volume " <> name <> ": " <> exn_text e <> ".")
        (on_volume host volumes name (exists host)) (on_volume host volumes name (create host))
        reads makes m first e good
    where
      reads : (m : Machine host) → (on_volume host volumes name (exists host) m).1 ≡ m
      reads m = continue-state (get_volume volumes name) (exists host) m (λ v. exists-state v m)

      makes :
          (m : Machine host)
          → (on_volume host volumes name (create host) m).0 ≡ return tt
          → let after = (on_volume host volumes name (create host) m).1 in
            on_volume host volumes name (exists host) after ≡ (return true, after)
      makes m e = elim (Outcome-cases (get_volume volumes name)) [
        | inl (v, g) ↦ rw g (create-exists v m (rw g at e))
        | inr (inl (x, g)) ↦ absurd (cc (e, g))
        | inr (inr g) ↦ absurd (cc (e, g))
      ]

-- On a file system that keeps what is created and truncated, a second `present` behind one that
-- succeeded finds the storage there: it succeeds, reports no change and leaves the machine.
pub present-present :
    (host : Host) (files : Files host) (volumes : Dict VolumeInfo) (name : String)
    (m : Machine host) (first : Ret)
    → (present host volumes false name m).0 ≡ return first
    → first.result ≡ some true
    → present host volumes false name (present host volumes false name m).1 ≡ (
      return (ret name none (some true) ("Storage for volume " <> name <> " already exists.")),
      (present host volumes false name m).1,
    )
unfolding present
present-present host files volumes name m first e good =
    let there = present-there host files volumes name m first e good in rw there
