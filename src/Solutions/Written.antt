-- ===== src/Solutions/Written.antt =====
-- What is in the configuration file behind the operations that write it.
use metalk8s.Prelude.{
  String, Bool, true, false, not, Option, none, some, List, [], ◌∷◌, ◌++◌, contains, ◌==◌,
  if◌then◌else◌, ◌≡◌, refl, ap, arith, eq_iff,
}
use metalk8s.Prelude.Dict
use metalk8s.Prelude.Dict.{Dict, get-put, get-remove}
use metalk8s.Exec.{Outcome, return, raise, unfinished}
use metalk8s.Action.{lift, continue}
use metalk8s.Solutions.{
  Config, Minion, document, check_config, archives_of, active_of, remove_first, set_archive,
  read_config, load_config_file, take_loaded, write_config_file, configure_archive,
  deactivate_solution,
}

-- What the code relies on of the file and of YAML: what was stored is loaded again.
pub record Storage (minion : Minion) : Type 0 where
  pub stored :
      (s : minion.State) (config : Config)
      → (minion.store s config).0 ≡ none
      → minion.load (minion.store s config).1 ≡ document (some config)

-- No archive is listed twice.
abbrev pub IsDistinct : List String → Type 0
IsDistinct [] = Unit
IsDistinct (x ∷ xs) = (contains x xs ≡ false) × IsDistinct xs

contains-remove_first :
    (archive other : String) (archives : List String)
    → IsDistinct archives
    → contains other (remove_first archive archives)
      ≡ (if archive == other then false else contains other archives)
unfolding remove_first
contains-remove_first archive other [] d = ground arith
contains-remove_first archive other (x ∷ xs) d = ground (
  arith,
  eq_iff archive other,
  eq_iff x archive,
  eq_iff x other,
  contains-remove_first archive other xs d.1,
)

contains-append :
    (archive other : String) (archives : List String)
    → contains other (archives ++ archive ∷ [])
      ≡ (if archive == other then true else contains other archives)
contains-append archive other [] = ground arith
contains-append archive other (x ∷ xs) = ground (arith, contains-append archive other xs)

set_archive-contains :
    (archive other : String) (removed : Bool) (archives : List String)
    → IsDistinct archives
    → contains other (set_archive archive removed archives)
      ≡ (if archive == other then not removed else contains other archives)
unfolding set_archive
set_archive-contains archive other removed archives d = ground (
  arith,
  eq_iff archive other,
  contains-remove_first archive other archives d,
  contains-append archive other archives,
)

remove_first-IsDistinct :
    (archive : String) (archives : List String)
    → IsDistinct archives
    → IsDistinct (remove_first archive archives)
unfolding remove_first
remove_first-IsDistinct archive [] d = tt
remove_first-IsDistinct archive (x ∷ xs) d =
    ground (arith, remove_first-IsDistinct archive xs d.1, contains-remove_first archive x xs d.1)

append-IsDistinct :
    (archive : String) (archives : List String)
    → contains archive archives ≡ false
    → IsDistinct archives
    → IsDistinct (archives ++ archive ∷ [])
append-IsDistinct archive [] fresh d = (refl, tt)
append-IsDistinct archive (x ∷ xs) fresh d = ground (
  arith,
  eq_iff archive x,
  eq_iff x archive,
  append-IsDistinct archive xs,
  contains-append archive x xs,
)

set_archive-IsDistinct :
    (archive : String) (removed : Bool) (archives : List String)
    → IsDistinct archives
    → IsDistinct (set_archive archive removed archives)
unfolding set_archive
set_archive-IsDistinct archive removed archives d =
    ground (arith, remove_first-IsDistinct archive archives d, append-IsDistinct archive archives)

-- What `read_config` gives has the right kind and version, and both containers.
pub record Checked (config : Config) : Type 0 where
  checks : check_config (some config) ≡ return config

check_config-Checked :
    (o : Option Config) (config : Config) → check_config o ≡ return config → Checked config
unfolding check_config
check_config-Checked none config e = absurd cc
check_config-Checked (some c) config e = record { checks = ground (arith, e) }

module _ (minion : Minion) where
  -- Writing to the file works.
  abbrev pub Writable : minion.State → Type 0
  Writable s = (config : Config) → (minion.store s config).0 ≡ none

  pub read_config-Checked :
      (create : Bool) (s : minion.State) (config : Config)
      → (read_config minion create s).0 ≡ return config
      → Checked config
  unfolding read_config
  read_config-Checked create s config e =
      outcome (load_config_file minion create s).0 (load_config_file minion create s).1 e
    where
      outcome :
          (r : Outcome (Option Config)) (s : minion.State)
          → (continue r (λ o. lift (check_config o)) s).0 ≡ return config
          → Checked config
      outcome (return o) s e = check_config-Checked o config e
      outcome (raise x) s e = absurd cc
      outcome unfinished s e = absurd cc

  pub written :
      (s : minion.State) (config : Config)
      → Writable s
      → write_config_file minion config s ≡ (return tt, (minion.store s config).1)
  unfolding write_config_file
  written s config works = ground (arith, works config)

  -- What was written is read again.
  pub read-written :
      (storage : Storage minion) (s : minion.State) (config : Config)
      → Writable s
      → Checked config
      → read_config minion false (minion.store s config).1
        ≡ (return config, (minion.store s config).1)
  unfolding read_config load_config_file take_loaded
  read-written storage s config works c =
      rw (storage.stored s config (works config)) (rw c.checks refl)

  -- A configuration stays checked when a container changes.
  archives-Checked :
      (config : Config) (archives : List String)
      → Checked config
      → Checked (record config { archives = some archives })
  unfolding check_config
  archives-Checked config archives c = record { checks = ground (arith, c.checks) }

  pub active-Checked :
      (config : Config) (active : Dict String)
      → Checked config
      → Checked (record config { active = some active })
  unfolding check_config
  active-Checked config active c = record { checks = ground (arith, c.checks) }

-- Where the configuration can be read and written, `configure_archive` returns, and reading the
-- configuration again gives the archives with this one in or out, the others as they were, none
-- twice, and the same active versions.
pub configure_archive-contains :
    (minion : Minion) (storage : Storage minion) (archive : String) (create removed : Bool)
    (s readied : minion.State) (config : Config)
    → read_config minion create s ≡ (return config, readied)
    → Writable minion readied
    → IsDistinct (archives_of config)
    → let after = (configure_archive minion archive create removed s).1 in
      ((configure_archive minion archive create removed s).0 ≡ return true)
      × ((changed : Config) × (read_config minion false after ≡ (return changed, after))
          × ((other : String)
              → contains other (archives_of changed)
                ≡ (if archive == other then not removed else contains other (archives_of config)))
          × IsDistinct (archives_of changed)
          × (active_of changed ≡ active_of config))
unfolding configure_archive
configure_archive-contains minion storage archive create removed s readied config e works d =
    let checked = read_config-Checked minion create s config (ap (λ r. r.0) e) in
    let archives = set_archive archive removed (archives_of config) in
    let changed : Config = record config { archives = some archives } in
    rw (e, written minion readied changed works)
      (
        refl,
        (
          changed,
          read-written minion storage readied changed works
              (archives-Checked minion config archives checked),
          (λ other. set_archive-contains archive other removed (archives_of config) d),
          set_archive-IsDistinct archive removed (archives_of config) d,
          refl,
        ),
      )

-- Where the configuration can be read and written, `deactivate_solution` returns, and reading the
-- configuration again gives no active version of the Solution, the others and the archives as they
-- were.
pub deactivate_solution-get :
    (minion : Minion) (storage : Storage minion) (solution : String) (s : minion.State)
    (config : Config)
    → read_config minion false s ≡ (return config, s)
    → Writable minion s
    → let after = (deactivate_solution minion solution s).1 in
      ((deactivate_solution minion solution s).0 ≡ return true)
      × ((changed : Config) × (read_config minion false after ≡ (return changed, after))
          × ((other : String)
              → Dict.get other (active_of changed)
                ≡ (if solution == other then none else Dict.get other (active_of config)))
          × (archives_of changed ≡ archives_of config))
unfolding deactivate_solution
deactivate_solution-get minion storage solution s config e works =
    let checked = read_config-Checked minion false s config (ap (λ r. r.0) e) in
    let active = Dict.remove solution (active_of config) in
    let changed : Config = record config { active = some active } in
    rw (e, written minion s changed works)
      (
        refl,
        (
          changed,
          read-written minion storage s changed works (active-Checked minion config active checked),
          (λ other. get-remove solution other (active_of config)),
          refl,
        ),
      )
