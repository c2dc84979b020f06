-- ===== src/Solutions/Activation.antt =====
-- `activate_solution`: when it succeeds, and what is in the configuration file then.
use metalk8s.Prelude.{
  String, ◌<>◌, true, false, ◌||◌, Option, none, some, List, [], ◌∷◌, ◌==◌, if◌then◌else◌, ◌≡◌,
  refl, sym, ap, ◌∙◌, ◌⊎◌, inl, inr, arith, Bool-cases, eq_iff, eq_refl,
}
use mathlib.Core.Bool.{true≢false}
use mathlib.Core.Path.{subst}
use metalk8s.Prelude.Dict
use metalk8s.Prelude.Dict.{Dict, get-put, get-remove}
use metalk8s.Exec.{return, raise, command}
use metalk8s.Solutions.{Config, Minion, is_text, archives_of, active_of, read_config, SolutionInfo}
use metalk8s.Solutions.Available.{
  list_available, has_version, wrong_version, activate_available, activate_solution,
}
use metalk8s.Solutions.Written.{
  Storage, Writable, read_config-Checked, written, read-written, active-Checked,
}

-- Where the mounts can be listed, the configuration read and written, and the mounted archives have
-- the Solution in this version (any, for "latest"), `activate_solution` returns, and reading the
-- configuration again gives this version as the active one, the others and the archives as they were.
pub activate_solution-get :
    (minion : Minion) (storage : Storage minion) (solution version : String) (s : minion.State)
    (available : Dict (List SolutionInfo)) (infos : List SolutionInfo) (config : Config)
    → list_available minion s ≡ return available
    → Dict.get solution available ≡ some infos
    → wrong_version version infos ≡ false
    → read_config minion false s ≡ (return config, s)
    → Writable minion s
    → let after = (activate_solution minion solution version s).1 in
      ((activate_solution minion solution version s).0 ≡ return true)
      × ((changed : Config) × (read_config minion false after ≡ (return changed, after))
          × ((other : String)
              → Dict.get other (active_of changed)
                ≡ (if solution == other then some version else Dict.get other (active_of config)))
          × (archives_of changed ≡ archives_of config))
unfolding activate_solution activate_available
activate_solution-get minion storage solution version s available infos config listed there right e
      works =
    let checked = read_config-Checked minion false s config (ap (λ r. r.0) e) in
    let active = Dict.put solution version (active_of config) in
    let changed : Config = record config { active = some active } in
    rw listed (
      rw there (
        rw e (
          rw right (
            rw (written minion s changed works) (
              refl,
              (
                changed,
                read-written minion storage s changed works
                    (active-Checked minion config active checked),
                (λ other. get-put solution other version (active_of config)),
                refl,
              ),
            )))))

none_is_no_some : {A : Type 0} {a : A} → ¬ (none ≡ some a)
none_is_no_some h = cc

some-injective : {A : Type 0} {a b : A} → some a ≡ some b → a ≡ b
some-injective h = cc

-- Some archive of a Solution has this version.
abbrev pub Carried : String → List SolutionInfo → Type 0
Carried version [] = ⊥
Carried version (info ∷ infos) = (info.version ≡ some version) ⊎ Carried version infos

-- A mounted archive has the Solution, in this version, or in any for "latest".
abbrev pub Offered : Dict (List SolutionInfo) → String → String → Type 0
Offered available solution version =
    (infos : List SolutionInfo) × (Dict.get solution available ≡ some infos)
    × ((version ≡ "latest") ⊎ Carried version infos)

has_version-Carried :
    (version : String) (infos : List SolutionInfo)
    → has_version version infos ≡ true
    → Carried version infos
has_version-Carried version [] h = cc
has_version-Carried version (info ∷ infos) h =
    one info.version refl h (has_version-Carried version infos)
  where
    one :
        (v : Option String)
        → info.version ≡ v
        → is_text v version || has_version version infos ≡ true
        → (has_version version infos ≡ true → Carried version infos)
        → Carried version (info ∷ infos)
    one none e h rest = inr (rest h)
    one (some v) e h rest = elim (Bool-cases (v == version)) [
      | inl same ↦ inl (e ∙ ap (λ x. some x) ((eq_iff v version).0 same))
      | inr other ↦ inr (rest (rw other at h))
    ]

Carried-has_version :
    (version : String) (infos : List SolutionInfo)
    → Carried version infos
    → has_version version infos ≡ true
Carried-has_version version [] h = absurd h
Carried-has_version version (info ∷ infos) (inl e) = rw e (rw (eq_refl version) refl)
Carried-has_version version (info ∷ infos) (inr h) =
    let rest = Carried-has_version version infos h in ground arith

-- whether the version is taken, for a Solution that was found
taken :
    (version : String) (infos : List SolutionInfo)
    → ((wrong_version version infos ≡ false) × ((version ≡ "latest") ⊎ Carried version infos))
      ⊎ ((wrong_version version infos ≡ true) × (¬ ((version ≡ "latest") ⊎ Carried version infos)))
taken version infos = elim (Bool-cases (version == "latest")) [
  | inl latest ↦ inl (ground arith, inl ((eq_iff version "latest").0 latest))
  | inr named ↦ elim (Bool-cases (has_version version infos)) [
    | inl has ↦ inl (ground arith, inr (has_version-Carried version infos has))
    | inr lacks ↦ inr (ground arith, neither named lacks)
  ]
]
  where
    neither :
        version == "latest" ≡ false
        → has_version version infos ≡ false
        → ¬ ((version ≡ "latest") ⊎ Carried version infos)
    neither named lacks (inl same) =
        absurd (true≢false (sym ((eq_iff version "latest").1 same) ∙ named))
    neither named lacks (inr has) =
        absurd (true≢false (sym (Carried-has_version version infos has) ∙ lacks))

-- Where the mounts can be listed and the configuration read and written, `activate_solution` returns
-- true for a Solution that a mounted archive has in this version, or in any for "latest", and for
-- every other one raises a `CommandExecutionError` and leaves the minion.
pub activate_solution-Offered :
    (minion : Minion) (solution version : String) (s : minion.State)
    (available : Dict (List SolutionInfo)) (config : Config)
    → list_available minion s ≡ return available
    → read_config minion false s ≡ (return config, s)
    → Writable minion s
    → (Offered available solution version
        × ((activate_solution minion solution version s).0 ≡ return true))
      ⊎ ((¬ Offered available solution version)
          × ((text : String) × (activate_solution minion solution version s
                ≡ (raise (command text []), s))))
unfolding activate_solution activate_available
activate_solution-Offered minion solution version s available config listed e works =
    rw listed (found (Dict.get solution available) refl)
  where
    found :
        (infos : Option (List SolutionInfo))
        → Dict.get solution available ≡ infos
        → (Offered available solution version
            × ((activate_available minion solution version infos s).0 ≡ return true))
          ⊎ ((¬ Offered available solution version)
              × ((text : String) × (activate_available minion solution version infos s
                    ≡ (raise (command text []), s))))
    found none h = inr (
      (λ o. absurd (none_is_no_some (sym h ∙ o.1))),
      ("Cannot activate Solution \"" <> solution <> "\": not available", refl),
    )
    found (some infos) h = elim (taken version infos) [
      | inl (right, offered) ↦
          inl ((infos, h, offered), rw e (rw right (rw (written minion s _ works) refl)))
      | inr (wrong, refused) ↦ inr (
        (λ o. refused (
            subst (λ x. (version ≡ "latest") ⊎ Carried version x) (some-injective (sym o.1 ∙ h))
              o.2)),
        (
          "Cannot activate version \"" <> version <> "\" for Solution \"" <> solution
              <> "\": not available",
          rw e (rw wrong refl),
        ),
      )
    ]
