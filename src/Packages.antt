-- ===== src/Packages.antt =====
-- salt/_modules/metalk8s_package_manager_yum.py: the packages that must be installed with a package.
pub mod Installed
mod Tests
use Prim.Native.Char.{code}
use metalk8s.Prelude.{
  ℕ, String, ◌<>◌, Bool, true, false, not, ◌&&◌, Option, none, some, List, [], ◌∷◌, ◌++◌, is_empty,
  nat_eq, ◌==◌, if◌then◌else◌,
}
use metalk8s.Prelude.Dict
use metalk8s.Prelude.Dict.{Dict}
use metalk8s.Exec.{Outcome, return, raise, ◌>>=◌, value_error, type_error, key_error, command}
use metalk8s.Archives.{strip}

-- what `cmd.run_all` gives: the exit code, and the words of each line that was written
pub record Result : Type 0 where
  pub retcode : ℕ
  pub stdout : List (List String)

abbrev pub Run : Type 0
Run = List String → Result

-- `if req_version == allowed_versions.get(req_name)`
abbrev is_allowed : Dict String → String → String → Bool
is_allowed allowed name version = elim (Dict.get name allowed) [
  | none ↦ false
  | some v ↦ version == v
]

-- the loop over the lines, each of which must have two words
unfoldable pub filter_lines : Dict String → List (List String) → Dict String → Outcome (Dict String)
filter_lines allowed [] dependents = return dependents
filter_lines allowed ((name ∷ version ∷ []) ∷ lines) dependents =
    let next = filter_lines allowed lines in
    if is_allowed allowed name version
    then next (Dict.put name version dependents)
    else next dependents
filter_lines allowed (words ∷ lines) dependents = raise (value_error "a line has not two words")

abbrev repositories : Option String → List String
repositories none = []
repositories (some fromrepo) =
    if fromrepo == "" then [] else "--disablerepo" ∷ "*" ∷ "--enablerepo" ∷ fromrepo ∷ []

abbrev repoquery : String → String → Option String → List String
repoquery name version fromrepo =
    "repoquery"
    ∷ "--whatrequires"
    ∷ "--recursive"
    ∷ "--qf"
    ∷ "%{NAME} %{VERSION}-%{RELEASE}"
    ∷ (name <> "-" <> version)
    ∷ repositories fromrepo

-- `_list_dependents`
unfoldable pub list_dependents :
    Run → String → String → Option String → Dict String → Outcome (Option (Dict String))
list_dependents run name version fromrepo allowed =
    let ret = run (repoquery name version fromrepo) in
    if not (nat_eq ret.retcode 0)
    then return none
    else (filter_lines allowed ret.stdout [] >>= λ d. return (some d))

-- `all_pkgs.update(dependents)`
unfoldable pub update : Dict String → Dict String → Dict String
update all_pkgs [] = all_pkgs
update all_pkgs ((name, version) ∷ dependents) = update (Dict.put name version all_pkgs) dependents

-- the answer of `rpm -qa`
abbrev pub rpm : Run → String → Result
rpm run name = run ("rpm" ∷ "-qa" ∷ name ∷ [])

abbrev pub is_installed : Run → String → Bool
is_installed run name = not (is_empty (rpm run name).stdout)

-- the loop over the packages, of which a dependent that is not installed is deleted
unfoldable pub keep_installed : Run → String → Dict String → Dict String → Option (Dict String)
keep_installed run name [] all_pkgs = some all_pkgs
keep_installed run name ((pkg_name, version) ∷ items) all_pkgs =
    let next = keep_installed run name items in
    if not (nat_eq (rpm run pkg_name).retcode 0)
    then none
    else if not (is_installed run pkg_name) && not (pkg_name == name)
    then next (Dict.remove pkg_name all_pkgs)
    else next all_pkgs

abbrev pub with_salt : String → String → Dict String
with_salt name version = elim (strip "salt-" name) [
  | none ↦ (name, version) ∷ []
  | some rest ↦ Dict.put "salt" version ((name, version) ∷ [])
]

-- `_list_dependents` gives `None` where repoquery fails, and `update` does not take it
abbrev pub joined : Run → String → String → Option (Dict String) → Outcome (Option (Dict String))
joined run name version none = raise (type_error "'NoneType' object is not iterable")
joined run name version (some dependents) =
    let all_pkgs = update (with_salt name version) dependents in
    return (keep_installed run name all_pkgs all_pkgs)

-- whether the information has another version of the package, or none
abbrev pub other_version : Dict String → String → String → Bool
other_version [] name version = false
other_version (p ∷ pkgs_info) name version = elim (Dict.get name (p ∷ pkgs_info)) [
  | none ↦ true
  | some v ↦ not (v == version)
]

-- `list_pkg_dependents` with a version that is given
unfoldable pub list_pkg_dependents :
    Run → String → String → Option String → Dict String → Outcome (Option (Dict String))
list_pkg_dependents run name version fromrepo pkgs_info =
    if other_version pkgs_info name version
    then return none
    else (list_dependents run name version fromrepo pkgs_info >>= λ d. joined run name version d)

-- what the version of a package may be: the release stands behind the first dash
pub record Wanted : Type 0 where
  pub name : String
  pub version : Option String
  pub release : Option String

-- `version.split('-', 1)`
unfoldable pub split_dash : String → String × Option String
split_dash String.[] = ("", none)
split_dash (String.◌∷◌ c s) =
    if nat_eq (code c) 45 then ("", some s) else (String.◌∷◌ c (split_dash s).0, (split_dash s).1)

abbrev wanted : String → Option String → Wanted
wanted name none = record { name = name; version = none; release = none }
wanted name (some v) =
    if v == ""
    then record { name = name; version = some v; release = none }
    else record { name = name; version = some (split_dash v).0; release = (split_dash v).1 }

-- What the code calls of yum: an install that may have no candidate, and the test transaction with
-- its error.
pub record Yum : Type 0 where
  pub can_install : Wanted → Bool
  pub transaction_error : List Wanted → Option String

abbrev version_part : Option String → String
version_part none = ""
version_part (some v) = if v == "" then "" else "-" <> v

unfoldable pub install_all : Yum → Dict (Option String) → List Wanted → Outcome (List Wanted)
install_all yum [] chosen = return chosen
install_all yum ((name, version) ∷ pkgs) chosen =
    let w = wanted name version in
    let next = install_all yum pkgs (chosen ++ w ∷ []) in
    if yum.can_install w
    then next
    else raise (command ("No candidate found for package: " <> name <> version_part w.version) [])

unfoldable pub check_pkg_availability : Yum → Dict (Option String) → Outcome (Unit {0})
check_pkg_availability yum pkgs_info = install_all yum pkgs_info [] >>= λ chosen.
    elim (yum.transaction_error chosen) [
      | none ↦ return tt
      | some e ↦ raise (command ("Some package dependencies are missing: " <> e) [])
    ]
