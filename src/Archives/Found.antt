-- ===== src/Archives/Found.antt =====
-- salt/_modules/metalk8s.py: `get_archives`.
pub mod Last
use metalk8s.Prelude.{
  ℕ, String, ◌<>◌, Bool, true, false, Option, none, some, List, [], ◌∷◌, ◌==◌, if◌then◌else◌,
}
use metalk8s.Prelude.Dict
use metalk8s.Prelude.Dict.{Dict}
use metalk8s.Exec.{Outcome, return, raise, ◌>>=◌, command}
use metalk8s.Archives.{ArchiveInfo, archive_info_from_tree, archive_info_from_iso}

-- what a path leads to: a directory with the lines of its product.txt, or a file with what isoinfo
-- gives for it
pub data Found : Type 0 where
  directory : Option (List String) → Found
  file : ℕ → List String → String → Found
  neither : Found

pub record Archive : Type 0 where
  pub info : ArchiveInfo
  pub path : String
  pub iso : Option String

-- `archives`, and the pillar's: nothing, a text, a list or another value
pub data Given : Type 0 where
  nothing : Given
  one_path : String → Given
  paths : List String → Given
  other_value : String → Given

-- `'{0}'.format(version)`
abbrev pub version_text : Option String → String
version_text none = "None"
version_text (some v) = v

abbrev pub env_name : ArchiveInfo → String
env_name info = "metalk8s-" <> version_text info.version

-- one turn of the loop: the environment and the archive, or nothing for a path that is skipped
unfoldable pub inspect : String → Found → Outcome (Option (String × Archive))
unfolding archive_info_from_tree archive_info_from_iso
inspect archive (directory product) = archive_info_from_tree archive product >>= λ info.
    return (some (env_name info, record { info = info; path = archive; iso = none }))
inspect archive (file retcode lines stderr) = archive_info_from_iso retcode lines stderr >>= λ info.
    return (
      some (
        env_name info,
        record { info = info; path = "/srv/scality/" <> env_name info; iso = some archive },
      ))
inspect archive neither = return none

abbrev pub add_found : Option (String × Archive) → Dict Archive → Dict Archive
add_found none res = res
add_found (some p) res = Dict.put p.0 p.1 res

unfoldable pub collect : (String → Found) → List String → Dict Archive → Outcome (Dict Archive)
unfolding inspect
collect files [] res = return res
collect files (archive ∷ archives) res =
    inspect archive (files archive) >>= λ p. collect files archives (add_found p res)

abbrev paths_of : Given → Outcome (List String)
paths_of nothing = return []
paths_of (one_path p) = return (p ∷ [])
paths_of (paths ps) = return ps
paths_of (other_value v) =
    raise (command ("Invalid archives: list or string expected, got " <> v) [])

-- `if not archives`
abbrev or_pillar : Given → Given → Given
or_pillar nothing pillar = pillar
or_pillar (one_path p) pillar = if p == "" then pillar else one_path p
or_pillar (paths []) pillar = pillar
or_pillar given pillar = given

unfoldable pub get_archives : (String → Found) → Given → Given → Outcome (Dict Archive)
unfolding collect
get_archives files pillar archives =
    paths_of (or_pillar archives pillar) >>= λ ps. collect files ps []
