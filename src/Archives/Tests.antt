-- ===== src/Archives/Tests.antt =====
-- The text of a product.txt, and the theorem on its keys at it.
use metalk8s.Prelude.{String, ◌==◌, if◌then◌else◌, none, ◌<>◌, some, [], ◌∷◌, ◌≡◌, refl}
use metalk8s.Prelude.Dict
use metalk8s.Archives.Found.{
  Found, directory, neither, Archive, nothing, paths, inspect, collect, get_archives,
}
use metalk8s.Archives.Found.Last.{last_of, get_archives-last}
use metalk8s.Archives.{
  archive_info_from_tree, search_line, search_line-first, get_archive_info, strip,
}

parse :
    get_archive_info ("NAME=MetalK8s" ∷ "VERSION=" ∷ "VERSION=2.5" ∷ [])
    ≡ record { version = some "2.5"; name = some "MetalK8s" }
unfolding get_archive_info strip
parse = refl

search_line-first_example :
    search_line "VERSION" ("NAME=MetalK8s" ∷ ("VERSION=" <> "2.5") ∷ "VERSION=3" ∷ []) ≡ some "2.5"
unfolding strip
search_line-first_example =
    search_line-first "VERSION" "2.5" ("NAME=MetalK8s" ∷ []) ("VERSION=3" ∷ []) refl (refl, tt)

-- two archives of one version, and a path that leads nowhere
abbrev files : String → Found
files path =
    if path == "/nowhere" then neither else directory (some ("NAME=MetalK8s" ∷ "VERSION=2.5" ∷ []))

abbrev archive : String → Archive
archive path = record {
  info = record { version = some "2.5"; name = some "MetalK8s" };
  path = path;
  iso = none;
}

get_archives-last_example :
    Dict.get "metalk8s-2.5" (("metalk8s-2.5", archive "/b") ∷ [])
    ≡ last_of files "metalk8s-2.5" ("/a" ∷ "/b" ∷ "/nowhere" ∷ [])
unfolding get_archives collect inspect archive_info_from_tree get_archive_info strip search_line
    Dict.put
get_archives-last_example =
    get_archives-last files nothing (paths ("/a" ∷ "/b" ∷ "/nowhere" ∷ []))
      ("/a" ∷ "/b" ∷ "/nowhere" ∷ []) (("metalk8s-2.5", archive "/b") ∷ []) refl refl "metalk8s-2.5"
