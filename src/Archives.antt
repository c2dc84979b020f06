-- ===== src/Archives.antt =====
-- salt/_modules/metalk8s.py: `archive_info_from_tree` and `archive_info_from_iso`, which read the
-- product.txt of an archive.
pub mod Found
mod Tests
use Prim.Native.Char.{code}
use Prim.Native.String.append
use metalk8s.Prelude.{
  false, not, arith, ◌++◌, All, ◌≢◌, eq_iff, ℕ, String, ◌<>◌, Option, none, some, List, [], ◌∷◌,
  nat_eq, ◌==◌, if◌then◌else◌, ◌≡◌, refl,
}
use metalk8s.Exec.{Outcome, return, raise, command}

pub record ArchiveInfo : Type 0 where
  pub version : Option String
  pub name : Option String

-- What stands behind a prefix of a text.
unfoldable pub strip : String → String → Option String
strip String.[] text = some text
strip (String.◌∷◌ c prefix) String.[] = none
strip (String.◌∷◌ c prefix) (String.◌∷◌ d text) =
    let rest = strip prefix text in if nat_eq (code c) (code d) then rest else none

-- the group `.+`: at least one character
abbrev nonempty : Option String → Option String
nonempty none = none
nonempty (some text) = if text == "" then none else some text

abbrev first_of : Option String → Option String → Option String
first_of none other = other
first_of (some text) other = some text

-- `re.search(r'^KEY=(.+)$', info, re.MULTILINE)`, on the lines of the text
unfoldable pub search_line : String → List String → Option String
unfolding strip
search_line key [] = none
search_line key (line ∷ lines) =
    first_of (nonempty (strip (key <> "=") line)) (search_line key lines)

-- `_get_archive_info`
unfoldable pub get_archive_info : List String → ArchiveInfo
unfolding search_line
get_archive_info lines = record {
  version = search_line "VERSION" lines;
  name = search_line "NAME" lines;
}

-- `archive_info_from_tree`: the lines of product.txt, where there is such a file
unfoldable pub archive_info_from_tree : String → Option (List String) → Outcome ArchiveInfo
unfolding get_archive_info
archive_info_from_tree path none = raise (command ("Path " <> path <> " has no \"product.txt\"") [])
archive_info_from_tree path (some lines) = return (get_archive_info lines)

-- `archive_info_from_iso`: `cmd.run_all` of isoinfo gives its exit code, the lines it wrote, and the
-- text of the error
unfoldable pub archive_info_from_iso : ℕ → List String → String → Outcome ArchiveInfo
unfolding get_archive_info
archive_info_from_iso retcode lines stderr =
    if not (nat_eq retcode 0)
    then raise (command ("Failed to run isoinfo: " <> stderr) [])
    else return (get_archive_info lines)

strip-append : (prefix text : String) → strip prefix (prefix <> text) ≡ some text
unfolding strip
strip-append String.[] text = rw (append.nil text) refl
strip-append (String.◌∷◌ c prefix) text =
    rw (append.cons c prefix text) (ground (arith, strip-append prefix text))

-- `_get_archive_version` and `_get_archive_name` give what stands behind "KEY=" on the first line
-- that begins so, where something stands there and no line before begins so.
pub search_line-first :
    (key value : String) (before after : List String)
    → (value == "") ≡ false
    → All (λ line. strip (key <> "=") line ≡ none) before
    → search_line key (before ++ ((key <> "=") <> value) ∷ after) ≡ some value
unfolding search_line
search_line-first key value [] after v h = rw (strip-append (key <> "=") value) (rw v refl)
search_line-first key value (line ∷ before) after v h =
    rw (h.0) (search_line-first key value before after v h.1)
