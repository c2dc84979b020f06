-- ===== src/Cri/Managed.antt =====
-- salt/_states/containerd.py with salt/_modules/containerd.py: an image that is pulled or imported.
use metalk8s.Prelude.{
  String, ◌<>◌, Bool, true, false, Option, none, some, nat_eq, ◌==◌, if◌then◌else◌, ◌≡◌, refl, ap,
  ◌∙◌,
}
use mathlib.Core.Bool.{false≢true}
use metalk8s.Exec.{Outcome, return, raise, unfinished}
use metalk8s.Action.{Action, pure, continue, ◌>>=◌}
use metalk8s.Action.Rules.{Post, Post-bind, Post-trivial}
use metalk8s.Cri.{Result, Crictl, available, pull_image}

-- what stands under the image in `changes` or in `pchanges`
pub data Change : Type 0 where
  no_change : Change
  would_add : Change
  imported : String → Change
  pulled : Option String → Change

pub record Ret : Type 0 where
  pub result : Option Bool
  pub change : Change
  pub comment : String

abbrev pub ret : Option Bool → Change → String → Ret
ret result change comment = record { result = result; change = change; comment = comment }

-- `os.path.basename`: what stands behind the last slash
unfoldable pub basename_from : String → String → String
basename_from last String.[] = last
basename_from last (String.◌∷◌ c s) =
    let part = String.◌∷◌ c String.[] in
    if part == "/" then basename_from "" s else basename_from (last <> part) s

abbrev basename : String → String
basename path = basename_from "" path

module _ (c : Crictl) where
  unfoldable pub load_cri_image : String → Action c.S Result
  load_cri_image path = c.run_all ("ctr --debug -n k8s.io image import \"" <> path <> "\"")

  abbrev output : Result → String
  output r = if r.stderr == "" then r.stdout else r.stderr

  abbrev import_ret : String → Result → Bool → Ret
  import_ret path r is_there =
      if is_there
      then ret (some true) (imported (basename path)) "Imported archive"
      else ret (some false) no_change ("Failed to import archive: " <> output r)

  -- whether the image is there after an import, which is asked only of one that did not fail
  abbrev is_loaded : String → Result → Action c.S Bool
  is_loaded name r = if nat_eq r.retcode 0 then available c name else pure false

  unfoldable pub import_archive : String → String → Action c.S Ret
  import_archive name path =
      load_cri_image path >>= λ r. is_loaded name r >>= λ b. pure (import_ret path r b)

  abbrev pull_ret : Option (Option String) → Ret
  pull_ret none = ret (some false) no_change "Failed to pull image"
  pull_ret (some digests) = ret (some true) (pulled digests) "Pulled image"

  -- the state for an image that is not there
  unfoldable pub get_image : Bool → String → Option String → Action c.S Ret
  get_image test name none =
      if test
      then pure (ret none would_add "Will pull image")
      else (pull_image c name >>= λ r. pure (pull_ret r))
  get_image test name (some path) =
      if test then pure (ret none would_add "Will import archive") else import_archive name path

  -- an empty path is no path
  abbrev archive : Option String → Option String
  archive none = none
  archive (some path) = if path == "" then none else some path

  unfoldable pub image_managed : Bool → String → Option String → Action c.S Ret
  image_managed test name archive_path = available c name >>= λ b.
      if b
      then pure (ret (some true) no_change "Image already available")
      else get_image test name (archive archive_path)

-- in test mode the state only asks whether the image is there: nothing is pulled or imported
module _ (c : Crictl) (name : String) (archive_path : Option String) (s : c.S) where
  image_managed-test : (image_managed c true name archive_path s).1 ≡ (available c name s).1
  unfolding image_managed get_image
  image_managed-test = after (available c name s) (archive c archive_path)
    where
      after :
          (r : Outcome Bool × c.S) (path : Option String)
          → (continue r.0
              (λ b.
                if b
                then pure (ret (some true) no_change "Image already available")
                else get_image c true name path)
              r.1).1
            ≡ r.1
      after (return true, s) path = refl
      after (return false, s) none = refl
      after (return false, s) (some path) = refl
      after (raise e, s) path = refl
      after (unfinished, s) path = refl

-- a question that ended in this state was answered with yes
abbrev WasFound : (c : Crictl) → String → c.S → Type 0
WasFound c name s' = (s : c.S) × (available c name s ≡ (return true, s'))

-- Where import_archive returns with the result true, crictl listed the image, in a call that ended in
-- the state that is left: ctr can fail silently.
module _ (c : Crictl) (name path : String) where
  found : (s : c.S) → Post Unit (λ b s'. b ≡ true → WasFound c name s') (available c name s)
  found s = which (available c name s) refl
    where
      which :
          (r : Outcome Bool × c.S)
          → available c name s ≡ r
          → Post Unit (λ b s'. b ≡ true → WasFound c name s') r
      which (return b, s') e = λ h. (s, e ∙ ap (λ b. (return b, s')) h)
      which (raise x, s') e = tt
      which (unfinished, s') e = tt

  loaded :
      (r : Result) (s : c.S)
      → Post Unit (λ b s'. b ≡ true → WasFound c name s') (is_loaded c name r s)
  loaded r s = asked (nat_eq r.retcode 0)
    where
      asked :
          (b : Bool)
          → Post Unit
              (λ b s'. b ≡ true → WasFound c name s')
              ((if b then available c name else pure false) s)
      asked true = found s
      asked false = λ h. absurd (false≢true h)

  import_archive-WasFound :
      (s : c.S)
      → Post Unit
          (λ ret s'. ret.result ≡ some true → WasFound c name s')
          (import_archive c name path s)
  unfolding import_archive
  import_archive-WasFound s =
      Post-bind Unit (λ r s'. Unit) _ (load_cri_image c path)
        (λ r. is_loaded c name r >>= λ b. pure (import_ret c path r b)) s (Post-trivial _ _)
        (λ r s1 u.
          Post-bind Unit (λ b s'. b ≡ true → WasFound c name s') _ (is_loaded c name r)
            (λ b. pure (import_ret c path r b)) s1 (loaded r s1) (reported r))
    where
      reported :
          (r : Result) (b : Bool) (s' : c.S)
          → (b ≡ true → WasFound c name s')
          → (import_ret c path r b).result ≡ some true
          → WasFound c name s'
      reported r true s' k h = k refl
      reported r false s' k h = cc
