-- ===== src/Cri.antt =====
-- salt/_modules/cri.py: images and containers, through the crictl command.
mod Managed
mod Tests
use Prim.Native.Nat.{◌/◌}
use metalk8s.Prelude.{
  ℕ, zero, suc, ◌+◌, ◌-◌, String, ◌<>◌, Bool, true, false, not, ◌&&◌, ◌||◌, Option, none, some,
  List, [], ◌∷◌, any, contains, join, nat_eq, is_empty, ◌==◌, if◌then◌else◌,
}
use metalk8s.Exec.{Exn, Outcome, return, raise, value_error}
use metalk8s.Action.{Action, pure, throw, modify, ◌>>=◌, ◌>>◌}

-- what `cmd.run_all` gives
pub record Result : Type 0 where
  pub retcode : ℕ
  pub stdout : String
  pub stderr : String

pub record Image : Type 0 where
  pub repo_tags : List String
  pub repo_digests : List String

-- The commands and the clock, and the readers of what crictl writes.
pub record Crictl : Type 1 where
  pub S : Type 0
  pub run_all : String → Action S Result
  pub sleep : ℕ → S → S
  -- the `images` of a JSON text, and the number of its `items`
  pub images_of : String → List Image
  pub items_of : String → ℕ
  -- the digest behind "Image is up to date for sha256:" at the start of a text
  pub digest_of : String → Option String

module _ (c : Crictl) where
  abbrev failed : Result → Bool
  failed r = not (nat_eq r.retcode 0)

  -- `list_images`; nothing where crictl fails
  unfoldable pub list_images : Action c.S (Option (List Image))
  list_images = do
    out ← c.run_all "crictl images -o json"
    if failed out then pure none else pure (some (c.images_of out.stdout))

  abbrev is_in : String → Option (List Image) → Bool
  is_in name none = false
  is_in name (some images) =
      any (λ i. contains name i.repo_tags || contains name i.repo_digests) images

  unfoldable pub available : String → Action c.S Bool
  available name = do images ← list_images; pure (is_in name images)

  -- the digests of the image that was pulled; nothing where crictl fails
  unfoldable pub pull_image : String → Action c.S (Option (Option String))
  pull_image image = do
    out ← c.run_all ("crictl pull \"" <> image <> "\"")
    if failed out then pure none else pure (some (c.digest_of out.stdout))

  abbrev run_in : String → String → Action c.S (Option String)
  run_in container_id cmd_opts = do
    out ← c.run_all ("crictl exec " <> container_id <> " " <> cmd_opts)
    if failed out then pure none else pure (some out.stdout)

  unfoldable pub execute : String → String → List String → Action c.S (Option String)
  execute name command args = do
    out ← c.run_all ("crictl ps -q --label io.kubernetes.container.name=\"" <> name <> "\"")
    if failed out || out.stdout == ""
        then pure none
        else run_in out.stdout (command <> " " <> join " " args)

  abbrev options : String → Option String → String
  options name none = "--label io.kubernetes.container.name=\"" <> name <> "\""
  options name (some state) =
      "--label io.kubernetes.container.name=\"" <> name <> "\" --state " <> state

  -- the rounds of the loop that are left
  unfoldable pub wait_rounds : String → ℕ → ℕ → Action c.S Bool
  wait_rounds opts delay zero = pure false
  wait_rounds opts delay (suc left) = c.run_all ("crictl ps -q " <> opts) >>= λ out.
      let rest = modify (c.sleep delay) >>= λ _. wait_rounds opts delay left in
      if nat_eq out.retcode 0 && not (out.stdout == "") then pure true else rest

  -- the length of `range(0, timeout, delay)`
  abbrev rounds : ℕ → ℕ → ℕ
  rounds timeout delay = (timeout + (delay - 1)) / delay

  unfoldable pub wait_container : String → Option String → ℕ → ℕ → Action c.S Bool
  wait_container name state timeout zero =
      throw (value_error "range() step argument must not be zero")
  wait_container name state timeout (suc delay) =
      wait_rounds (options name state) (suc delay) (rounds timeout (suc delay))

  unfoldable pub component_is_running : String → Action c.S Bool
  component_is_running name = do
    out ← c.run_all ("crictl pods --label component=" <> name <> " --state=ready -o json")
    if failed out then pure false else pure (not (nat_eq (c.items_of out.stdout) 0))
