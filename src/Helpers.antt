-- ===== src/Helpers.antt =====
-- salt/_modules/metalk8s.py and salt/_modules/metalk8s_kubernetes_utils.py: waiting for the API
-- server, the minions of a role, the checks of the pillar, and the choice of the kubeconfig.
pub mod Wait
pub mod Pillar
mod Tests
use metalk8s.Prelude.{
  ℕ, zero, suc, ◌+◌, String, ◌<>◌, Bool, true, false, not, ◌&&◌, ◌||◌, Option, none, some, List, [],
  ◌∷◌, ◌++◌, map, join, ltb, contains, is_empty, ◌==◌, if◌then◌else◌,
}
use metalk8s.Prelude.Integers.{pos, negsuc}
use metalk8s.Exec.{
  Exn, Outcome, return, raise, unfinished, ◌>>=◌, command, attribute_error, type_error,
}
use metalk8s.Kubernetes.Values
use metalk8s.Kubernetes.Values.{
  Value, null, boolean, integer, real, date, text, array, object, instance_of, Items, no_items,
  item, Fields, no_fields, field, get, remove,
}

-- `a or b` on texts that may be `None`
abbrev pub or_text : Option String → Option String → Option String
or_text none b = b
or_text (some a) b = if a == "" then b else some a

-- `get_kubeconfig`: the arguments, the pillar and the options of the Salt master
unfoldable pub get_kubeconfig :
    Option String × Option String
    → Option String × Option String
    → Option String × Option String
    → Option String × Option String
get_kubeconfig args pillar options = (
  or_text args.0 (or_text pillar.0 options.0),
  or_text args.1 (or_text pillar.1 (or_text options.1 none)),
)

-- how the request for the version ends
pub data VersionReply : Type 0 where
  version : Value → VersionReply
  -- an `ApiException` or an `HTTPError`
  request_failed : String → VersionReply
  other_failure : Exn → VersionReply

unfoldable pub get_version_info : VersionReply → Outcome Value
get_version_info (version v) = return v
get_version_info (request_failed e) = raise (command ("Failed to get version info: " <> e) [])
get_version_info (other_failure e) = raise e

-- `except CommandExecutionError`
abbrev answered : Outcome Value → Outcome Bool
answered (return v) = return true
answered (raise (command e info)) = return false
answered (raise e) = raise e
answered unfinished = unfinished

unfoldable pub ping : VersionReply → Outcome Bool
unfolding get_version_info
ping r = answered (get_version_info r)

-- The API server and the clock, for `wait_apiserver`.
pub record ApiServer {ℓ} (S : Type ℓ) : Type ℓ where
  pub version_reply : S → VersionReply × S
  pub sleep : ℕ → S → S

module _ {ℓ} {S : Type ℓ} (api : ApiServer S) where
  -- `ping`, on the state
  abbrev pub ping_at : S → Outcome Bool × S
  ping_at s = let (r, s') = api.version_reply s in (ping r, s')

  -- the rest of the loop: `left` more attempts after the one whose result is given
  unfoldable pub wait_more : ℕ → ℕ → Outcome Bool × S → Outcome Bool × S
  wait_more left interval (raise e, s) = (raise e, s)
  wait_more left interval (unfinished, s) = (unfinished, s)
  wait_more left interval (return true, s) = (return true, s)
  wait_more zero interval (return false, s) = (return false, s)
  wait_more (suc left) interval (return false, s) =
      wait_more left interval (ping_at (api.sleep interval s))

  -- `attempts < retry` with `attempts` from 1
  abbrev retries : ℕ → ℕ
  retries zero = 0
  retries (suc n) = n

  unfoldable pub wait_apiserver : ℕ → ℕ → S → Outcome Bool × S
  unfolding wait_more
  wait_apiserver retry interval s = wait_more (retries retry) interval (ping_at s)

-- What Python takes for true.
unfoldable pub truthy : Value → Bool
truthy null = false
truthy (boolean b) = b
truthy (integer (pos zero)) = false
truthy (real x) = not (x == "0.0")
truthy (text x) = not (x == "")
truthy (array no_items) = false
truthy (object no_fields) = false
truthy v = true

unfoldable pub texts_of : Items → List String
texts_of no_items = []
texts_of (item (text x) xs) = x ∷ texts_of xs
texts_of (item v xs) = texts_of xs

unfoldable pub letters : String → List String
letters String.[] = []
letters (String.◌∷◌ c s) = String.◌∷◌ c "" ∷ letters s

unfoldable pub keys_of : Fields → List String
keys_of no_fields = []
keys_of (field k v fs) = k ∷ keys_of fs

-- What `join` takes of a value: the texts of a list, the keys of a dict, a text letter by letter. The
-- `TypeError` for a value that is none of these, or for a list with other values, is left out.
abbrev pub listed : Option Value → List String
listed (some (array xs)) = texts_of xs
listed (some (object fs)) = keys_of fs
listed (some (text s)) = letters s
listed _ = []

-- `role in node_info.get('roles', [])`; the roles of a node are a list
abbrev pub has_role : String → Value → Outcome Bool
has_role role (object info) = elim (get "roles" info) [
  | none ↦ return false
  | some (array xs) ↦ return (contains role (texts_of xs))
  | some _ ↦ raise (type_error "argument is not iterable")
]
has_role role _ = raise (attribute_error "object has no attribute 'get'")

unfoldable pub with_role : String → Fields → Outcome (List String)
with_role role no_fields = return []
with_role role (field node info nodes) = has_role role info >>= λ b.
    with_role role nodes >>= λ rest. return (if b then node ∷ rest else rest)

abbrev pub errors_of : Fields → Bool
errors_of nodes = elim (get "_errors" nodes) [ none ↦ false | some v ↦ truthy v ]

-- `minions_by_role`, with the dict of nodes that the call leaves: `_errors` is popped from it
unfoldable pub minions_by_role : String → Fields → Outcome (List String) × Fields
unfolding with_role
minions_by_role role nodes = (
  if errors_of nodes
      then raise (
          command
            ("Can't retrieve minions by role because of errors in pillar 'metalk8s:nodes': "
              <> join ", " (listed (get "_errors" nodes)))
            [])
      else with_role role (remove "_errors" nodes),
  remove "_errors" nodes,
)
