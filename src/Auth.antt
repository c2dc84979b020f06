-- ===== src/Auth.antt =====
-- salt/_auth/kubernetes_rbac.py: the external authentication of the Salt master, which asks the
-- Kubernetes API server whether a user may log in, and for the groups of the user.
pub mod Granted
pub mod Groups
mod Tests
use Prim.Native.Char.{code}
use Prim.Native.String
use metalk8s.Prelude.{
  ℕ, String, ◌<>◌, Bool, true, false, not, ◌&&◌, ◌||◌, Option, none, some, List, [], ◌∷◌, nat_eq,
  ◌==◌, if◌then◌else◌,
}
use metalk8s.Prelude.Dict
use metalk8s.Prelude.Dict.{Dict}
use metalk8s.Exec.{
  Outcome, return, raise, unfinished, Exn, name_error, attribute_error, api_error, ◌>>=◌, ◌>>◌,
}

-- The parts of a client configuration that this module sets; `rest` is what it leaves alone.
pub record Kubeconfig (Rest : Type 0) : Type 0 where
  pub api_key : Option String
  pub api_key_prefix : Option String
  pub username : Option String
  pub cert_file : Option String
  pub key_file : Option String
  pub rest : Rest

-- The status of a TokenReview; `user` is the name of its user.
pub record TokenStatus : Type 0 where
  pub error : Option String
  pub authenticated : Bool
  pub user : Option String

-- The Kubernetes client and API server. `review` is whether a SelfSubjectAccessReview for a resource
-- and a verb is allowed; `encode` is `base64.encodestring` without the newlines at its end.
pub record Authority : Type 1 where
  pub Rest : Type 0
  pub load_kube_config : String → Option String → Outcome (Kubeconfig Rest)
  pub review : Kubeconfig Rest → String → String → Outcome Bool
  pub token_review : Kubeconfig Rest → String → Outcome TokenStatus
  pub encode : String → String

-- `if text:`
abbrev pub given : Option String → Bool
given none = false
given (some text) = not (text == "")

-- `token or password`, where one of them is given
abbrev pub secret : Option String → Option String → String
secret (some token) (some password) = if token == "" then password else token
secret (some token) none = token
secret none (some password) = password
secret none none = ""

-- The two errors of `_check_auth_args`. The exception that it means to raise is not imported, so the
-- raise is a `NameError`.
unfoldable pub check_auth_args : String → Option String → Option String → Outcome (Unit {0})
check_auth_args username password token =
    if given token && given password || not (given token || given password && not (username == ""))
    then raise (name_error "global name 'CommandExecutionError' is not defined")
    else return tt

-- `opt.startswith('^')` and `opt[1:]`
unfoldable pub caret_option : String → Option String
caret_option String.[] = none
caret_option (String.◌∷◌ c rest) = if nat_eq (code c) b'^' then some rest else none

unfoldable pub set_option :
    Dict (Option String) → Option String → Option String → Dict (Option String)
set_option config none value = config
set_option config (some key) value = Dict.put key value config

-- the loop of `_load_kubeconfig`
unfoldable pub read_options : Dict (Option String) → Dict (Option String) → Dict (Option String)
unfolding caret_option set_option
read_options config [] = config
read_options config ((opt, value) ∷ opts) =
    read_options (set_option config (caret_option opt) value) opts

abbrev pub flat : Option (Option String) → Option String
flat none = none
flat (some value) = value

module _ (k8s : Authority) where
  abbrev pub Client : Type 0
  Client = Kubeconfig k8s.Rest

  -- `_patch_kubeconfig_for_basic`
  unfoldable pub patch_kubeconfig_for_basic : Client → String → String → Client
  patch_kubeconfig_for_basic kubeconfig username password = record kubeconfig {
    api_key = some (k8s.encode (username <> ":" <> password));
    api_key_prefix = some "Basic";
    username = some username;
    cert_file = none;
    key_file = none;
  }

  unfoldable pub load_from : Option String → Option String → Outcome (Option Client)
  load_from none context = return none
  load_from (some file) context = do
    kubeconfig ← k8s.load_kube_config file context
    return (some kubeconfig)

  -- `_load_kubeconfig`, of the options under `external_auth` for this module
  unfoldable pub load_kubeconfig : Dict (Option String) → Outcome (Option Client)
  unfolding read_options load_from
  load_kubeconfig opts =
      let config = read_options (("kubeconfig", none) ∷ ("context", none) ∷ []) opts in
      load_from (flat (Dict.get "kubeconfig" config)) (flat (Dict.get "context" config))

  -- `except ApiException` of `_auth_basic`
  unfoldable pub not_reviewed : Outcome Bool → Outcome Bool
  not_reviewed (raise (api_error status text)) =
      if nat_eq status 401
      then return false
      else if nat_eq status 403
      then return false
      else raise (api_error status text)
  not_reviewed r = r

  unfoldable pub auth_basic : Client → String → String → Outcome Bool
  unfolding patch_kubeconfig_for_basic not_reviewed
  auth_basic kubeconfig username password =
      not_reviewed
        (k8s.review (patch_kubeconfig_for_basic kubeconfig username password) "version" "get")

  -- `except ApiException` of `_groups_basic`: where it does not raise, `result` has no value behind it
  unfoldable pub no_result : Outcome Bool → Outcome Bool
  no_result (raise (api_error status text)) =
      if not (nat_eq status 403)
      then raise (name_error "local variable 'result' referenced before assignment")
      else raise (api_error status text)
  no_result r = r

  unfoldable pub groups_basic : Client → String → String → Outcome (List String)
  unfolding patch_kubeconfig_for_basic no_result
  groups_basic kubeconfig username password = do
    allowed ←
        no_result (k8s.review (patch_kubeconfig_for_basic kubeconfig username password) "nodes" "*")
    return (if allowed then "node-admins" ∷ [] else [])

  abbrev pub is_user : String → Option String → Outcome Bool
  is_user username none = raise (attribute_error "'NoneType' object has no attribute 'username'")
  is_user username (some user) = return (user == username)

  unfoldable pub auth_bearer : Client → String → String → Outcome Bool
  auth_bearer kubeconfig username token = do
    status ← k8s.token_review kubeconfig token
    if given status.error
        then return false
        else if status.authenticated
        then is_user username status.user
        else return false

  unfoldable pub auth_with : Option Client → String → Option String → Option String → Outcome Bool
  unfolding auth_basic auth_bearer
  auth_with none username password token = return false
  auth_with (some kubeconfig) username password token =
      if given password
      then auth_basic kubeconfig username (secret token password)
      else auth_bearer kubeconfig username (secret token password)

  -- `auth` and `groups`, with the options of the master
  unfoldable pub auth : Dict (Option String) → String → Option String → Option String → Outcome Bool
  unfolding check_auth_args load_kubeconfig auth_with
  auth opts username password token = do
    check_auth_args username password token
    kubeconfig ← load_kubeconfig opts
    auth_with kubeconfig username password token

  unfoldable pub groups_with :
      Option Client → String → Option String → Option String → Outcome (List String)
  unfolding groups_basic
  groups_with none username password token = return []
  groups_with (some kubeconfig) username password token =
      if given password then groups_basic kubeconfig username (secret token password) else return []

  unfoldable pub groups :
      Dict (Option String) → String → Option String → Option String → Outcome (List String)
  unfolding check_auth_args load_kubeconfig groups_with
  groups opts username password token = do
    check_auth_args username password token
    kubeconfig ← load_kubeconfig opts
    groups_with kubeconfig username password token
