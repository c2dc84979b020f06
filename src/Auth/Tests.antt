-- ===== src/Auth/Tests.antt =====
-- An API server with one administrator, and the theorems on the authentication at it.
use metalk8s.Prelude.{
  List, String, Bool, true, false, Option, none, some, [], ◌∷◌, ◌==◌, if◌then◌else◌, ◌≡◌, refl,
}
use metalk8s.Prelude.Dict
use metalk8s.Prelude.Dict.{Dict}
use metalk8s.Exec.{Outcome, return, raise, name_error, api_error}
use metalk8s.Auth.{
  Kubeconfig, TokenStatus, Authority, Client, check_auth_args, read_options,
  patch_kubeconfig_for_basic, load_kubeconfig, auth, groups,
}
use metalk8s.Auth.Granted.{Granted, by_token, auth-Granted, Granted-auth}
use metalk8s.Auth.Groups.{groups-node_admins, groups-answered}

abbrev client : Kubeconfig (Unit {0})
client = record {
  api_key = none;
  api_key_prefix = none;
  username = none;
  cert_file = some "admin.crt";
  key_file = some "admin.key";
  rest = tt;
}

review_for : Option String → String → Outcome Bool
review_for none resource = raise (api_error 401 "Unauthorized")
review_for (some key) resource =
    if key == "admin:secret"
    then return true
    else if resource == "version"
    then return true
    else raise (api_error 500 "Error")

status_of : String → TokenStatus
status_of token =
    if token == "t0k3n"
    then record { error = none; authenticated = true; user = some "robot" }
    else record { error = some "invalid bearer token"; authenticated = false; user = none }

abbrev server : Authority
server = record {
  Rest = Unit {0};
  load_kube_config = λ file context. return client;
  review = λ config resource verb. review_for config.api_key resource;
  token_review = λ config token. return (status_of token);
  encode = λ text. text;
}

abbrev opts : Dict (Option String)
opts = ("^kubeconfig", some "/etc/kubernetes/admin.conf") ∷ ("admins", none) ∷ []

program : Unit {0}
unfolding review_for status_of Dict.get Dict.put check_auth_args read_options
    patch_kubeconfig_for_basic load_kubeconfig auth groups
program = tt

two_secrets :
    auth server opts "admin" (some "secret") (some "t0k3n")
    ≡ raise (name_error "global name 'CommandExecutionError' is not defined")
unfolding program
two_secrets = refl

admin_groups : groups server opts "admin" (some "secret") none ≡ return ("node-admins" ∷ [])
unfolding program
admin_groups = refl

auth-Granted_example : Granted server opts "admin" (some "secret") none
unfolding program
auth-Granted_example = auth-Granted server opts "admin" (some "secret") none refl

Granted-auth_example : auth server opts "robot" none (some "t0k3n") ≡ return true
unfolding program
Granted-auth_example =
    Granted-auth server opts "robot" none (some "t0k3n")
      (by_token client "t0k3n" (status_of "t0k3n") refl refl refl refl refl refl refl refl)

abbrev admins : List String
admins = "node-admins" ∷ []

groups-node_admins_example :
    (admins ≡ admins)
    × ((config : Client server) × (text : String) × (load_kubeconfig server opts
          ≡ return (some config))
        × (some "secret" ≡ some text)
        × (server.review (patch_kubeconfig_for_basic server config "admin" text) "nodes" "*"
            ≡ return true))
unfolding program
groups-node_admins_example =
    groups-node_admins server opts "admin" (some "secret") none admins refl (λ e. cc)

groups-answered_example :
    (text : String) × (allowed : Bool) × (some "secret" ≡ some text)
    × (server.review (patch_kubeconfig_for_basic server client "admin" text) "nodes" "*"
        ≡ return allowed)
    × (admins ≡ (if allowed then "node-admins" ∷ [] else []))
unfolding program
groups-answered_example =
    groups-answered server opts "admin" (some "secret") none admins client refl refl refl

-- an error of the review becomes another one
error_lost :
    groups server opts "guest" (some "guest") none
    ≡ raise (name_error "local variable 'result' referenced before assignment")
unfolding program
error_lost = refl
