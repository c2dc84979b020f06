-- ===== src/Auth/Granted.antt =====
-- Who is let in: the answers of the API server that `auth` asks for.
use metalk8s.Prelude.{
  String, Bool, true, false, not, ◌&&◌, ◌||◌, Option, none, some, ◌==◌, if◌then◌else◌, ◌≡◌, refl,
  ap, arith, eq_iff, eq_refl, Bool-cases, inl, inr,
}
use metalk8s.Prelude.Dict.{Dict}
use metalk8s.Exec.{Outcome, return, raise, unfinished, api_error}
use metalk8s.Action.Rules.{>>=-eq-return}
use metalk8s.Auth.{
  Authority, Client, TokenStatus, given, secret, check_auth_args, patch_kubeconfig_for_basic,
  load_kubeconfig, not_reviewed, auth_basic, is_user, auth_bearer, auth_with, auth,
}

module _ (k8s : Authority) (opts : Dict (Option String)) (username : String) where
  -- What lets a user in: either a password alone, with which the API server lets the user read its
  -- version, or a token alone, which the API server takes without an error for one of this user.
  pub data Granted (password token : Option String) : Type 0 where
    by_password :
        (client : Client k8s) (text : String)
        → load_kubeconfig k8s opts ≡ return (some client)
        → password ≡ some text
        → given password ≡ true
        → given token ≡ false
        → (username == "") ≡ false
        → k8s.review (patch_kubeconfig_for_basic k8s client username text) "version" "get"
          ≡ return true
        → Granted password token
    by_token :
        (client : Client k8s) (text : String) (status : TokenStatus)
        → load_kubeconfig k8s opts ≡ return (some client)
        → token ≡ some text
        → given token ≡ true
        → given password ≡ false
        → k8s.token_review client text ≡ return status
        → given status.error ≡ false
        → status.authenticated ≡ true
        → status.user ≡ some username
        → Granted password token

  pub checked :
      (password token : Option String) {u : Unit {0}}
      → check_auth_args username password token ≡ return u
      → (given token && given password ≡ false)
        × (given token || given password && not (username == "") ≡ true)
  unfolding check_auth_args
  checked password token e = ground (arith, e)

  pub secret-password :
      (password token : Option String)
      → given password ≡ true
      → given token ≡ false
      → password ≡ some (secret token password)
  secret-password none token p t = cc
  secret-password (some text) none p t = refl
  secret-password (some text) (some other) p t = ground arith

  secret-token :
      (password token : Option String)
      → given password ≡ false
      → given token ≡ true
      → token ≡ some (secret token password)
  secret-token password none p t = cc
  secret-token none (some text) p t = refl
  secret-token (some other) (some text) p t = ground arith

  auth_basic-eq-true :
      (client : Client k8s) (text : String)
      → auth_basic k8s client username text ≡ return true
      → k8s.review (patch_kubeconfig_for_basic k8s client username text) "version" "get"
        ≡ return true
  unfolding auth_basic
  auth_basic-eq-true client text e =
      answered (k8s.review (patch_kubeconfig_for_basic k8s client username text) "version" "get") e
    where
      answered : (r : Outcome Bool) → not_reviewed k8s r ≡ return true → r ≡ return true
      answered (return b) e = e
      answered (raise (api_error status text)) e = ground (arith, e)
      answered (raise x) e = absurd cc
      answered unfinished e = absurd cc

  auth_bearer-eq-true :
      (client : Client k8s) (text : String)
      → auth_bearer k8s client username text ≡ return true
      → (status : TokenStatus) × (k8s.token_review client text ≡ return status)
        × (given status.error ≡ false)
        × (status.authenticated ≡ true)
        × (status.user ≡ some username)
  unfolding auth_bearer
  auth_bearer-eq-true client text e =
      let (status, reviewed, e₁) = >>=-eq-return (k8s.token_review client text) _ e in
      let (good, authenticated, same) = accepted status e₁ in
      (status, reviewed, good, authenticated, same)
    where
      same_user :
          (user : Option String) → is_user k8s username user ≡ return true → user ≡ some username
      same_user none e = absurd cc
      same_user (some user) e = ap (λ u. some u) (ground (arith, eq_iff user username, e))

      accepted :
          (status : TokenStatus)
          → (if given status.error
              then return false
              else if status.authenticated
              then is_user k8s username status.user
              else return false)
            ≡ return true
          → (given status.error ≡ false)
            × (status.authenticated ≡ true)
            × (status.user ≡ some username)
      accepted status e = ground (arith, e, same_user status.user)

  auth_with-Granted :
      (client : Option (Client k8s)) (password token : Option String)
      → load_kubeconfig k8s opts ≡ return client
      → (given token && given password ≡ false)
        × (given token || given password && not (username == "") ≡ true)
      → auth_with k8s client username password token ≡ return true
      → Granted password token
  unfolding auth_with
  auth_with-Granted none password token loaded c e = absurd cc
  auth_with-Granted (some client) password token loaded c e = elim (Bool-cases (given password)) [
    | inl p ↦
        let t : given token ≡ false = ground (arith, c, p) in
        by_password client (secret token password) loaded (secret-password password token p t) p t
          (ground (arith, c, p, t)) (auth_basic-eq-true client _ (rw p at e))
    | inr p ↦
        let t : given token ≡ true = ground (arith, c, p) in
        let (status, reviewed, good, authenticated, same) =
          auth_bearer-eq-true client _ (rw p at e) in
        by_token client (secret token password) status loaded (secret-token password token p t) t p
          reviewed good authenticated same
  ]

  -- `auth` returns true only for a user who is let in: by a password alone, with which the API server
  -- lets the user read its version, or by a token alone that it takes for one of this user.
  pub auth-Granted :
      (password token : Option String)
      → auth k8s opts username password token ≡ return true
      → Granted password token
  unfolding auth
  auth-Granted password token e =
      let (u, args, e₁) = >>=-eq-return (check_auth_args username password token) _ e in
      let (client, loaded, e₂) = >>=-eq-return (load_kubeconfig k8s opts) _ e₁ in
      auth_with-Granted client password token loaded (checked password token args) e₂

  -- Whoever may be let in by a password alone or a token alone is: `auth` returns true.
  pub Granted-auth :
      (password token : Option String)
      → Granted password token
      → auth k8s opts username password token ≡ return true
  unfolding auth check_auth_args auth_with auth_basic auth_bearer
  Granted-auth password token (by_password client text loaded same p t u reviewed) =
      let chosen : secret token password ≡ text = cc (secret-password password token p t, same) in
      rw (p, t, u, loaded) (rw p (rw chosen (rw reviewed refl)))
  Granted-auth password token
        (by_token client text status loaded same t p reviewed good authenticated user) =
      let chosen : secret token password ≡ text = cc (secret-token password token p t, same) in
      rw (p, t, loaded)
        (rw p (
          rw chosen
            (rw reviewed (rw (good, authenticated, user) (ap (λ b. return b) (eq_refl username))))))
