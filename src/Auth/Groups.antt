-- ===== src/Auth/Groups.antt =====
-- `groups`: the answers of the API server behind a group, and what becomes of its errors.
use metalk8s.Prelude.{
  String, Bool, true, false, not, ◌&&◌, ◌||◌, Option, none, some, List, [], ◌∷◌, ◌==◌,
  if◌then◌else◌, ◌≡◌, ◌≢◌, refl, sym, ◌⊎◌, arith, Bool-cases, inl, inr,
}
use metalk8s.Prelude.Dict.{Dict}
use metalk8s.Exec.{Outcome, return, raise, unfinished, api_error, ◌>>=◌}
use metalk8s.Action.Rules.{>>=-eq-return, return-injective}
use metalk8s.Auth.{
  Authority, Client, given, secret, check_auth_args, patch_kubeconfig_for_basic, load_kubeconfig,
  no_result, groups_basic, groups_with, groups,
}
use metalk8s.Auth.Granted.{checked, secret-password}

module _ (k8s : Authority) (opts : Dict (Option String)) (username : String) where
  abbrev pub groups_of : Bool → List String
  groups_of allowed = if allowed then "node-admins" ∷ [] else []

  -- What `groups` gives once the credentials are well formed and the client is configured: an answer
  -- of the review, and no error of it.
  groups_basic-answered :
      (client : Client k8s) (text : String) (found : List String)
      → groups_basic k8s client username text ≡ return found
      → (allowed : Bool) × (k8s.review
            (patch_kubeconfig_for_basic k8s client username text)
            "nodes"
            "*"
          ≡ return allowed)
        × (found ≡ groups_of allowed)
  unfolding groups_basic
  groups_basic-answered client text found e =
      answered (k8s.review (patch_kubeconfig_for_basic k8s client username text) "nodes" "*") e
    where
      answered :
          (r : Outcome Bool)
          → (no_result k8s r >>= λ allowed. return (groups_of allowed)) ≡ return found
          → (allowed : Bool) × (r ≡ return allowed) × (found ≡ groups_of allowed)
      answered (return allowed) e = (allowed, refl, sym (return-injective e))
      answered (raise (api_error status text)) e = absurd (ground (arith, e))
      answered (raise x) e = absurd cc
      answered unfinished e = absurd cc

  groups_basic-outcome :
      (client : Client k8s) (text : String) (found : List String)
      → groups_basic k8s client username text ≡ return found
      → ((found ≡ "node-admins" ∷ [])
          × (k8s.review (patch_kubeconfig_for_basic k8s client username text) "nodes" "*"
              ≡ return true))
        ⊎ (found ≡ [])
  groups_basic-outcome client text found e = by_answer (groups_basic-answered client text found e)
    where
      by_answer :
          ((allowed : Bool) × (k8s.review
                (patch_kubeconfig_for_basic k8s client username text)
                "nodes"
                "*"
              ≡ return allowed)
            × (found ≡ groups_of allowed))
          → ((found ≡ "node-admins" ∷ [])
              × (k8s.review (patch_kubeconfig_for_basic k8s client username text) "nodes" "*"
                  ≡ return true))
            ⊎ (found ≡ [])
      by_answer (true, reviewed, same) = inl (same, reviewed)
      by_answer (false, reviewed, same) = inr same

  -- A group that `groups` gives is node-admins, and then a password was given with which the API
  -- server lets the user do anything to nodes.
  pub groups-node_admins :
      (password token : Option String) (found : List String)
      → groups k8s opts username password token ≡ return found
      → found ≢ []
      → (found ≡ "node-admins" ∷ [])
        × ((client : Client k8s) × (text : String) × (load_kubeconfig k8s opts
              ≡ return (some client))
            × (password ≡ some text)
            × (k8s.review (patch_kubeconfig_for_basic k8s client username text) "nodes" "*"
                ≡ return true))
  unfolding groups groups_with
  groups-node_admins password token found e more =
      let (u, args, e₁) = >>=-eq-return (check_auth_args username password token) _ e in
      let (client, loaded, e₂) = >>=-eq-return (load_kubeconfig k8s opts) _ e₁ in
      answered client loaded (checked k8s opts username password token args) e₂
    where
      answered :
          (client : Option (Client k8s))
          → load_kubeconfig k8s opts ≡ return client
          → (given token && given password ≡ false)
            × (given token || given password && not (username == "") ≡ true)
          → groups_with k8s client username password token ≡ return found
          → (found ≡ "node-admins" ∷ [])
            × ((client : Client k8s) × (text : String) × (load_kubeconfig k8s opts
                  ≡ return (some client))
                × (password ≡ some text)
                × (k8s.review (patch_kubeconfig_for_basic k8s client username text) "nodes" "*"
                    ≡ return true))
      answered none loaded c e = absurd (more cc)
      answered (some client) loaded c e = elim (Bool-cases (given password)) [
        | inr p ↦ absurd (more (ground (arith, e, p)))
        | inl p ↦
            let t : given token ≡ false = ground (arith, c, p) in
            elim (groups_basic-outcome client _ found (rw p at e)) [
              | inl (same, reviewed) ↦ (
                same,
                (
                  client,
                  secret token password,
                  loaded,
                  secret-password k8s opts username password token p t,
                  reviewed,
                ),
              )
              | inr nothing ↦ absurd (more nothing)
            ]
      ]

  -- Where groups returns for a password that is given and a client that is configured, the API server
  -- answered the review of the user's rights on nodes, and the groups are node-admins or none by this
  -- answer: no error of the review ends in a result, not even the status 403 that denies it.
  pub groups-answered :
      (password token : Option String) (found : List String) (client : Client k8s)
      → load_kubeconfig k8s opts ≡ return (some client)
      → given password ≡ true
      → groups k8s opts username password token ≡ return found
      → (text : String) × (allowed : Bool) × (password ≡ some text)
        × (k8s.review (patch_kubeconfig_for_basic k8s client username text) "nodes" "*"
            ≡ return allowed)
        × (found ≡ groups_of allowed)
  unfolding groups groups_with
  groups-answered password token found client loaded p e =
      let (u, args, e₁) = >>=-eq-return (check_auth_args username password token) _ e in
      let c = checked k8s opts username password token args in
      let t : given token ≡ false = ground (arith, c, p) in
      let (allowed, reviewed, same) =
        groups_basic-answered client (secret token password) found (rw (loaded, p) at e₁) in
      (
        secret token password,
        allowed,
        secret-password k8s opts username password token p t,
        reviewed,
        same,
      )
