-- ===== src/Kubernetes/Objects/Missing.antt =====
-- When a function on objects gives `None`.
use metalk8s.Prelude.{
  ℕ, String, Bool, true, false, ◌&&◌, Option, none, nat_eq, ◌≡◌, refl, ap, arith, if◌then◌else◌,
}
use metalk8s.Exec.{Exn, Outcome, return, raise, unfinished}
use metalk8s.Action.{continue}
use metalk8s.Kubernetes.Values.{Value}
use metalk8s.Kubernetes.Manifests.{
  Manipulation, Args, Request, Answer, result, api_exception, http_error, other, Server,
}
use metalk8s.Kubernetes.Objects.{prepare, settle, object_function, is_retrieve_or_delete, send}

abbrev answer_of : Bool → ℕ → Exn → Outcome (Option Value)
answer_of b status x = if b && nat_eq status 404 then return none else raise x

not_found :
    (b : Bool) (status : ℕ) (x : Exn)
    → answer_of b status x ≡ return none
    → (b ≡ true) × (status ≡ 404)
not_found true status x h = (refl, ground arith)
not_found false status x h = cc

settle-none :
    (api : Server) (action : Manipulation) (r : Answer Value)
    → settle api action r ≡ return none
    → (e : String) × (r ≡ api_exception 404 e) × (is_retrieve_or_delete action ≡ true)
unfolding settle
settle-none api action (result v) h = cc
settle-none api action (api_exception status e) h =
    let (b, found) = not_found (is_retrieve_or_delete action) status _ h in
    (e, ap (λ n. api_exception n e) found, b)
settle-none api action (http_error e) h = cc
settle-none api action (other e) h = cc

module _ (api : Server) (action : Manipulation) (a : Args) where
  continue-none :
      (p : Outcome Request) (s : api.S)
      → (continue p (send api action) s).0 ≡ return none
      → (req : Request) × (p ≡ return req) × (settle api action (api.call req s).0 ≡ return none)
  continue-none (return req) s h = (req, refl, h)
  continue-none (raise e) s h = cc
  continue-none unfinished s h = cc

  -- Where a function on objects returns None, its arguments made a request, the API server answered
  -- this request with an ApiException of status 404, and the function retrieves or deletes.
  pub object_function-none :
      (s : api.S)
      → (object_function api action a s).0 ≡ return none
      → (req : Request) × (prepare api action a ≡ return req)
        × ((e : String) × ((api.call req s).0 ≡ api_exception 404 e))
        × (is_retrieve_or_delete action ≡ true)
  unfolding object_function
  object_function-none s h =
      let (req, hp, hs) = continue-none (prepare api action a) s h in
      let (e, hr, ha) = settle-none api action (api.call req s).0 hs in (req, hp, (e, hr), ha)

  -- Where the arguments of a function that retrieves or deletes make a request and the API server
  -- answers it with an ApiException of status 404, the function returns None.
  pub object_function-not_found :
      (s : api.S) (req : Request) (e : String)
      → prepare api action a ≡ return req
      → (api.call req s).0 ≡ api_exception 404 e
      → is_retrieve_or_delete action ≡ true
      → (object_function api action a s).0 ≡ return none
  unfolding object_function settle
  object_function-not_found s req e hp hr ha = rw (object_function, hp, hr, ha)
