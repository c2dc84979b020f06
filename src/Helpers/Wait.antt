-- ===== src/Helpers/Wait.antt =====
-- How `wait_apiserver` ends, and what an error in the pillar does to `minions_by_role`.
use metalk8s.Prelude.{
  ℕ, zero, suc, ◌≤◌, String, Bool, true, false, none, [], ◌≡◌, refl, sym, ◌∙◌, ◌<>◌, join, arith,
  eq_iff,
}
use mathlib.Core.Path.{subst}
use metalk8s.Exec.{Outcome, return, raise, command}
use metalk8s.Kubernetes.Values.{Fields, no_fields, field, get, remove}
use metalk8s.Helpers.{
  ApiServer, ping_at, wait_more, retries, wait_apiserver, errors_of, with_role, minions_by_role,
  listed,
}

module _ {S : Type 0} (api : ApiServer S) where
  -- The ping in `s` and the `k` pings after it, a sleep before each: the last one is answered and
  -- the others are not.
  unfoldable pub UpAfter : ℕ → ℕ → S → Type 0
  UpAfter interval zero s = (ping_at api s).0 ≡ return true
  UpAfter interval (suc k) s =
      ((ping_at api s).0 ≡ return false) × UpAfter interval k (api.sleep interval (ping_at api s).1)

  when_up :
      (left interval : ℕ) (r : Outcome Bool) (s : S)
      → r ≡ return true
      → (wait_more api left interval (r, s)).0 ≡ return true
  unfolding wait_more
  when_up left interval r s e =
      subst (λ x. (wait_more api left interval (x, s)).0 ≡ return true) (sym e) refl

  when_down :
      (left interval : ℕ) (r : Outcome Bool) (s : S)
      → r ≡ return false
      → (wait_more api (suc left) interval (r, s)).0
        ≡ (wait_more api left interval (ping_at api (api.sleep interval s))).0
  unfolding wait_more
  when_down left interval r s e =
      subst
        (λ x.
          (wait_more api (suc left) interval (x, s)).0
          ≡ (wait_more api left interval (ping_at api (api.sleep interval s))).0)
        (sym e) refl

  wait_more-up :
      (left interval k : ℕ) (s : S)
      → k ≤ left
      → UpAfter interval k s
      → (wait_more api left interval (ping_at api s)).0 ≡ return true
  unfolding UpAfter
  wait_more-up left interval zero s h u =
      when_up left interval (ping_at api s).0 (ping_at api s).1 u
  wait_more-up zero interval (suc k) s h u = absurd (omega arith)
  wait_more-up (suc left) interval (suc k) s h (d, u) =
      when_down left interval (ping_at api s).0 (ping_at api s).1 d
      ∙ wait_more-up left interval k (api.sleep interval (ping_at api s).1) (omega arith) u

  -- If the ping after k sleeps is the first one that is answered and k is below retry, or is 0,
  -- wait_apiserver returns true.
  pub wait_apiserver-up :
      (retry interval k : ℕ) (s : S)
      → k ≤ retries api retry
      → UpAfter interval k s
      → (wait_apiserver api retry interval s).0 ≡ return true
  unfolding wait_apiserver
  wait_apiserver-up retry interval k s h u = wait_more-up (retries api retry) interval k s h u

get-remove_self : (key : String) (fs : Fields) → get key (remove key fs) ≡ none
unfolding get remove
get-remove_self key no_fields = refl
get-remove_self key (field k v fs) = ground (arith, eq_iff k key, get-remove_self key fs)

remove-remove : (key : String) (fs : Fields) → remove key (remove key fs) ≡ remove key fs
unfolding remove
remove-remove key no_fields = refl
remove-remove key (field k v fs) = ground (arith, eq_iff k key, remove-remove key fs)

-- Where the dict of nodes has errors, minions_by_role raises, and called again with the same dict
-- it gives what the nodes without the errors give.
pub minions_by_role-twice :
    (role : String) (nodes : Fields)
    → errors_of nodes ≡ true
    → ((minions_by_role role nodes).0
        ≡ raise (
            command
              ("Can't retrieve minions by role because of errors in pillar 'metalk8s:nodes': "
                <> join ", " (listed (get "_errors" nodes)))
              []))
      × ((minions_by_role role (minions_by_role role nodes).1).0
          ≡ with_role role (remove "_errors" nodes))
unfolding minions_by_role
minions_by_role-twice role nodes h = (
  rw (minions_by_role, h),
  rw (minions_by_role, errors_of, get-remove_self "_errors" nodes, remove-remove "_errors" nodes),
)
