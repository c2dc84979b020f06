-- ===== src/Etcd/Endpoint.antt =====
-- The endpoint that `_get_endpoint_up` picks.
use metalk8s.Prelude.{String, Option, none, List, [], ◌∷◌, ◌++◌, ◌≡◌, refl, sym, All, ap}
use metalk8s.Exec.{Outcome, return, raise}
use metalk8s.Action.Rules.{>>=-eq-return, return-injective}
use metalk8s.Etcd.{
  Status, up, connection_failed, failed, Etcd, endpoints_of, first_up, get_endpoint_up,
}

module _ (e : Etcd) where
  -- the endpoints in front of the one that is taken do not answer
  abbrev pub First : List String → String → e.S → Type 0
  First eps ep s =
      (before : List String) × (after : List String) × (eps ≡ before ++ ep ∷ after)
      × All (λ x. e.status x none s ≡ connection_failed) before
      × (e.status ep none s ≡ up)

  next :
      (x : String) (eps : List String) (ep : String) (s : e.S)
      → e.status x none s ≡ connection_failed
      → First eps ep s
      → First (x ∷ eps) ep s
  next x eps ep s hx (before, after, split, all, hup) =
      (x ∷ before, after, ap (λ l. x ∷ l) split, (hx, all), hup)

  by_status :
      (x : String) (eps : List String) (ep : String) (s : e.S) (st : Status)
      → e.status x none s ≡ st
      → (first_up e eps s ≡ return ep → First eps ep s)
      → (elim st as (λ _. Outcome String) [
        | up ↦ return x
        | connection_failed ↦ first_up e eps s
        | failed y ↦ raise y
      ])
        ≡ return ep
      → First (x ∷ eps) ep s
  by_status x eps ep s up h k r =
      let same = return-injective r in ([], eps, ap (λ y. y ∷ eps) same, tt, rw (sym same, h))
  by_status x eps ep s connection_failed h k r = next x eps ep s h (k r)
  by_status x eps ep s (failed y) h k r = cc

  first_up-First :
      (eps : List String) (ep : String) (s : e.S) → first_up e eps s ≡ return ep → First eps ep s
  unfolding first_up
  first_up-First [] ep s h = cc
  first_up-First (x ∷ eps) ep s h =
      by_status x eps ep s (e.status x none s) refl (first_up-First eps ep s) h

  -- An endpoint that _get_endpoint_up returns is the address of an etcd minion that answers, and the
  -- addresses in front of it all refuse the connection.
  pub get_endpoint_up-First :
      (nodes : Option e.Nodes) (s : e.S) (ep : String)
      → get_endpoint_up e nodes s ≡ return ep
      → (hosts : List String) × (e.minions_by_role nodes s ≡ return hosts)
        × First (endpoints_of (e.control_plane_ips s) hosts) ep s
  unfolding get_endpoint_up
  get_endpoint_up-First nodes s ep h =
      let (hosts, hh, h1) = >>=-eq-return (e.minions_by_role nodes s) _ h in
      (hosts, hh, first_up-First (endpoints_of (e.control_plane_ips s) hosts) ep s h1)
