-- ===== src/Etcd/Health.antt =====
-- The verdict of `check_etcd_health`, by which members answer.
use metalk8s.Prelude.{
  ℕ, suc, ◌+◌, ◌≤◌, String, Bool, true, false, not, ◌||◌, Option, List, [], ◌∷◌, nat_eq, any, All,
  if◌then◌else◌, if-both, ◌≡◌, refl, arith,
}
use metalk8s.Exec.{Outcome, return, raise, command}
use metalk8s.Etcd.{
  Member, Status, up, connection_failed, failed, Etcd, unhealthy, healthy, check_member, verdict,
  count, health_endpoint, check_etcd_health,
}

abbrev pub is_up : Status → Bool
is_up up = true
is_up _ = false

abbrev pub HasUrl : Member → Type 0
HasUrl m = (url : String) × (urls : List String) × (m.client_urls ≡ url ∷ urls)

step_up :
    (b u : Bool) (d c : ℕ)
    → d ≤ c
    → nat_eq d c ≡ not u
    → nat_eq ((if b then 0 else 1) + d) (suc c) ≡ not (b || u)
step_up true u d c h e = ground arith
step_up false u d c h e = ground arith

step_down :
    (b u : Bool) (d : ℕ)
    → nat_eq d 0 ≡ not u
    → nat_eq ((if b then 0 else 1) + d) 0 ≡ not (not b || u)
step_down true u d e = ground arith
step_down false u d e = ground arith

module _ (e : Etcd) where
  -- the first client URL of a member answers
  abbrev url_up : List String → e.S → Bool
  url_up [] s = false
  url_up (url ∷ urls) s = is_up (e.status (e.urlparse url).0 (e.urlparse url).1 s)

  abbrev pub member_up : e.S → Member → Bool
  member_up s m = url_up m.client_urls s

  -- what the cluster is, by whether a member answers and whether one does not
  abbrev pub health : Bool → Bool → Outcome String
  health false dead = raise (command "cluster is unavailable" [])
  health true true = raise (command "cluster is degraded" [])
  health true false = return "cluster is healthy"

  down_count : List Member → e.S → ℕ
  down_count [] s = 0
  down_count (m ∷ ms) s = (if member_up s m then 0 else 1) + down_count ms s

  check_member-up :
      (m : Member) (s : e.S)
      → HasUrl m
      → check_member e m s ≡ return (if member_up s m then 0 else 1)
  check_member-up m s (url, urls, h) =
      rw (h) (by_status (e.status (e.urlparse url).0 (e.urlparse url).1 s))
    where
      by_status : (x : Status) → return (healthy e x) ≡ return (if is_up x then 0 else 1)
      by_status up = refl
      by_status connection_failed = refl
      by_status (failed x) = refl

  unhealthy-down_count :
      (ms : List Member) (s : e.S) → All HasUrl ms → unhealthy e ms s ≡ return (down_count ms s)
  unfolding unhealthy down_count
  unhealthy-down_count [] s h = refl
  unhealthy-down_count (m ∷ ms) s h = rw (check_member-up m s h.0, unhealthy-down_count ms s h.1)

  down_count-le : (ms : List Member) (s : e.S) → down_count ms s ≤ count e ms
  unfolding down_count
  down_count-le [] s = omega arith
  down_count-le (m ∷ ms) s =
      if-both (λ n. n + down_count ms s ≤ suc (count e ms)) (member_up s m)
        (omega (arith, down_count-le ms s)) (omega (arith, down_count-le ms s))

  none_up :
      (ms : List Member) (s : e.S)
      → nat_eq (down_count ms s) (count e ms) ≡ not (any (member_up s) ms)
  unfolding down_count
  none_up [] s = refl
  none_up (m ∷ ms) s =
      step_up (member_up s m) (any (member_up s) ms) (down_count ms s) (count e ms)
        (down_count-le ms s) (none_up ms s)

  none_down :
      (ms : List Member) (s : e.S)
      → nat_eq (down_count ms s) 0 ≡ not (any (λ m. not (member_up s m)) ms)
  unfolding down_count
  none_down [] s = refl
  none_down (m ∷ ms) s =
      step_down (member_up s m) (any (λ x. not (member_up s x)) ms) (down_count ms s)
        (none_down ms s)

  by_counts :
      (alive dead : Bool) (n c : ℕ)
      → nat_eq n c ≡ not alive
      → nat_eq n 0 ≡ not dead
      → verdict e n c ≡ health alive dead
  by_counts false dead n c ha hd = rw (ha)
  by_counts true true n c ha hd = rw (ha, hd)
  by_counts true false n c ha hd = rw (ha, hd)

  -- Where the endpoint is found, the members are listed and each has a client URL, check_etcd_health
  -- says that the cluster is unavailable if no member answers, that it is degraded if some answer
  -- and some do not, and that it is healthy if some answer and none does not.
  pub check_etcd_health-health :
      (minion_id : Option String) (s : e.S) (endpoint : String) (ms : List Member)
      → health_endpoint e minion_id s ≡ return endpoint
      → e.members endpoint s ≡ return ms
      → All HasUrl ms
      → check_etcd_health e minion_id s
        ≡ health (any (member_up s) ms) (any (λ m. not (member_up s m)) ms)
  unfolding check_etcd_health
  check_etcd_health-health minion_id s endpoint ms he hm hu =
      rw (check_etcd_health, he, hm, unhealthy-down_count ms s hu)
        (by_counts _ _ (down_count ms s) (count e ms) (none_up ms s) (none_down ms s))
