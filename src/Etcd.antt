-- ===== src/Etcd.antt =====
-- salt/_modules/metalk8s_etcd.py and salt/_states/metalk8s_etcd.py: the members of the etcd
-- cluster, their health, and the state that adds one.
pub mod Health
pub mod Endpoint
pub mod Present
mod Tests
use metalk8s.Prelude.{
  ℕ, zero, suc, ◌+◌, String, ◌<>◌, Bool, true, false, ◌&&◌, Option, none, some, List, [], ◌∷◌, ◌++◌,
  map, join, nat_eq, contains, ◌==◌, if◌then◌else◌,
}
use metalk8s.Prelude.Dict
use metalk8s.Prelude.Dict.{Dict}
use metalk8s.Exec.{
  Exn, Outcome, return, raise, unfinished, ◌>>=◌, command, key_error, exception, exn_text,
}

-- A member of the cluster, as the etcd client gives it.
pub record Member : Type 0 where
  pub id : String
  pub name : String
  pub peer_urls : List String
  pub client_urls : List String

-- how `etcd.status()` ends
pub data Status : Type 0 where
  up connection_failed : Status
  failed : Exn → Status

-- What the module calls, on the state `S` of the cluster.
pub record Etcd : Type 1 where
  pub S : Type 0
  -- the argument `nodes`, where it is given
  pub Nodes : Type 0
  -- `metalk8s.minions_by_role` for the role etcd
  pub minions_by_role : Option Nodes → S → Outcome (List String)
  -- `mine.get` of `control_plane_ip`, for all minions
  pub control_plane_ips : S → Dict String
  -- the connection to a host, with the port of a URL, and its status
  pub status : String → Option String → S → Status
  -- `urlparse`: the host and the port
  pub urlparse : String → String × Option String
  pub members : String → S → Outcome (List Member)
  pub add_member : String → List String → S → Outcome Member × S

-- `[cp_ips[host] for host in etcd_hosts if host in cp_ips]`
unfoldable pub endpoints_of : Dict String → List String → List String
endpoints_of cp_ips [] = []
endpoints_of cp_ips (host ∷ hosts) = elim (Dict.get host cp_ips) [
  | none ↦ endpoints_of cp_ips hosts
  | some ip ↦ ip ∷ endpoints_of cp_ips hosts
]

-- `urls` are all among `known`
unfoldable pub all_known : List String → List String → Bool
all_known [] known = true
all_known (u ∷ urls) known = contains u known && all_known urls known

unfoldable pub peer_urls_of : List Member → List String
peer_urls_of [] = []
peer_urls_of (m ∷ ms) = m.peer_urls ++ peer_urls_of ms

module _ (e : Etcd) where
  unfoldable pub first_up : List String → e.S → Outcome String
  first_up [] s = raise (exception "Unable to find an available etcd member in the cluster")
  first_up (endpoint ∷ endpoints) s = elim (e.status endpoint none s) [
    | up ↦ return endpoint
    | connection_failed ↦ first_up endpoints s
    | failed x ↦ raise x
  ]

  unfoldable pub get_endpoint_up : Option e.Nodes → e.S → Outcome String
  unfolding endpoints_of first_up
  get_endpoint_up nodes s =
      e.minions_by_role nodes s >>= λ hosts. first_up (endpoints_of (e.control_plane_ips s) hosts) s

  -- `if not endpoint`
  unfoldable pub endpoint_or : Option String → Option e.Nodes → e.S → Outcome String
  unfolding get_endpoint_up
  endpoint_or none nodes s = get_endpoint_up nodes s
  endpoint_or (some endpoint) nodes s =
      if endpoint == "" then get_endpoint_up nodes s else return endpoint

  abbrev pub add_at : Outcome String → List String → e.S → Outcome Member × e.S
  add_at (return endpoint) peer_urls s = e.add_member endpoint peer_urls s
  add_at (raise x) peer_urls s = (raise x, s)
  add_at unfinished peer_urls s = (unfinished, s)

  unfoldable pub add_etcd_node : List String → Option String → e.S → Outcome Member × e.S
  unfolding endpoint_or
  add_etcd_node peer_urls endpoint s = add_at (endpoint_or endpoint none s) peer_urls s

  unfoldable pub urls_exist_in_cluster : List String → Option String → e.S → Outcome Bool
  unfolding endpoint_or all_known peer_urls_of
  urls_exist_in_cluster peer_urls endpoint s = endpoint_or endpoint none s >>= λ ep.
      e.members ep s >>= λ ms. return (all_known peer_urls (peer_urls_of ms))

  abbrev pub healthy : Status → ℕ
  healthy up = 0
  healthy _ = 1

  -- `urlparse(member.client_urls[0])`, and 1 for a member that is not healthy
  abbrev pub check_member : Member → e.S → Outcome ℕ
  check_member m s = elim m.client_urls [
    | [] ↦ raise (exception "list index out of range")
    | url ∷ urls ↦ return (healthy (e.status (e.urlparse url).0 (e.urlparse url).1 s))
  ]

  -- `unhealthy_member`
  unfoldable pub unhealthy : List Member → e.S → Outcome ℕ
  unhealthy [] s = return 0
  unhealthy (m ∷ ms) s = check_member m s >>= λ n. unhealthy ms s >>= λ k. return (n + k)

  abbrev pub verdict : ℕ → ℕ → Outcome String
  verdict unhealthy_member members =
      if nat_eq unhealthy_member members
      then raise (command "cluster is unavailable" [])
      else if nat_eq unhealthy_member 0
      then return "cluster is healthy"
      else raise (command "cluster is degraded" [])

  abbrev pub count {ℓ} : {A : Type ℓ} → List A → ℕ
  count [] = 0
  count (x ∷ xs) = suc (count xs)

  -- the endpoint of `check_etcd_health`
  abbrev pub health_endpoint : Option String → e.S → Outcome String
  health_endpoint none s = get_endpoint_up none s
  health_endpoint (some minion_id) s =
      if minion_id == ""
      then get_endpoint_up none s
      else elim (Dict.get minion_id (e.control_plane_ips s)) [
        | none ↦ raise (key_error minion_id)
        | some ip ↦ return ip
      ]

  unfoldable pub check_etcd_health : Option String → e.S → Outcome String
  unfolding unhealthy
  check_etcd_health minion_id s = health_endpoint minion_id s >>= λ endpoint.
      e.members endpoint s >>= λ ms. unhealthy ms s >>= λ n. verdict n (count ms)

  -- The list is empty where no endpoint is up; a failure to read the members is not caught.
  abbrev listed : Outcome String → e.S → Outcome (List Member)
  listed (return endpoint) s = e.members endpoint s
  listed (raise x) s = return []
  listed unfinished s = unfinished

  unfoldable pub get_etcd_member_list : Option String → Option e.Nodes → e.S → Outcome (List Member)
  unfolding endpoint_or
  get_etcd_member_list endpoint nodes s = listed (endpoint_or endpoint nodes s) s

-- the dict that the state gives; `changes` of a member that was added
pub record Ret : Type 0 where
  pub name : String
  pub changes : Option (String × String × String × String)
  -- the key that is written in test mode
  pub change : Option String
  pub result : Option Bool
  pub comment : String

abbrev pub present : String → List String → Ret
present name peer_urls = record {
  name = name;
  changes = none;
  change = none;
  result = some true;
  comment = "Peer URLs: " <> join " ," peer_urls <> " already exists";
}

abbrev would_add : String → List String → Ret
would_add name peer_urls = record {
  name = name;
  changes = none;
  change = some (join ", " peer_urls);
  result = none;
  comment = "Node would be added to the cluster";
}

abbrev pub added : String → Outcome Member → Outcome Ret
added name (return m) = return record {
  name = name;
  changes = some (m.id, m.name, join ", " m.peer_urls, join ", " m.client_urls);
  change = none;
  result = some true;
  comment = "Node added in etcd cluster";
}
added name (raise x) = return record {
  name = name;
  changes = none;
  change = none;
  result = some false;
  comment = "Failed to add " <> name <> " in the cluster: " <> exn_text x;
}
added name unfinished = unfinished

module _ (e : Etcd) where
  abbrev pub add_unless : Bool → String → List String → Outcome Bool → e.S → Outcome Ret × e.S
  add_unless test name peer_urls (raise x) s = (raise x, s)
  add_unless test name peer_urls unfinished s = (unfinished, s)
  add_unless test name peer_urls (return true) s = (return (present name peer_urls), s)
  add_unless true name peer_urls (return false) s = (return (would_add name peer_urls), s)
  add_unless false name peer_urls (return false) s =
      let (r, s') = add_etcd_node e peer_urls none s in (added name r, s')

  unfoldable pub member_present : Bool → String → List String → e.S → Outcome Ret × e.S
  unfolding urls_exist_in_cluster
  member_present test name peer_urls s =
      add_unless test name peer_urls (urls_exist_in_cluster e peer_urls none s) s
