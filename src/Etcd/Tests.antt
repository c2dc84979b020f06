-- ===== src/Etcd/Tests.antt =====
-- A cluster of two etcd members, and the theorems at it.
use metalk8s.Prelude.{
  String, join, true, false, none, some, List, [], ◌∷◌, ◌==◌, if◌then◌else◌, ◌≡◌, refl, sym, ap,
  ◌∙◌,
}
use metalk8s.Prelude.Dict
use metalk8s.Action.Rules.{return-injective}
use metalk8s.Exec.{return, raise, command}
use metalk8s.Etcd.{
  Member, Status, up, connection_failed, Etcd, endpoints_of, all_known, peer_urls_of, first_up,
  get_endpoint_up, endpoint_or, urls_exist_in_cluster, unhealthy, check_etcd_health, add_etcd_node,
  present, member_present, Ret,
}
use metalk8s.Etcd.Health.{check_etcd_health-health}
use metalk8s.Etcd.Endpoint.{First, get_endpoint_up-First}
use metalk8s.Etcd.Present.{Adds, member_present-again}

abbrev member : String → String → Member
member name url = record { id = name; name = name; peer_urls = url ∷ []; client_urls = url ∷ [] }

abbrev status : String → Status
status host = if host == "10.0.0.2" then up else connection_failed

abbrev member_of : List String → Member
member_of urls = record { id = "c"; name = "c"; peer_urls = urls; client_urls = urls }

-- the state is the list of the peer URLs that were last added
abbrev etcd : Etcd
etcd = record {
  S = List String;
  Nodes = Unit {0};
  minions_by_role = λ nodes s. return ("one" ∷ "two" ∷ "three" ∷ []);
  control_plane_ips = λ s. ("one", "10.0.0.1") ∷ ("three", "10.0.0.2") ∷ [];
  status = λ host port s. status host;
  urlparse = λ url. (url, some "2379");
  members = λ endpoint s. return (member "a" "10.0.0.1" ∷ member "b" "10.0.0.2" ∷ member_of s ∷ []);
  add_member = λ endpoint urls s. (return (member_of urls), urls);
}

program : Unit {0}
unfolding endpoints_of all_known peer_urls_of first_up get_endpoint_up endpoint_or
    urls_exist_in_cluster unhealthy check_etcd_health add_etcd_node member_present join Dict.get
program = tt

check_etcd_health-health_example :
    check_etcd_health etcd none ("10.0.0.2" ∷ []) ≡ raise (command "cluster is degraded" [])
unfolding program
check_etcd_health-health_example =
    check_etcd_health-health etcd none ("10.0.0.2" ∷ []) "10.0.0.2"
      (member "a" "10.0.0.1" ∷ member "b" "10.0.0.2" ∷ member_of ("10.0.0.2" ∷ []) ∷ []) refl refl
      (("10.0.0.1", [], refl), (("10.0.0.2", [], refl), (("10.0.0.2", [], refl), tt)))

get_endpoint_up-First_example :
    (hosts : List String) × (etcd.minions_by_role none [] ≡ return hosts)
    × First etcd (endpoints_of (etcd.control_plane_ips []) hosts) "10.0.0.2" []
unfolding program
get_endpoint_up-First_example = get_endpoint_up-First etcd none [] "10.0.0.2" refl

adds : Adds etcd
adds = record {
  given = λ endpoint urls s s' m h.
      sym (ap (λ (x : Member). x.peer_urls) (return-injective (ap (λ p. p.0) h)));
  listed = λ endpoint other urls s s' m ms h k. (
    member "a" "10.0.0.1" ∷ member "b" "10.0.0.2" ∷ [],
    [],
    sym (return-injective k)
        ∙ ap (λ x. member "a" "10.0.0.1" ∷ member "b" "10.0.0.2" ∷ x ∷ [])
            (ap member_of (sym (ap (λ p. p.1) h)) ∙ return-injective (ap (λ p. p.0) h)),
  );
}

abbrev new_member : Ret
new_member = record {
  name = "new";
  changes = some ("c", "c", "https://10.0.0.3:2380", "https://10.0.0.3:2380");
  change = none;
  result = some true;
  comment = "Node added in etcd cluster";
}

abbrev known : Ret
known = present "new" ("https://10.0.0.3:2380" ∷ [])

member_present-again_example :
    member_present etcd false "new" ("https://10.0.0.3:2380" ∷ []) ("https://10.0.0.3:2380" ∷ [])
    ≡ (return known, "https://10.0.0.3:2380" ∷ [])
unfolding program
member_present-again_example =
    member_present-again etcd adds "new" ("https://10.0.0.3:2380" ∷ []) []
      ("https://10.0.0.3:2380" ∷ []) new_member refl refl
