-- ===== src/Helpers/Tests.antt =====
-- An API server that is up after two pings, a pillar with errors, and the theorems at them.
use metalk8s.Prelude.{
  ℕ, zero, suc, ◌<>◌, true, false, none, some, List, [], ◌∷◌, All, join, ◌↔◌, ◌≡◌, refl, arith,
}
use metalk8s.Exec.{return, raise, command}
use metalk8s.Kubernetes.Values.{
  null, text, array, object, no_items, item, Fields, no_fields, field, get, remove,
}
use metalk8s.Helpers.{
  VersionReply, version, request_failed, get_version_info, ping, ApiServer, wait_more,
  wait_apiserver, truthy, texts_of, listed, with_role, minions_by_role, get_kubeconfig,
}
use metalk8s.Helpers.Wait.{UpAfter, wait_apiserver-up, minions_by_role-twice}
use metalk8s.Helpers.Pillar.{
  Key, dotted, path, split, key_list, walk, errors_for, check_pillar_keys,
}
use metalk8s.Helpers.Pillar.Available.{Leads, check_pillar_keys-true}

reply : ℕ → VersionReply
reply zero = version null
reply (suc n) = request_failed "connection refused"

less : ℕ → ℕ
less zero = 0
less (suc n) = n

-- the state is the number of sleeps until the server is up
abbrev server : ApiServer ℕ
server = record { version_reply = λ n. (reply n, n); sleep = λ interval n. less n }

program : Unit {0}
unfolding reply less get_version_info ping wait_more wait_apiserver truthy texts_of with_role
    minions_by_role split walk errors_for check_pillar_keys get remove UpAfter get_kubeconfig
program = tt

wait_apiserver-up_example : (wait_apiserver server 10 1 2).0 ≡ return true
unfolding program
wait_apiserver-up_example = wait_apiserver-up server 10 1 2 2 (omega arith) (refl, (refl, refl))

too_few : (wait_apiserver server 2 1 2).0 ≡ return false
unfolding program
too_few = refl

pillar_first :
    get_kubeconfig (none, some "") (some "/etc/a.conf", none) (some "/etc/b.conf", none)
    ≡ (some "/etc/a.conf", none)
unfolding program
pillar_first = refl

abbrev nodes : Fields
nodes =
    field "bootstrap" (object (field "roles" (array (item (text "etcd") no_items)) no_fields))
      (field "_errors" (array (item (text "no API") no_items)) no_fields)

minions_by_role-twice_example :
    ((minions_by_role "etcd" nodes).0
      ≡ raise (
          command
            ("Can't retrieve minions by role because of errors in pillar 'metalk8s:nodes': "
              <> join ", " (listed (get "_errors" nodes)))
            []))
    × ((minions_by_role "etcd" (minions_by_role "etcd" nodes).1).0
        ≡ with_role "etcd" (remove "_errors" nodes))
unfolding program
minions_by_role-twice_example = minions_by_role-twice "etcd" nodes refl

abbrev pillar : Fields
pillar = field "metalk8s" (object (field "nodes" (object nodes) no_fields)) no_fields

abbrev keys : List Key
keys = dotted "metalk8s.nodes" ∷ path ("metalk8s" ∷ "nodes" ∷ "bootstrap" ∷ []) ∷ []

check_pillar_keys-true_example :
    (check_pillar_keys keys true pillar no_fields no_fields true ≡ return true)
    ↔ All (λ k. Leads (object pillar) (key_list k)) keys
check_pillar_keys-true_example = check_pillar_keys-true keys true true pillar no_fields no_fields

missing :
    check_pillar_keys (dotted "metalk8s.nodes.web" ∷ []) true pillar no_fields no_fields false
    ≡ return false
unfolding program
missing = refl
