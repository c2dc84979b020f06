-- ===== src/Etcd/Present.antt =====
-- The state `member_present`, run twice.
use metalk8s.Prelude.{
  String, Bool, true, false, ◌||◌, none, some, List, [], ◌∷◌, ◌++◌, contains, ◌==◌, ◌≡◌, refl, sym,
  ap, ◌∙◌, eq_refl,
}
use mathlib.Core.List.{append_assoc}
use mathlib.Core.Path.{subst}
use metalk8s.Exec.{Exn, Outcome, return, raise, unfinished, ◌>>=◌}
use metalk8s.Action.Rules.{return-injective}
use metalk8s.Etcd.{
  add_at, Member, Etcd, all_known, peer_urls_of, get_endpoint_up, endpoint_or,
  urls_exist_in_cluster, present, added, add_etcd_node, Ret, member_present, add_unless,
}

-- What the state relies on of etcd: the answer to an addition is a member with the peer URLs that
-- were given, and an endpoint that lists the members right behind it has this member among them.
pub record Adds (e : Etcd) : Type 1 where
  pub given :
      (endpoint : String) (peer_urls : List String) (s s' : e.S) (m : Member)
      → e.add_member endpoint peer_urls s ≡ (return m, s')
      → m.peer_urls ≡ peer_urls
  pub listed :
      (endpoint other : String) (peer_urls : List String) (s s' : e.S) (m : Member)
      (ms : List Member)
      → e.add_member endpoint peer_urls s ≡ (return m, s')
      → e.members other s' ≡ return ms
      → (before : List Member) × (after : List Member) × (ms ≡ before ++ m ∷ after)

not_raised : {A : Type 0} (x : Exn) (a : A) → ¬ (raise x ≡ return a)
not_raised x a h = cc

not_ended : {A : Type 0} (a : A) → ¬ (unfinished ≡ return a)
not_ended a h = cc

false_is_no_true : ¬ (some false ≡ some true)
false_is_no_true h = cc

-- the URLs of a list are known where it stands
contains_self : (x : String) (xs : List String) → contains x (x ∷ xs) ≡ true
contains_self x xs = rw (eq_refl x)

contains-step :
    (x y : String) (xs : List String) → contains x xs ≡ true → contains x (y ∷ xs) ≡ true
contains-step x y xs h = if_true (y == x) (contains x xs) h
  where
    if_true : (b c : Bool) → c ≡ true → (b || c) ≡ true
    if_true true c h = refl
    if_true false c h = h

contains-append :
    (x : String) (xs ys : List String) → contains x ys ≡ true → contains x (xs ++ ys) ≡ true
contains-append x [] ys h = h
contains-append x (y ∷ xs) ys h = contains-step x y (xs ++ ys) (contains-append x xs ys h)

append_one : (u : String) (before xs : List String) → (before ++ u ∷ []) ++ xs ≡ before ++ (u ∷ xs)
append_one u [] xs = refl
append_one u (y ∷ before) xs = ap (λ l. y ∷ l) (append_one u before xs)

all_known-append :
    (urls before after : List String) → all_known urls (before ++ (urls ++ after)) ≡ true
unfolding all_known
all_known-append [] before after = refl
all_known-append (u ∷ urls) before after =
    rw (contains-append u before (u ∷ (urls ++ after)) (contains_self u (urls ++ after))) (
      subst (λ l. all_known urls l ≡ true) (append_one u before (urls ++ after))
        (all_known-append urls (before ++ u ∷ []) after))

-- the URLs of a member are among those of the list that it stands in
all_known-peer_urls_of :
    (m : Member) (before after : List Member) (known : List String)
    → all_known m.peer_urls (known ++ peer_urls_of (before ++ m ∷ after)) ≡ true
unfolding peer_urls_of
all_known-peer_urls_of m [] after known = all_known-append m.peer_urls known (peer_urls_of after)
all_known-peer_urls_of m (b ∷ before) after known =
    subst (λ l. all_known m.peer_urls l ≡ true)
      (append_assoc known b.peer_urls (peer_urls_of (before ++ m ∷ after)))
      (all_known-peer_urls_of m before after (known ++ b.peer_urls))

module _ (e : Etcd) (adds : Adds e) (name : String) (peer_urls : List String) where
  -- what a second run gives: it raises what the search for an endpoint or the listing raises, and
  -- reports otherwise that the peer URLs are there
  abbrev pub again : e.S → Outcome Ret
  again s =
      get_endpoint_up e none s >>= λ ep. e.members ep s >>= λ ms. return (present name peer_urls)

  -- every listing has the peer URLs
  abbrev Known : e.S → Type 0
  Known s =
      (ep : String) (ms : List Member)
      → get_endpoint_up e none s ≡ return ep
      → e.members ep s ≡ return ms
      → all_known peer_urls (peer_urls_of ms) ≡ true

  true-Known : (s : e.S) → urls_exist_in_cluster e peer_urls none s ≡ return true → Known s
  unfolding urls_exist_in_cluster
  true-Known s h ep ms he hm = return-injective (rw (endpoint_or, he, hm) at h)

  added-Known :
      (s s' : e.S) (m : Member) (q : Outcome String)
      → add_at e q peer_urls s ≡ (return m, s')
      → Known s'
  added-Known s s' m (return ep) h = λ ep' ms he hm.
      let (before, after, split) = adds.listed ep ep' peer_urls s s' m ms h hm in
      subst (λ u. all_known u (peer_urls_of ms) ≡ true) (adds.given ep peer_urls s s' m h)
        (subst (λ l. all_known m.peer_urls (peer_urls_of l) ≡ true) (sym split)
          (all_known-peer_urls_of m before after []))
  added-Known s s' m (raise x) h = absurd (not_raised x m (ap (λ p. p.0) h))
  added-Known s s' m unfinished h = absurd (not_ended m (ap (λ p. p.0) h))

  Known-again : (s : e.S) → Known s → member_present e false name peer_urls s ≡ (again s, s)
  unfolding member_present urls_exist_in_cluster endpoint_or
  Known-again s known = searched (get_endpoint_up e none s) refl
    where
      read :
          (ep : String) (x : Outcome (List Member))
          → get_endpoint_up e none s ≡ return ep
          → e.members ep s ≡ x
          → add_unless e false name peer_urls
              (x >>= λ ms. return (all_known peer_urls (peer_urls_of ms)))
              s
            ≡ ((x >>= λ ms. return (present name peer_urls)), s)
      read ep (return ms) he hm = rw (known ep ms he hm) refl
      read ep (raise y) he hm = refl
      read ep unfinished he hm = refl

      searched :
          (x : Outcome String)
          → get_endpoint_up e none s ≡ x
          → add_unless e false name peer_urls
              (x >>= λ ep. e.members ep s >>= λ ms. return (all_known peer_urls (peer_urls_of ms)))
              s
            ≡ ((x >>= λ ep. e.members ep s >>= λ ms. return (present name peer_urls)), s)
      searched (return ep) he = read ep (e.members ep s) he refl
      searched (raise y) he = refl
      searched unfinished he = refl

  after_adding :
      (s s' s1 : e.S) (r : Ret) (q : Outcome Member)
      → add_etcd_node e peer_urls none s ≡ (q, s1)
      → added name q ≡ return r
      → s1 ≡ s'
      → r.result ≡ some true
      → Known s'
  unfolding add_etcd_node
  after_adding s s' s1 r (return m) hq h hs hr =
      subst Known hs (added-Known s s1 m (endpoint_or e none none s) hq)
  after_adding s s' s1 r (raise x) hq h hs hr =
      absurd (false_is_no_true (ap (λ o. o.result) (return-injective h) ∙ hr))
  after_adding s s' s1 r unfinished hq h hs hr = absurd (not_ended r h)

  by_outcome :
      (s s' : e.S) (r : Ret) (x : Outcome Bool)
      → urls_exist_in_cluster e peer_urls none s ≡ x
      → add_unless e false name peer_urls x s ≡ (return r, s')
      → r.result ≡ some true
      → Known s'
  by_outcome s s' r (return true) hx h hr = subst Known (ap (λ p. p.1) h) (true-Known s hx)
  by_outcome s s' r (return false) hx h hr =
      after_adding s s' (add_etcd_node e peer_urls none s).1 r (add_etcd_node e peer_urls none s).0
        refl (ap (λ p. p.0) h) (ap (λ p. p.1) h) hr
  by_outcome s s' r (raise y) hx h hr = absurd (not_raised y r (ap (λ p. p.0) h))
  by_outcome s s' r unfinished hx h hr = absurd (not_ended r (ap (λ p. p.0) h))

  -- Where etcd answers an addition with a member that has the given peer URLs, and an endpoint that
  -- lists the members right behind it lists this one, a state member_present that returned with the
  -- result true, run again, adds nothing: it leaves the cluster as it is, and reports without changes
  -- that the peer URLs are there, if an endpoint is found and lists its members, and otherwise raises
  -- what this raises.
  pub member_present-again :
      (s s' : e.S) (r : Ret)
      → member_present e false name peer_urls s ≡ (return r, s')
      → r.result ≡ some true
      → member_present e false name peer_urls s' ≡ (again s', s')
  unfolding member_present
  member_present-again s s' r h hr =
      Known-again s' (by_outcome s s' r (urls_exist_in_cluster e peer_urls none s) refl h hr)
