-- ===== src/Kubernetes/Kinds/Known.antt =====
-- That the tables of kinds serve every kind that they name.
use mathlib.Core.Path.{subst}
use mathlib.Core.Bool.{true≢false}
use metalk8s.Prelude.{
  String, Bool, true, false, not, ◌&&◌, Option, none, some, List, [], ◌∷◌, ◌≡◌, refl, sym, ap, ◌==◌,
  ◌||◌, any, eq_refl, ◌⊎◌, inl, inr, if◌then◌else◌,
}
use metalk8s.Exec.{Exn, Outcome, return, raise}
use metalk8s.Action.Rules.{>>=-eq-return, return-injective}
use metalk8s.Kubernetes.Clients.{Apis, object_scope, api_client, custom_crud_methods}
use metalk8s.Kubernetes.Table.{StdKind, CustomKind, known_std_kinds, custom_kinds}
use metalk8s.Kubernetes.Kinds.{
  KindInfo, CrKindInfo, standard, Tables, kind_info, cr_kind_info, load_std, load_custom, load,
  find_std, find_custom, get_kind_info, rpartition, custom_client,
}

-- an entry of a table
abbrev pub Entry : {A : Type 0} → A → List A → Type 0
Entry e [] = ⊥
Entry e (x ∷ xs) = (x ≡ e) ⊎ Entry e xs

abbrev same_key : StdKind → StdKind → Bool
same_key a b = b.api_version == a.api_version && b.kind == a.kind

-- No key stands twice.
abbrev distinct : List StdKind → Bool
distinct [] = true
distinct (e ∷ es) = not (any (λ x. same_key x e) es) && distinct es

abbrev among : List CustomKind → StdKind → Bool
among cs e = any (λ c. c.api_version == e.api_version && c.kind == e.kind) cs

-- The keys of the two tables, and that no standard kind is a custom one.
keys-distinct : distinct known_std_kinds ≡ true
keys-distinct = refl

keys-apart : any (among custom_kinds) known_std_kinds ≡ false
keys-apart = refl

and-split : (a b : Bool) → a && b ≡ true → (a ≡ true) × (b ≡ true)
and-split true b h = (refl, h)
and-split false b h = absurd (true≢false (sym h))

not-true : (a : Bool) → not a ≡ true → a ≡ false
not-true true h = absurd (true≢false (sym h))
not-true false h = refl

or-false : (a b : Bool) → a || b ≡ false → (a ≡ false) × (b ≡ false)
or-false true b h = absurd (true≢false h)
or-false false b h = (refl, h)

any-Entry :
    {A : Type 0} (test : A → Bool) (xs : List A) (x : A)
    → any test xs ≡ false
    → Entry x xs
    → test x ≡ false
any-Entry test [] x h e = absurd e
any-Entry test (y ∷ ys) x h (inl e) =
    subst (λ z. test z ≡ false) e (or-false (test y) (any test ys) h).0
any-Entry test (y ∷ ys) x h (inr e) = any-Entry test ys x (or-false (test y) (any test ys) h).1 e

-- what a table must give for an entry
Served : Apis → List (StdKind × KindInfo) → StdKind → Type 0
unfolding find_std kind_info
Served apis ks e =
    (k : KindInfo) × (kind_info apis e.model e.api_cls e.name e.method_names ≡ return k)
    × (find_std e.api_version e.kind ks ≡ some (standard e k))

Served-head :
    (apis : Apis) (e : StdKind) (k : KindInfo) (ks : List (StdKind × KindInfo))
    → kind_info apis e.model e.api_cls e.name e.method_names ≡ return k
    → Served apis ((e, k) ∷ ks) e
unfolding Served find_std
Served-head apis e k ks h = (k, h, rw (eq_refl e.api_version, eq_refl e.kind))

Served-tail :
    (apis : Apis) (x e : StdKind) (k : KindInfo) (ks : List (StdKind × KindInfo))
    → same_key e x ≡ false
    → Served apis ks e
    → Served apis ((x, k) ∷ ks) e
unfolding Served find_std
Served-tail apis x e k ks h (k', hk, hf) = (k', hk, rw (h, hf))

load_std-Served :
    (apis : Apis) (es : List StdKind) (ks : List (StdKind × KindInfo)) (e : StdKind)
    → load_std apis es ≡ return ks
    → distinct es ≡ true
    → Entry e es
    → Served apis ks e
unfolding load_std
load_std-Served apis [] ks e h d m = absurd m
load_std-Served apis (x ∷ es) ks e h d m =
    let (k, hk, h1) = >>=-eq-return (kind_info apis x.model x.api_cls x.name x.method_names) _ h in
    let (ks', hks, h2) = >>=-eq-return (load_std apis es) _ h1 in
    let (dx, ds) = and-split (not (any (λ y. same_key y x) es)) (distinct es) d in
    subst (λ l. Served apis l e) (return-injective h2)
      (elim m [
        | inl ex ↦ subst (Served apis ((x, k) ∷ ks')) ex (Served-head apis x k ks' hk)
        | inr ms ↦
            Served-tail apis x e k ks'
              (any-Entry (λ y. same_key y x) es e (not-true (any (λ y. same_key y x) es) dx) ms)
              (load_std-Served apis es ks' e hks ds ms)
      ])

-- a custom kind has the key of its entry
custom_client-key :
    (apis : Apis) (c : CustomKind) (group version : String) (k : CrKindInfo)
    → custom_client apis c group version ≡ return k
    → (k.api_version ≡ c.api_version) × (k.kind ≡ c.kind)
custom_client-key apis c group version k h =
    let (s, hs, h1) = >>=-eq-return (object_scope c.scope) _ h in
    let (a, ha, h2) =
      >>=-eq-return (api_client apis custom_crud_methods "CustomObjectsApi" _ none none) _ h1 in
    (
      ap (λ x. x.api_version) (sym (return-injective h2)),
      ap (λ x. x.kind) (sym (return-injective h2)),
    )

guarded :
    {A : Type 0} (b c : Bool) (e : Exn) (r : Outcome A) (a : A)
    → (if b then raise e else if c then raise e else r) ≡ return a
    → r ≡ return a
guarded true c e r a h = cc
guarded false true e r a h = cc
guarded false false e r a h = h

parted :
    (apis : Apis) (c : CustomKind) (o : Option (String × String)) (e : Exn) (k : CrKindInfo)
    → (elim o [
      | none ↦ raise e
      | some p ↦
          if p.0 == "" then raise e else if p.1 == "" then raise e else custom_client apis c p.0 p.1
    ])
      ≡ return k
    → (k.api_version ≡ c.api_version) × (k.kind ≡ c.kind)
parted apis c none e k h = cc
parted apis c (some p) e k h =
    custom_client-key apis c p.0 p.1 k
      (guarded (p.0 == "") (p.1 == "") e (custom_client apis c p.0 p.1) k h)

cr_kind_info-key :
    (apis : Apis) (c : CustomKind) (k : CrKindInfo)
    → cr_kind_info apis c ≡ return k
    → (k.api_version ≡ c.api_version) × (k.kind ≡ c.kind)
unfolding cr_kind_info
cr_kind_info-key apis c k h = parted apis c (rpartition c.api_version) _ k h

find_custom-none :
    (apis : Apis) (cs : List CustomKind) (ks : List CrKindInfo) (e : StdKind)
    → load_custom apis cs ≡ return ks
    → among cs e ≡ false
    → find_custom e.api_version e.kind ks ≡ none
unfolding load_custom find_custom
find_custom-none apis [] ks e h a =
    subst (λ l. find_custom e.api_version e.kind l ≡ none) (return-injective h) refl
find_custom-none apis (c ∷ cs) ks e h a =
    let (k, hk, h1) = >>=-eq-return (cr_kind_info apis c) _ h in
    let (ks', hks, h2) = >>=-eq-return (load_custom apis cs) _ h1 in
    let (ac, acs) = or-false (c.api_version == e.api_version && c.kind == e.kind) (among cs e) a in
    let (ev, ek) = cr_kind_info-key apis c k hk in
    let rest = find_custom-none apis cs ks' e hks acs in
    subst (λ l. find_custom e.api_version e.kind l ≡ none) (return-injective h2)
      (rw (ev, ek, ac, rest))

-- Once the tables are made, get_kind_info gives for the apiVersion and the kind of every entry of
-- KNOWN_STD_KINDS the KindInfo that was made for this entry.
pub get_kind_info-standard :
    (apis : Apis) (tables : Tables) (e : StdKind)
    → load apis ≡ return tables
    → Entry e known_std_kinds
    → (k : KindInfo) × (kind_info apis e.model e.api_cls e.name e.method_names ≡ return k)
      × (get_kind_info tables (some e.api_version) (some e.kind) ≡ return (standard e k))
unfolding load get_kind_info Served
get_kind_info-standard apis tables e h m =
    let (std, hs, h1) = >>=-eq-return (load_std apis known_std_kinds) _ h in
    let (customs, hc, h2) = >>=-eq-return (load_custom apis custom_kinds) _ h1 in
    let (k, hk, hf) = load_std-Served apis known_std_kinds std e hs keys-distinct m in
    let none_custom =
      find_custom-none apis custom_kinds customs e hc
        (any-Entry (among custom_kinds) known_std_kinds e keys-apart m) in
    (
      k,
      hk,
      subst (λ t. get_kind_info t (some e.api_version) (some e.kind) ≡ return (standard e k))
          (return-injective h2) (rw (none_custom, hf)),
    )
