-- ===== src/Kubernetes/Manifests/Labels.antt =====
-- The labels that are written into a manifest before an object is created or replaced.
use metalk8s.Prelude.{String, false, Option, none, some, ◌==◌, if◌then◌else◌, ◌≡◌, eq_refl}
use mathlib.Core.Path.{subst}
use metalk8s.Exec.{Exn, Outcome, return, raise}
use metalk8s.Action.Rules.{>>=-eq-return, return-injective}
use metalk8s.Kubernetes.Values.{Value, text, object, Fields, no_fields, get, put, get-put}
use metalk8s.Kubernetes.Manifests.{with_labels, dict_at, version_label}

-- `get "labels"` of the `metadata` of a manifest, and what stands there under a key
abbrev pub fields_at : String → Fields → Fields
fields_at key fs = elim (get key fs) [ some (object gs) ↦ gs | _ ↦ no_fields ]

taken :
    (o : Option Value) (e : Exn) (gs : Fields)
    → (elim o as (λ _. Outcome Fields) [
      | none ↦ return no_fields
      | some (object gs) ↦ return gs
      | some _ ↦ raise e
    ])
      ≡ return gs
    → (elim o [ some (object gs) ↦ gs | _ ↦ no_fields ]) ≡ gs
taken none e gs h = cc
taken (some (object x)) e gs h = cc
taken (some _) e gs h = cc

dict_at-fields_at :
    (key : String) (e : Exn) (fs gs : Fields) → dict_at key e fs ≡ return gs → fields_at key fs ≡ gs
unfolding dict_at
dict_at-fields_at key e fs gs h = taken (get key fs) e gs h

fields_at-put : (key : String) (fs gs : Fields) → fields_at key (put key (object gs) fs) ≡ gs
fields_at-put key fs gs = rw (fields_at, get-put key key (object gs) fs, eq_refl key)

-- what the code writes into the dict of the labels
abbrev pub marked : String → Fields → Fields
marked saltenv labels = put "heritage" (text "salt") (
    put "app.kubernetes.io/managed-by" (text "salt")
      (put "metalk8s.scality.com/version" (text (version_label saltenv)) labels))

-- what is found in a labelled manifest
Labelled : String → Fields → Fields → Type 0
unfolding version_label
Labelled saltenv manifest fs =
    ((key : String)
      → get key (fields_at "labels" (fields_at "metadata" fs)) ≡ (
          if "heritage" == key
          then some (text "salt")
          else if "app.kubernetes.io/managed-by" == key
          then some (text "salt")
          else if "metalk8s.scality.com/version" == key
          then some (text (version_label saltenv))
          else get key (fields_at "labels" (fields_at "metadata" manifest))))
    × ((key : String)
        → ("labels" == key) ≡ false
        → get key (fields_at "metadata" fs) ≡ get key (fields_at "metadata" manifest))
    × ((key : String) → ("metadata" == key) ≡ false → get key fs ≡ get key manifest)

get-marked :
    (saltenv key : String) (labels : Fields)
    → get key (marked saltenv labels) ≡ (
        if "heritage" == key
        then some (text "salt")
        else if "app.kubernetes.io/managed-by" == key
        then some (text "salt")
        else if "metalk8s.scality.com/version" == key
        then some (text (version_label saltenv))
        else get key labels)
unfolding version_label
get-marked saltenv key labels = rw (
  get-put "heritage" key _ _,
  get-put "app.kubernetes.io/managed-by" key _ _,
  get-put "metalk8s.scality.com/version" key _ _,
)

written :
    (saltenv : String) (manifest metadata labels : Fields)
    → fields_at "metadata" manifest ≡ metadata
    → fields_at "labels" metadata ≡ labels
    → Labelled saltenv manifest
        (put "metadata" (object (put "labels" (object (marked saltenv labels)) metadata)) manifest)
unfolding Labelled
written saltenv manifest metadata labels em el =
    let changed = put "labels" (object (marked saltenv labels)) metadata in
    let changed_metadata = fields_at-put "metadata" manifest changed in
    (
      λ key.
          rw (changed_metadata, fields_at-put "labels" metadata (marked saltenv labels), em, el)
            (get-marked saltenv key labels),
      λ key ne. rw (changed_metadata, get-put "labels" key _ metadata, ne, em),
      λ key ne. rw (get-put "metadata" key _ manifest, ne),
    )

-- A manifest that is labelled has under the three keys of MetalK8s the version of the environment
-- and the manager, under every other key of its labels what it had, and outside the labels what it
-- had.
pub with_labels-get :
    (saltenv : String) (manifest fs : Fields)
    → with_labels saltenv manifest ≡ return fs
    → ((key : String)
        → get key (fields_at "labels" (fields_at "metadata" fs)) ≡ (
            if "heritage" == key
            then some (text "salt")
            else if "app.kubernetes.io/managed-by" == key
            then some (text "salt")
            else if "metalk8s.scality.com/version" == key
            then some (text (version_label saltenv))
            else get key (fields_at "labels" (fields_at "metadata" manifest))))
      × ((key : String)
          → ("labels" == key) ≡ false
          → get key (fields_at "metadata" fs) ≡ get key (fields_at "metadata" manifest))
      × ((key : String) → ("metadata" == key) ≡ false → get key fs ≡ get key manifest)
unfolding with_labels Labelled
with_labels-get saltenv manifest fs h =
    let (metadata, hm, h1) = >>=-eq-return (dict_at "metadata" _ manifest) _ h in
    let (labels, hl, h2) = >>=-eq-return (dict_at "labels" _ metadata) _ h1 in
    let em = dict_at-fields_at "metadata" _ manifest metadata hm in
    let el = dict_at-fields_at "labels" _ metadata labels hl in
    subst (Labelled saltenv manifest) (return-injective h2)
      (written saltenv manifest metadata labels em el)
