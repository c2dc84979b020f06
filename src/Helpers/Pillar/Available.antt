-- ===== src/Helpers/Pillar/Available.antt =====
-- When `check_pillar_keys` returns true.
use metalk8s.Prelude.{
  String, Bool, true, false, Option, none, some, List, [], ◌∷◌, All, ◌≡◌, ◌↔◌, refl, sym, ap, ◌∙◌,
  join,
}
use mathlib.Core.Bool.{true≢false}
use mathlib.Core.Path.{subst}
use metalk8s.Exec.{Outcome, return, ◌>>=◌}
use metalk8s.Action.Rules.{>>=-eq-return, return-injective}
use metalk8s.Kubernetes.Values.{Value, object, Fields, get}
use metalk8s.Helpers.Pillar.{
  Key, step, key_list, dict_of, present, walk, errors_for, settle, chosen_pillar, check_pillar_keys,
  and_then,
}

-- Each key of the path leads from a dict to a value that Python takes for true.
unfoldable pub Leads : Value → List String → Type 0
Leads value [] = Unit
Leads value (key ∷ keys) =
    (fs : Fields) × (dict_of value ≡ return fs)
    × ((v : Value) × (present (get key fs) ≡ some v) × Leads v keys)

by_value :
    (keys : List String) (whole : String) (o : Option Value) (e : String)
    → ((v : Value) → walk v keys whole ≡ return none → Leads v keys)
    → (elim o as (λ _. Outcome (Option String)) [
      | some v ↦ walk v keys whole
      | none ↦ return (some e)
    ])
      ≡ return none
    → (v : Value) × (o ≡ some v) × Leads v keys
by_value keys whole none e rest h = cc
by_value keys whole (some v) e rest h = (v, refl, rest v h)

walk-Leads :
    (value : Value) (keys : List String) (whole : String)
    → walk value keys whole ≡ return none
    → Leads value keys
unfolding walk Leads
walk-Leads value [] whole h = tt
walk-Leads value (key ∷ keys) whole h =
    let (fs, hd, h1) = >>=-eq-return (dict_of value) _ h in
    (fs, hd, by_value keys whole (present (get key fs)) _ (λ v. walk-Leads v keys whole) h1)

some-injective : {a b : Value} → some a ≡ some b → a ≡ b
some-injective h = cc

found :
    (keys : List String) (whole : String) (o : Option Value) (v : Value) (e : String)
    → o ≡ some v
    → walk v keys whole ≡ return none
    → (elim o as (λ _. Outcome (Option String)) [
      | some v ↦ walk v keys whole
      | none ↦ return (some e)
    ])
      ≡ return none
found keys whole none v e h w = cc
found keys whole (some x) v e h w = ap (λ y. walk y keys whole) (some-injective h) ∙ w

Leads-walk :
    (value : Value) (keys : List String) (whole : String)
    → Leads value keys
    → walk value keys whole ≡ return none
unfolding walk Leads
Leads-walk value [] whole h = refl
Leads-walk value (key ∷ keys) whole (fs, hd, (v, hv, h)) =
    subst (λ r. (r >>= step (λ v. walk v keys whole) key whole) ≡ return none) (sym hd)
      (found keys whole (present (get key fs)) v _ hv (Leads-walk v keys whole h))

errors_for-Leads :
    (pillar : Value) (keys : List Key)
    → errors_for pillar keys ≡ return []
    → All (λ k. Leads pillar (key_list k)) keys
unfolding errors_for
errors_for-Leads pillar [] h = tt
errors_for-Leads pillar (k ∷ ks) h =
    let (e, he, h1) = >>=-eq-return (walk pillar (key_list k) (join "." (key_list k))) _ h in
    let (es, hes, h2) = >>=-eq-return (errors_for pillar ks) _ h1 in
    let (en, esn) = no_errors e es (return-injective h2) in
    (
      walk-Leads pillar (key_list k) _ (he ∙ ap return en),
      errors_for-Leads pillar ks (hes ∙ ap return esn),
    )
  where
    no_errors : (e : Option String) (es : List String) → and_then e es ≡ [] → (e ≡ none) × (es ≡ [])
    no_errors none es h = (refl, h)
    no_errors (some x) es h = cc

Leads-errors_for :
    (pillar : Value) (keys : List Key)
    → All (λ k. Leads pillar (key_list k)) keys
    → errors_for pillar keys ≡ return []
unfolding errors_for
Leads-errors_for pillar [] h = refl
Leads-errors_for pillar (k ∷ ks) h =
    rw (Leads-walk pillar (key_list k) (join "." (key_list k)) h.0, Leads-errors_for pillar ks h.1)

settle-true :
    (raise_error : Bool) (es : List String) → settle raise_error es ≡ return true → es ≡ []
settle-true raise_error [] h = refl
settle-true true (e ∷ es) h = cc
settle-true false (e ∷ es) h = absurd (true≢false (sym (return-injective h)))

-- check_pillar_keys returns true exactly if each of the keys leads, from the pillar that is chosen,
-- through dicts whose values on the way and at its end are all taken for true.
pub check_pillar_keys-true :
    (keys : List Key) (refresh raise_error : Bool) (pillar compiled known : Fields)
    → (check_pillar_keys keys refresh pillar compiled known raise_error ≡ return true)
      ↔ All (λ k. Leads (object (chosen_pillar refresh pillar compiled known)) (key_list k)) keys
unfolding check_pillar_keys
check_pillar_keys-true keys refresh raise_error pillar compiled known =
    let chosen = object (chosen_pillar refresh pillar compiled known) in
    (
      λ h.
          let (es, he, h1) = >>=-eq-return (errors_for chosen keys) _ h in
          errors_for-Leads chosen keys (he ∙ ap return (settle-true raise_error es h1)),
      λ h. rw (Leads-errors_for chosen keys h),
    )
