-- ===== src/Pillars/Promoted.antt =====
-- What `promote_errors` writes.
use metalk8s.Prelude.{String, false, Option, none, some, ◌==◌, ◌≡◌, refl, sym, ap, ◌∙◌}
use mathlib.Core.Path.{subst}
use metalk8s.Exec.{return}
use metalk8s.Action.Rules.{return-injective}
use metalk8s.Kubernetes.Values.{
  Value, array, object, Items, no_items, item, Fields, get, put, get-put,
}
use metalk8s.Pillars.{append, extend, add_errors, promote_errors}

-- the list of errors of a dict
abbrev errors_in : Option Value → Items
errors_in (some (array xs)) = xs
errors_in _ = no_items

abbrev pub errors_at : Fields → Items
errors_at fs = errors_in (get "_errors" fs)

append-no_items : (xs : Items) → append xs no_items ≡ xs
unfolding append
append-no_items no_items = refl
append-no_items (item x xs) = ap (item x) (append-no_items xs)

-- what is claimed of the dict that is left
Promoted : Fields → Items → Fields → Type 0
Promoted source xs result =
    (errors_at result ≡ append (errors_at source) xs)
    × ((other : String) → ("_errors" == other) ≡ false → get other result ≡ get other source)

errors_at-put : (source : Fields) (xs : Items) → errors_at (put "_errors" (array xs) source) ≡ xs
errors_at-put source xs = ap errors_in (get-put "_errors" "_errors" (array xs) source)

get-other :
    (source : Fields) (xs : Items) (other : String)
    → ("_errors" == other) ≡ false
    → get other (put "_errors" (array xs) source) ≡ get other source
get-other source xs other ne = rw (get-put "_errors" other (array xs) source, ne)

extend-Promoted :
    (source result : Fields) (o : Option Value) (xs : Items)
    → get "_errors" source ≡ o
    → extend source o xs ≡ return result
    → Promoted source xs result
unfolding Promoted append
extend-Promoted source result none xs e h =
    subst (Promoted source xs) (return-injective h)
      (errors_at-put source xs ∙ sym (ap (λ v. append (errors_in v) xs) e), get-other source xs)
extend-Promoted source result (some (array old)) xs e h =
    subst (Promoted source xs) (return-injective h) (
      errors_at-put source (append old xs) ∙ sym (ap (λ v. append (errors_in v) xs) e),
      get-other source (append old xs),
    )
extend-Promoted source result (some _) xs e h = cc

add_errors-Promoted :
    (source result : Fields) (xs : Items)
    → add_errors source (some (array xs)) ≡ return result
    → Promoted source xs result
unfolding Promoted
add_errors-Promoted source result no_items h =
    subst (Promoted source no_items) (return-injective h)
      (sym (append-no_items (errors_at source)), λ other ne. refl)
add_errors-Promoted source result (item x xs) h =
    extend-Promoted source result (get "_errors" source) (item x xs) refl h

opened :
    (source patch : Fields) (key : String) (xs : Items)
    → get key source ≡ some (object patch)
    → get "_errors" patch ≡ some (array xs)
    → promote_errors source key ≡ add_errors source (some (array xs))
unfolding promote_errors
opened source patch key xs hk hp = rw (promote_errors, hk, hp)

-- Where the key has a dict with a list of errors and promote_errors returns, the dict has its own
-- errors followed by these, and under every other key what it had.
pub promote_errors-append :
    (source patch result : Fields) (key : String) (xs : Items)
    → get key source ≡ some (object patch)
    → get "_errors" patch ≡ some (array xs)
    → promote_errors source key ≡ return result
    → (errors_at result ≡ append (errors_at source) xs)
      × ((other : String) → ("_errors" == other) ≡ false → get other result ≡ get other source)
unfolding promote_errors Promoted
promote_errors-append source patch result key xs hk hp h =
    add_errors-Promoted source result xs (sym (opened source patch key xs hk hp) ∙ h)
