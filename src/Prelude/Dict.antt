-- ===== src/Prelude/Dict.antt =====
-- A Python dict with text keys, as an association list in order of insertion.
use Prim.Native.String.{String}
use mathlib.Core.Path.{◌≡◌, refl}
use mathlib.Core.Option.{Option, none, some}
use mathlib.Core.Bool.{Bool, true, false}
use mathlib.Core.List.{List, [], ◌∷◌, ◌++◌}
use native.Mathlib.Omega.{arith}
use text.Mathlib.TextEquality.{eq_iff}
use metalk8s.Prelude.Tests.{◌==◌, if◌then◌else◌}

abbrev pub Dict {ℓ} : Type ℓ → Type ℓ
Dict V = List (String × V)

module _ {ℓ} {V : Type ℓ} where
  -- `d.get(key)`
  unfoldable pub get : String → Dict V → Option V
  get key [] = none
  get key ((k, v) ∷ d) = if k == key then some v else get key d

  -- `d[key] = value`
  unfoldable pub put : String → V → Dict V → Dict V
  put key value [] = (key, value) ∷ []
  put key value ((k, v) ∷ d) =
      let rest = put key value d in if k == key then (key, value) ∷ d else (k, v) ∷ rest

  -- `d.pop(key, None)`, the dict that is left
  unfoldable pub remove : String → Dict V → Dict V
  remove key [] = []
  remove key ((k, v) ∷ d) = let rest = remove key d in if k == key then rest else (k, v) ∷ rest

  -- `key in d`
  unfoldable pub has : String → Dict V → Bool
  has key [] = false
  has key ((k, v) ∷ d) = if k == key then true else has key d

  pub get-put :
      (key other : String) (value : V) (d : Dict V)
      → get other (put key value d) ≡ (if key == other then some value else get other d)
  unfolding get put
  get-put key other value [] = refl
  get-put key other value ((k, v) ∷ d) =
      ground (arith, eq_iff key other, eq_iff k key, eq_iff k other, get-put key other value d)

  pub has-put :
      (key other : String) (value : V) (d : Dict V)
      → has other (put key value d) ≡ (if key == other then true else has other d)
  unfolding has put
  has-put key other value [] = refl
  has-put key other value ((k, v) ∷ d) =
      ground (arith, eq_iff key other, eq_iff k key, eq_iff k other, has-put key other value d)

  pub get-remove :
      (key other : String) (d : Dict V)
      → get other (remove key d) ≡ (if key == other then none else get other d)
  unfolding get remove
  get-remove key other [] = ground arith
  get-remove key other ((k, v) ∷ d) =
      ground (arith, eq_iff key other, eq_iff k key, eq_iff k other, get-remove key other d)

-- `d.setdefault(key, []).append(x)`
unfoldable pub append_at {ℓ} : {A : Type ℓ} → String → A → Dict (List A) → Dict (List A)
append_at key x [] = (key, x ∷ []) ∷ []
append_at key x ((k, xs) ∷ d) =
    let rest = append_at key x d in if k == key then (k, xs ++ x ∷ []) ∷ d else (k, xs) ∷ rest
