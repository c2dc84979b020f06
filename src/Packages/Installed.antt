-- ===== src/Packages/Installed.antt =====
-- That only installed packages are kept beside the one that is asked for.
use metalk8s.Prelude.{
  String, Bool, true, false, not, ◌&&◌, ◌||◌, Option, none, some, [], ◌∷◌, nat_eq, ◌==◌,
  if◌then◌else◌, ◌≡◌, refl, sym, ap, ◌∙◌, eq_iff, ◌⊎◌, inl, inr,
}
use mathlib.Core.Bool.{true≢false}
use metalk8s.Prelude.Dict
use metalk8s.Prelude.Dict.{Dict, get-remove}
use mathlib.Core.Path.{subst}
use metalk8s.Exec.{Outcome, return}
use metalk8s.Action.Rules.{>>=-eq-return, return-injective}
use metalk8s.Packages.{
  Run, rpm, is_installed, keep_installed, joined, list_dependents, list_pkg_dependents,
  other_version, update, with_salt,
}

abbrev Ok : Run → String → String → Type 0
Ok run name pkg = (is_installed run pkg || pkg == name) ≡ true

-- which way a turn of the loop went
turn :
    {A : Type 0} (fails drops : Bool) (dropped kept : Option A) (res : A)
    → (if fails then none else if drops then dropped else kept) ≡ some res
    → ((dropped ≡ some res) × (drops ≡ true)) ⊎ ((kept ≡ some res) × (drops ≡ false))
turn true drops dropped kept res h = cc
turn false true dropped kept res h = inl (h, refl)
turn false false dropped kept res h = inr (h, refl)

-- a value that is found after a removal was there before, under another key
after_remove :
    (p pkg v : String) (acc : Dict String)
    → Dict.get pkg (Dict.remove p acc) ≡ some v
    → ((p == pkg) ≡ false) × (Dict.get pkg acc ≡ some v)
after_remove p pkg v acc g = tested (p == pkg) (sym (get-remove p pkg acc) ∙ g)
  where
    tested :
        (b : Bool)
        → (if b then none else Dict.get pkg acc) ≡ some v
        → (b ≡ false) × (Dict.get pkg acc ≡ some v)
    tested true h = cc
    tested false h = (refl, h)

not_dropped : (installed same : Bool) → not installed && not same ≡ false → installed || same ≡ true
not_dropped true same h = refl
not_dropped false true h = refl
not_dropped false false h = absurd (true≢false h)

some-injective : {A : Type 0} {a b : A} → some a ≡ some b → a ≡ b
some-injective h = cc

none_is_no_some : {A : Type 0} {a : A} → ¬ (none ≡ some a)
none_is_no_some h = cc

by_key :
    {P : Type 0} (b c d : Bool)
    → d ≡ b
    → (if d then true else c) ≡ true
    → (c ≡ true → P)
    → (d ≡ true → P)
    → P
by_key true c d e k rest here = here e
by_key false c d e k rest here = rest (subst (λ x. (if x then true else c) ≡ true) e k)

has_step :
    (b : Bool) (w v : String) (rest : Option String) (has_rest : Bool)
    → (if b then some w else rest) ≡ some v
    → (rest ≡ some v → has_rest ≡ true)
    → (if b then true else has_rest) ≡ true
has_step true w v rest has_rest h k = refl
has_step false w v rest has_rest h k = k h

module _ (run : Run) (name : String) where
  abbrev fails : String → Bool
  fails p = not (nat_eq (rpm run p).retcode 0)

  abbrev drops : String → Bool
  drops p = not (is_installed run p) && not (p == name)

  -- the loop adds nothing
  keep-sub :
      (items acc res : Dict String) (pkg v : String)
      → keep_installed run name items acc ≡ some res
      → Dict.get pkg res ≡ some v
      → Dict.get pkg acc ≡ some v
  unfolding keep_installed
  keep-sub [] acc res pkg v h g = ap (Dict.get pkg) (some-injective h) ∙ g
  keep-sub ((p, w) ∷ items) acc res pkg v h g = elim (turn (fails p) (drops p) _ _ res h) [
    | inl r ↦ (after_remove p pkg v acc (keep-sub items (Dict.remove p acc) res pkg v r.0 g)).1
    | inr r ↦ keep-sub items acc res pkg v r.0 g
  ]

  -- the package of this turn, if it is in the result
  at_head :
      (items acc res : Dict String) (p w pkg v : String)
      → keep_installed run name ((p, w) ∷ items) acc ≡ some res
      → (p == pkg) ≡ true
      → Dict.get pkg res ≡ some v
      → Ok run name pkg
  unfolding keep_installed
  at_head items acc res p w pkg v h e g = elim (turn (fails p) (drops p) _ _ res h) [
    | inl r ↦ absurd (
        true≢false (
          sym e
          ∙ (after_remove p pkg v acc (keep-sub items (Dict.remove p acc) res pkg v r.0 g)).0))
    | inr r ↦
        subst (Ok run name) ((eq_iff p pkg).0 e) (not_dropped (is_installed run p) (p == name) r.1)
  ]

  keep-Ok :
      (items acc res : Dict String) (pkg v : String)
      → keep_installed run name items acc ≡ some res
      → Dict.has pkg items ≡ true
      → Dict.get pkg res ≡ some v
      → Ok run name pkg
  unfolding keep_installed Dict.has
  keep-Ok [] acc res pkg v h k g = absurd (true≢false (sym k))
  keep-Ok ((p, w) ∷ items) acc res pkg v h k g =
      by_key (p == pkg) (Dict.has pkg items) (p == pkg) refl k
        (λ k'. elim (turn (fails p) (drops p) _ _ res h) [
          | inl r ↦ keep-Ok items (Dict.remove p acc) res pkg v r.0 k' g
          | inr r ↦ keep-Ok items acc res pkg v r.0 k' g
        ])
        (λ e. at_head items acc res p w pkg v h e g)

  get-has : (d : Dict String) (pkg v : String) → Dict.get pkg d ≡ some v → Dict.has pkg d ≡ true
  unfolding Dict.get Dict.has
  get-has [] pkg v h = absurd (none_is_no_some h)
  get-has ((p, w) ∷ d) pkg v h =
      has_step (p == pkg) w v (Dict.get pkg d) (Dict.has pkg d) h (get-has d pkg v)

  joined-Ok :
      (version : String) (d : Option (Dict String)) (pkgs : Dict String) (pkg v : String)
      → joined run name version d ≡ return (some pkgs)
      → Dict.get pkg pkgs ≡ some v
      → Ok run name pkg
  joined-Ok version none pkgs pkg v h g = cc
  joined-Ok version (some dependents) pkgs pkg v h g =
      let all_pkgs = update (with_salt name version) dependents in
      let kept = return-injective h in
      keep-Ok all_pkgs all_pkgs pkgs pkg v kept
        (get-has all_pkgs pkg v (keep-sub all_pkgs all_pkgs pkgs pkg v kept g)) g

unless_other :
    {A : Type 0} (b : Bool) (r : Outcome (Option A)) (a : A)
    → (if b then return none else r) ≡ return (some a)
    → r ≡ return (some a)
unless_other true r a h = absurd (none_is_no_some (return-injective h))
unless_other false r a h = h

-- A package that list_pkg_dependents gives for a package and a version is the package itself, or
-- one of which rpm lists an installed version.
pub list_pkg_dependents-installed :
    (run : Run) (name version : String) (fromrepo : Option String) (pkgs_info pkgs : Dict String)
    (pkg v : String)
    → list_pkg_dependents run name version fromrepo pkgs_info ≡ return (some pkgs)
    → Dict.get pkg pkgs ≡ some v
    → (is_installed run pkg || pkg == name) ≡ true
unfolding list_pkg_dependents
list_pkg_dependents-installed run name version fromrepo pkgs_info pkgs pkg v h g =
    let (d, hd, h1) =
      >>=-eq-return (list_dependents run name version fromrepo pkgs_info) _
        (unless_other (other_version pkgs_info name version) _ pkgs h) in
    joined-Ok run name version d pkgs pkg v h1 g
