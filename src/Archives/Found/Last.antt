-- ===== src/Archives/Found/Last.antt =====
-- `get_archives` as a map: each environment has the last archive of its version.
use metalk8s.Prelude.{
  String, Bool, true, false, Option, none, some, List, [], ◌∷◌, ◌==◌, if◌then◌else◌, ◌≡◌, refl, sym,
  ◌∙◌, ap,
}
use metalk8s.Prelude.Dict
use metalk8s.Prelude.Dict.{Dict, get-put}
use metalk8s.Exec.{Outcome, return, ◌>>=◌}
use metalk8s.Action.Rules.{>>=-eq-return, return-injective}
use metalk8s.Archives.Found.{
  Found, Archive, inspect, add_found, collect, get_archives, paths_of, or_pillar, Given,
}

abbrev or_else : Option Archive → Option Archive → Option Archive
or_else none x = x
or_else (some a) x = some a

-- an archive that was inspected, if it is of the environment
abbrev of_env : String → Outcome (Option (String × Archive)) → Option Archive
of_env env (return (some p)) = if p.0 == env then some p.1 else none
of_env env _ = none

-- The abstract map: the last of the archives whose environment this is.
unfoldable pub last_of : (String → Found) → String → List String → Option Archive
last_of files env [] = none
last_of files env (archive ∷ archives) =
    or_else (last_of files env archives) (of_env env (inspect archive (files archive)))

get-add_found :
    (env : String) (p : Option (String × Archive)) (res : Dict Archive)
    → Dict.get env (add_found p res) ≡ or_else (of_env env (return p)) (Dict.get env res)
get-add_found env none res = refl
get-add_found env (some p) res = rw (get-put p.0 env p.1 res) (by_test (p.0 == env))
  where
    by_test :
        (b : Bool)
        → (if b then some p.1 else Dict.get env res)
          ≡ or_else (if b then some p.1 else none) (Dict.get env res)
    by_test true = refl
    by_test false = refl

or_else_assoc : (a b c : Option Archive) → or_else a (or_else b c) ≡ or_else (or_else a b) c
or_else_assoc none b c = refl
or_else_assoc (some x) b c = refl

or_else-none : (a : Option Archive) → or_else a none ≡ a
or_else-none none = refl
or_else-none (some x) = refl

collect-last :
    (files : String → Found) (env : String) (archives : List String) (acc res : Dict Archive)
    → collect files archives acc ≡ return res
    → Dict.get env res ≡ or_else (last_of files env archives) (Dict.get env acc)
unfolding collect last_of
collect-last files env [] acc res h = ap (Dict.get env) (sym (return-injective h))
collect-last files env (archive ∷ archives) acc res h =
    let (p, hp, h1) = >>=-eq-return (inspect archive (files archive)) _ h in
    let rest = collect-last files env archives (add_found p acc) res h1 in
    rest
    ∙ ap (or_else (last_of files env archives)) (get-add_found env p acc)
    ∙ or_else_assoc (last_of files env archives) (of_env env (return p)) (Dict.get env acc)
    ∙ ap (λ r. or_else (or_else (last_of files env archives) (of_env env r)) (Dict.get env acc))
        (sym hp)

-- Where get_archives returns for some paths, an environment has in its result the archive that
-- the last of the paths with a product of this version leads to, and nothing where there is none.
pub get_archives-last :
    (files : String → Found) (pillar archives : Given) (ps : List String) (res : Dict Archive)
    → paths_of (or_pillar archives pillar) ≡ return ps
    → get_archives files pillar archives ≡ return res
    → (env : String) → Dict.get env res ≡ last_of files env ps
unfolding get_archives Dict.get
get_archives-last files pillar archives ps res hp h env =
    collect-last files env ps [] res (sym (ap (λ r. r >>= λ xs. collect files xs []) hp) ∙ h)
    ∙ or_else-none (last_of files env ps)
