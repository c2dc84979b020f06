-- ===== src/Solutions/Grouped.antt =====
-- `list_available` groups the mounted archives by the machine name of their Solution.
use metalk8s.Prelude.{
  String, Bool, List, [], ◌∷◌, ◌++◌, keep, ◌==◌, if◌then◌else◌, ◌≡◌, refl, sym, ◌∙◌, ap, arith,
  eq_iff, inl, inr, Bool-cases,
}
use metalk8s.Prelude.Dict
use metalk8s.Prelude.Dict.{Dict, append_at}
use metalk8s.Exec.{Outcome, return, answer, ◌>>=◌}
use metalk8s.Action.Rules.{>>=-eq-return}
use metalk8s.Solutions.{Mount, Minion, SolutionInfo, machine_name_of, is_solution_mount, or_default}
use metalk8s.Solutions.Available.{solution_info, add_mounts, list_available}

-- The entries under a key, none where the key is not there.
abbrev pub entries : {A : Type 0} → String → Dict (List A) → List A
entries key d = or_default [] (Dict.get key d)

entries-append_at :
    {A : Type 0} (key other : String) (x : A) (d : Dict (List A))
    → entries other (append_at key x d)
      ≡ (if key == other then entries other d ++ x ∷ [] else entries other d)
unfolding Dict.get append_at
entries-append_at key other x [] = ground arith
entries-append_at key other x ((k, xs) ∷ d) =
    ground (arith, eq_iff key other, eq_iff k key, eq_iff k other, entries-append_at key other x d)

-- A list of outcomes as the outcome of a list: the first that does not return ends it.
unfoldable pub collect : {A B : Type 0} → (A → Outcome B) → List A → Outcome (List B)
collect f [] = return []
collect f (x ∷ xs) = do y ← f x; ys ← collect f xs; return (y ∷ ys)

abbrev pub belongs : String → SolutionInfo → Bool
belongs key info = machine_name_of info.name == key

append_nil : {A : Type 0} (xs : List A) → xs ≡ xs ++ []
append_nil [] = refl
append_nil (x ∷ xs) = ap (λ l. x ∷ l) (append_nil xs)

append_assoc : {A : Type 0} (xs ys zs : List A) → (xs ++ ys) ++ zs ≡ xs ++ (ys ++ zs)
append_assoc [] ys zs = refl
append_assoc (x ∷ xs) ys zs = ap (λ l. x ∷ l) (append_assoc xs ys zs)

one_more :
    (key : String) (info : SolutionInfo) (result : Dict (List SolutionInfo))
    (rest : List SolutionInfo)
    → entries key (append_at (machine_name_of info.name) info result) ++ keep (belongs key) rest
      ≡ entries key result ++ keep (belongs key) (info ∷ rest)
one_more key info result rest =
    rw (entries-append_at (machine_name_of info.name) key info result)
      (elim (Bool-cases (belongs key info)) [
        | inl same ↦
            rw same (append_assoc (entries key result) (info ∷ []) (keep (belongs key) rest))
        | inr other ↦ rw other refl
      ])

module _ (minion : Minion) (s : minion.State) where
  add_mounts-entries :
      (mounts : List (String × Mount)) (result : Dict (List SolutionInfo))
      (infos : List SolutionInfo)
      → collect (solution_info minion s) mounts ≡ return infos
      → (grouped : Dict (List SolutionInfo)) × (add_mounts minion s result mounts ≡ return grouped)
        × ((key : String) → entries key grouped ≡ entries key result ++ keep (belongs key) infos)
  unfolding add_mounts collect
  add_mounts-entries [] result infos e =
      let none_left : [] ≡ infos = cc in
      (result, refl, λ key. rw (sym none_left) (append_nil (entries key result)))
  add_mounts-entries (mount ∷ mounts) result infos e =
      let (info, read, e₁) = >>=-eq-return (solution_info minion s mount) _ e in
      let (rest, read_rest, e₂) = >>=-eq-return (collect (solution_info minion s) mounts) _ e₁ in
      let (grouped, added, found) =
        add_mounts-entries mounts (append_at (machine_name_of info.name) info result) rest
          read_rest in
      let all : info ∷ rest ≡ infos = cc in
      (grouped, rw read added, λ key. found key ∙ (rw (sym all) (one_more key info result rest)))

-- Where the mounts can be listed and every mounted Solution archive can be read, `list_available`
-- returns, and under each machine name it has, in the order of the mounts, exactly the archives whose
-- Solution has that machine name.
pub list_available-entries :
    (minion : Minion) (s : minion.State) (mounts : Dict Mount) (infos : List SolutionInfo)
    → minion.mount_active s ≡ answer mounts
    → collect (solution_info minion s) (keep is_solution_mount mounts) ≡ return infos
    → (available : Dict (List SolutionInfo)) × (list_available minion s ≡ return available)
      × ((key : String) → entries key available ≡ keep (belongs key) infos)
unfolding list_available Dict.get
list_available-entries minion s mounts infos mounted read =
    let (available, added, found) =
      add_mounts-entries minion s (keep is_solution_mount mounts) [] infos read in
    (available, rw mounted added, found)
