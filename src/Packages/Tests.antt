-- ===== src/Packages/Tests.antt =====
-- A minion with two packages that need kubelet, of which one is installed.
use metalk8s.Prelude.{String, true, ◌||◌, none, some, List, [], ◌∷◌, ◌==◌, if◌then◌else◌, ◌≡◌, refl}
use metalk8s.Prelude.Dict
use metalk8s.Prelude.Dict.{Dict}
use metalk8s.Exec.{return, raise, type_error}
use metalk8s.Archives.{strip}
use metalk8s.Packages.{
  Run, is_installed, filter_lines, list_dependents, update, keep_installed, list_pkg_dependents,
  split_dash,
}
use metalk8s.Packages.Installed.{list_pkg_dependents-installed}

abbrev lines : List String → List (List String)
lines (command ∷ options ∷ name ∷ []) = if name == "kubeadm" then [] else (name ∷ []) ∷ []
lines words = ("kubeadm" ∷ "1.16" ∷ []) ∷ ("kubectl" ∷ "1.16" ∷ []) ∷ ("other" ∷ "2" ∷ []) ∷ []

abbrev run : Run
run command = record { retcode = 0; stdout = lines command }

abbrev no_repository : Run
no_repository command = record { retcode = 1; stdout = [] }

abbrev info : Dict String
info = ("kubelet", "1.16") ∷ ("kubeadm", "1.16") ∷ ("kubectl", "1.16") ∷ []

program : Unit {0}
unfolding filter_lines list_dependents update keep_installed list_pkg_dependents split_dash Dict.get
    Dict.put Dict.remove strip
program = tt

dependents :
    list_pkg_dependents run "kubelet" "1.16" none info
    ≡ return (some (("kubelet", "1.16") ∷ ("kubectl", "1.16") ∷ []))
unfolding program
dependents = refl

-- a failure of repoquery is not handled
failing :
    list_pkg_dependents no_repository "kubelet" "1.16" none info
    ≡ raise (type_error "'NoneType' object is not iterable")
unfolding program
failing = refl

list_pkg_dependents-installed_example :
    (is_installed run "kubectl" || "kubectl" == "kubelet") ≡ true
unfolding program
list_pkg_dependents-installed_example =
    list_pkg_dependents-installed run "kubelet" "1.16" none info
      (("kubelet", "1.16") ∷ ("kubectl", "1.16") ∷ []) "kubectl" "1.16" refl refl
