-- ===== src/Kubernetes/States/Absent.antt =====
-- What `object_absent` does with an object that is there.
use metalk8s.Prelude.{
  ℕ, suc, ◌+◌, ◌*◌, ◌≤◌, String, ◌<>◌, Bool, true, false, Option, none, some, decimal,
  if◌then◌else◌, ◌≡◌, arith,
}
use metalk8s.Exec.{return}
use metalk8s.Action.{pure}
use metalk8s.Kubernetes.Values.{Value, Fields}
use metalk8s.Kubernetes.States.{
  Module, WaitArg, waiting, wait_of, name_arg, ret, no_changes, old_new, object_absent, wait_loop,
  after_delete, delete_with, absent_with,
}
use metalk8s.Kubernetes.States.Wait.{
  Gone, Stays, Timed, wait_loop-Gone, wait_loop-Stays, wait_loop-clock, continue-clock,
  checked-clock,
}

module _ (m : Module) (name : String) (manifest : Option Fields) where
  abbrev arg : Option String
  arg = name_arg manifest name

  -- The object is found in `s`, and deleting it after that leaves `s'` and is not refused.
  abbrev pub Deleted : m.S → m.S → Type 0
  Deleted s s' =
      ((o : Value) × ((m.get_object arg manifest s).0 ≡ return (some o)))
      × ((o : Value) × (m.delete_object arg manifest (m.get_object arg manifest s).1
            ≡ (return (some o), s')))

  -- An object that is found and whose deletion is accepted, that is there at k checks and not at
  -- the next, where more than k attempts are allowed: object_absent returns with the result true
  -- and says that it was deleted, after k + 1 check attempts.
  pub object_absent-Deleted :
      (wait : WaitArg) (attempts seconds k : ℕ) (s s' : m.S)
      → wait_of wait ≡ waiting attempts seconds
      → Deleted s s'
      → suc k ≤ attempts
      → Gone m arg manifest seconds k s'
      → (object_absent m false name manifest wait s).0
        ≡ return (
            ret name (old_new "present" "absent") (some true) (
              "The object was deleted and not present after "
              <> decimal (k + 1)
              <> " check attempts"))
  unfolding object_absent
  object_absent-Deleted wait attempts seconds k s s' w ((o, e), (o', e')) h g =
      rw (object_absent, w, e, e', wait_loop-Gone m arg manifest attempts seconds 1 k s' h g)

  -- An object that is found and whose deletion is accepted, and that is there at every check:
  -- object_absent returns with the result false, no changes and a comment that it is still present.
  pub object_absent-still :
      (wait : WaitArg) (attempts seconds : ℕ) (s s' : m.S)
      → wait_of wait ≡ waiting attempts seconds
      → Deleted s s'
      → Stays m arg manifest seconds attempts s'
      → (object_absent m false name manifest wait s).0
        ≡ return (
            ret name no_changes
              (some false)
              ("The object is still present after " <> decimal attempts <> " check attempts"))
  unfolding object_absent
  object_absent-still wait attempts seconds s s' w ((o, e), (o', e')) g =
      rw (object_absent, w, e, e', wait_loop-Stays m arg manifest attempts seconds 1 s' g)

  module _ (clock : m.S → ℕ) (longest late : ℕ) (t : Timed m clock longest late) where
    after_delete-clock :
        (attempts seconds : ℕ) (s : m.S)
        → clock (after_delete m name manifest (waiting attempts seconds) s).1
          ≤ clock s + attempts * (longest + seconds + late)
    after_delete-clock attempts seconds s =
        let h = wait_loop-clock m clock longest late t arg manifest attempts seconds 1 s in
        continue-clock clock _ (wait_loop m arg manifest attempts seconds 1 s).0 _ _ h (λ r. h)

    delete_with-clock :
        (attempts seconds : ℕ) (s : m.S)
        → clock (delete_with m name manifest (waiting attempts seconds) s).1
          ≤ clock s + longest + attempts * (longest + seconds + late)
    delete_with-clock attempts seconds s =
        let s1 = (m.delete_object arg manifest s).1 in
        let h1 = t.delete_object arg manifest s in
        let h2 = after_delete-clock attempts seconds s1 in
        continue-clock clock _ (m.delete_object arg manifest s).0 _ s1 (omega (arith, h1)) (λ o.
          checked-clock m clock longest late t o _ _ s1 _ (omega (arith, h1))
            (omega (arith, h1, h2)))

    absent_with-clock :
        (test : Bool) (attempts seconds : ℕ) (s : m.S)
        → clock (absent_with m test name manifest (waiting attempts seconds) s).1
          ≤ clock s + 2 * longest + attempts * (longest + seconds + late)
    absent_with-clock test attempts seconds s =
        let s1 = (m.get_object arg manifest s).1 in
        let h1 = t.get_object arg manifest s in
        let h2 = delete_with-clock attempts seconds s1 in
        continue-clock clock _ (m.get_object arg manifest s).0 _ s1 (omega (arith, h1)) (λ o.
          checked-clock m clock longest late t o _ _ s1 _ (omega (arith, h1))
            (tested test s1 (omega (arith, h1)) (omega (arith, h1, h2))))
      where
        tested :
            (test : Bool) (s1 : m.S)
            → clock s1 ≤ clock s + 2 * longest + attempts * (longest + seconds + late)
            → clock (delete_with m name manifest (waiting attempts seconds) s1).1
              ≤ clock s + 2 * longest + attempts * (longest + seconds + late)
            → clock
                ((if test
                    then pure (ret name no_changes none "The object is going to be deleted")
                    else delete_with m name manifest (waiting attempts seconds))
                  s1).1
              ≤ clock s + 2 * longest + attempts * (longest + seconds + late)
        tested true s1 h k = h
        tested false s1 h k = k

    -- Where no call of get_object or delete_object takes longer than `longest` seconds and no sleep
    -- ends more than `late` seconds later than asked, object_absent with a wait of so many attempts,
    -- as many seconds apart, ends at most 2 * longest + attempts * (longest + seconds + late) seconds
    -- after it began, whatever the calls give.
    pub object_absent-clock :
        (test : Bool) (wait : WaitArg) (attempts seconds : ℕ) (s : m.S)
        → wait_of wait ≡ waiting attempts seconds
        → clock (object_absent m test name manifest wait s).1
          ≤ clock s + 2 * longest + attempts * (longest + seconds + late)
    unfolding object_absent
    object_absent-clock test wait attempts seconds s w =
        rw (object_absent, w) (absent_with-clock test attempts seconds s)
