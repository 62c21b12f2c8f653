-- ===== src/Runtime/Lifecycle/Sequences.antt =====
-- Operations after one another: a start that fails, and a container that is paused.
use kogia.Base.{
  ℕ, ◌≡◌, refl, ap, ◌∙◌, inl, inr, Bool, true, false, some, List, [], ◌∷◌, Str, lookup,
  lookup-insert, str_eq_refl, Outcome, ok, err, panic, Option-cases, arith,
}
use kogia.Runtime.State.{running, Container}
use kogia.Runtime.Exit.{Backend, lookup_pid, update_or_log}
use kogia.Runtime.Lifecycle.State.{
  Effect, crun_pause, crun_resume, LifeError, already_running, already_paused, start_failed,
  Services, StoresRecords, Runtime, erase_str,
}
use kogia.Runtime.Lifecycle.Start.{
  StartAnswers, new_active, started_record, enter_active, with_store, launch, join_network,
  read_pid, create_container, prepare, start,
}
use kogia.Runtime.Lifecycle.StartLaws.{start-ok}
use kogia.Runtime.Lifecycle.Pause.{paused_record, unpaused_record, store_record, pause, unpause}

-- The store has a record under the ID, and writes another one over it when it is asked to.
abbrev pub Holds : {S E : Type 0} → Backend S E → S → Str → Type 0
Holds backend s id = (x : Container) × (backend.get_container s id ≡ ok x) × (x.id ≡ id)

-- `UpdateContainer` refuses a record that is not there, and writes one that is.
abbrev pub Updates : {S E : Type 0} → Backend S E → Type 0
Updates {S} backend =
    (s : S) (r : Container)
    → Holds backend s r.id
    → (s' : S) × (backend.update_container s r ≡ some s')

-- The record of the running container can be stored once the network is set up.
abbrev pub StoresStarted : {S E : Type 0} → Services S E → S → Container → StartAnswers → Type 0
StoresStarted {S} services s r ans =
    (pid : ℕ)
    → ans.pid ≡ some pid
    → (s' : S) × (services.backend.update_container (services.set_up_network s r pid).1
          (started_record r pid ans.now)
        ≡ some s')

-- The call got as far as `crun start`.
abbrev pub launched : {E : Type 0} → Outcome (LifeError E) (Unit {0}) → Bool
launched (ok u) = true
launched (err start_failed) = true
launched (err e) = false
launched panic = false

module _ {S E : Type 0} (services : Services S E) where
  -- The record that is stored last by a call that got as far as `crun start`.
  start-stored :
      (m : Runtime S) (r : Container) (ans : StartAnswers)
      → services.backend.get_container m.manager.store r.id ≡ ok r
      → launched (start services r.id ans m).0 ≡ true
      → (pid : ℕ) × (ans.pid ≡ some pid)
        × ((start services r.id ans m).2.manager.store
            ≡ update_or_log services.backend
                (services.set_up_network m.manager.store r pid).1
                (started_record r pid ans.now))
  unfolding start prepare create_container read_pid join_network launch
  start-stored m r ans found h = elim (Option-cases ans.pid) [
    | inl lost ↦ absurd (ground (arith, found, lost, h))
    | inr (pid, given) ↦ (pid, given, ground (arith, found, given, h))
  ]

module _ {S E : Type 0} (services : Services S E) (laws : StoresRecords services.backend) where
  -- What was just stored is read back.
  pub get-store_record :
      (s s' : S) (r : Container)
      → services.backend.update_container s r ≡ some s'
      → services.backend.get_container (update_or_log services.backend s r) r.id ≡ ok r
  get-store_record s s' r e = rw (e, update_or_log) (laws.get-update s s' r e)

  pause-ok :
      (m : Runtime S) (r : Container)
      → services.backend.get_container m.manager.store r.id ≡ ok r
      → r.state.status ≡ running
      → r.state.is_paused ≡ false
      → pause services r.id true m
        ≡ (ok tt, crun_pause r.id ∷ [], store_record services (paused_record r) m)
  unfolding pause
  pause-ok m r found runs free = rw (found, pause) (rw runs (rw free refl))

  unpause-ok :
      (m : Runtime S) (r : Container)
      → services.backend.get_container m.manager.store r.id ≡ ok r
      → r.state.is_paused ≡ true
      → unpause services r.id true m
        ≡ (ok tt, crun_resume r.id ∷ [], store_record services (unpaused_record r) m)
  unfolding unpause
  unpause-ok m r found held = ground (arith, found, held)

  -- A container that runs is paused and resumed: its record is as it was, where the store writes the
  -- records that it has and crun does both.
  pub unpause-pause :
      (updates : Updates services.backend) (m : Runtime S) (r : Container)
      → services.backend.get_container m.manager.store r.id ≡ ok r
      → r.state.status ≡ running
      → r.state.is_paused ≡ false
      → let m' = (pause services r.id true m).2 in
        let m'' = (unpause services r.id true m').2 in
        (services.backend.get_container m'.manager.store r.id ≡ ok (paused_record r))
        × ((unpause services r.id true m').0 ≡ ok tt)
        × (services.backend.get_container m''.manager.store r.id ≡ ok r)
  unpause-pause updates m r found runs free =
      let m' = store_record services (paused_record r) m in
      let (s1, e1) = updates m.manager.store (paused_record r) (r, found, refl) in
      let stored = get-store_record m.manager.store s1 (paused_record r) e1 in
      let (s2, e2) =
        updates m'.manager.store (unpaused_record (paused_record r))
          (paused_record r, stored, refl) in
      let again = unpause-ok m' (paused_record r) stored refl in
      let same : unpaused_record (paused_record r) ≡ r = ground (arith, runs, free) in
      rw (pause-ok m r found runs free) (
        stored,
        ap (λ x. x.0) again,
        ap (λ x. services.backend.get_container x.2.manager.store r.id) again
            ∙ get-store_record m'.manager.store s2 (unpaused_record (paused_record r)) e2
            ∙ ap ok same,
      )

  launched-running :
      (m : Runtime S) (r : Container) (ans : StartAnswers)
      → StoresStarted services m.manager.store r ans
      → services.backend.get_container m.manager.store r.id ≡ ok r
      → launched (start services r.id ans m).0 ≡ true
      → (pid : ℕ) × (ans.pid ≡ some pid)
        × (services.backend.get_container (start services r.id ans m).2.manager.store r.id
            ≡ ok (started_record r pid ans.now))
  launched-running m r ans stores found h =
      let (pid, given, stored) = start-stored services m r ans found h in
      let (s', e) = stores pid given in
      (
        pid,
        given,
        ap (λ x. services.backend.get_container x r.id) stored
            ∙ get-store_record (services.set_up_network m.manager.store r pid).1 s'
                (started_record r pid ans.now) e,
      )

  start-running :
      (m : Runtime S) (r : Container) (ans : StartAnswers)
      → services.backend.get_container m.manager.store r.id ≡ ok r
      → r.state.status ≡ running
      → start services r.id ans m ≡ (err already_running, [], m)
  unfolding start
  start-running m r ans found runs = rw (found, start) (rw runs refl)

  -- A `Start` whose `crun start` fails leaves the record of a running container: where that
  -- record can be stored, no later `Start` gets past the check that it is not running.
  pub start-failed_start :
      (m : Runtime S) (r : Container) (ans ans' : StartAnswers)
      → StoresStarted services m.manager.store r ans
      → services.backend.get_container m.manager.store r.id ≡ ok r
      → (start services r.id ans m).0 ≡ err start_failed
      → let m' = (start services r.id ans m).2 in
        start services r.id ans' m' ≡ (err already_running, [], m')
  start-failed_start m r ans ans' stores found failed =
      let (pid, given, stored) = launched-running m r ans stores found (rw failed refl) in
      start-running (start services r.id ans m).2 (started_record r pid ans.now) ans' stored refl

  pause-paused :
      (m : Runtime S) (r : Container) (done : Bool)
      → services.backend.get_container m.manager.store r.id ≡ ok r
      → r.state.status ≡ running
      → r.state.is_paused ≡ true
      → pause services r.id done m ≡ (err already_paused, [], m)
  unfolding pause
  pause-paused m r done found runs held = rw (found, pause) (rw runs (rw held refl))

  -- A container whose record still says that it is paused when it is started cannot be paused
  -- afterwards, where the record of the start can be stored.
  pub pause-start :
      (m : Runtime S) (r : Container) (ans : StartAnswers) (done : Bool)
      → StoresStarted services m.manager.store r ans
      → services.backend.get_container m.manager.store r.id ≡ ok r
      → r.state.is_paused ≡ true
      → (start services r.id ans m).0 ≡ ok tt
      → let m' = (start services r.id ans m).2 in
        pause services r.id done m' ≡ (err already_paused, [], m')
  pause-start m r ans done stores found held started =
      let (pid, given, stored) = launched-running m r ans stores found (rw started refl) in
      pause-paused (start services r.id ans m).2 (started_record r pid ans.now) done stored refl
        held

  -- A `Start` that succeeds has stored a running record with the process, the process is known as
  -- the container's, the container is active and its callers of `Attach` are awake, where the
  -- record can be stored.
  pub start-Running :
      (m m' : Runtime S) (r : Container) (ans : StartAnswers) (es : List Effect)
      → StoresStarted services m.manager.store r ans
      → services.backend.get_container m.manager.store r.id ≡ ok r
      → start services r.id ans m ≡ (ok tt, es, m')
      → (pid : ℕ) × (services.backend.get_container m'.manager.store r.id
          ≡ ok (started_record r pid ans.now))
        × (lookup_pid pid m'.manager.pid_map ≡ some r.id)
        × (lookup r.id m'.manager.active ≡ some (new_active pid))
        × (m'.start_notify ≡ erase_str r.id m.start_notify)
  start-Running m m' r ans es stores found h =
      let (pid, given, stored) = launched-running m r ans stores found (rw h refl) in
      let (pid', given', maps, idle) = start-ok services r.id ans m m' es r found h in
      let same : pid' ≡ pid = ground (arith, given, given') in
      let entered : m' ≡ with_store m'.manager.store (enter_active r.id pid m) =
        maps ∙ ap (λ (p : ℕ). with_store m'.manager.store (enter_active r.id p m)) same in
      (
        pid,
        rw (← ap (λ x. x.2) h) stored,
        ap (λ (w : Runtime S). lookup_pid pid w.manager.pid_map) entered ∙ ground arith,
        ap (λ (w : Runtime S). lookup r.id w.manager.active) entered
            ∙ ground (
              arith,
              lookup-insert r.id r.id (new_active pid) m.manager.active,
              str_eq_refl r.id,
            ),
        ap (λ (w : Runtime S). w.start_notify) entered,
      )
