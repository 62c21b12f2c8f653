-- ===== src/Runtime/Lifecycle/Stop.antt =====
-- `Stop`, `Kill`, `Remove` and `Restart` of the runtime manager.
use kogia.Base.{
  Bool, true, false, not, ◌&&◌, Option, none, some, List, [], ◌∷◌, ◌++◌, Str, codes, if◌then◌else◌,
  lookup, insert, erase, Outcome, ok, err, panic,
}
use kogia.Runtime.State.{Container}
use kogia.Runtime.Exit.{ActiveContainer}
use kogia.Runtime.Lifecycle.State.{
  Effect, crun_resume, crun_kill, crun_kill_all, crun_delete, unmount_rootfs, delete_storage,
  remove_all, store_failed, not_running, container_running, kill_failed, Services, Runtime, Result,
  emit, erase_str,
}
use kogia.Runtime.Lifecycle.Start.{StartAnswers, start, with_store}

abbrev pub default_stop_signal : Str
default_stop_signal = codes "SIGTERM"

abbrev pub default_kill_signal : Str
default_kill_signal = codes "SIGKILL"

-- `if ac := m.active[id]; ac != nil { ac.manuallyStopped = true }`
unfoldable pub mark_stopped : {S : Type 0} → Str → Runtime S → Runtime S
mark_stopped id m = elim (lookup id m.manager.active) [
  | none ↦ m
  | some ac ↦ record m {
    manager = record (m.manager) {
      active = insert id (record ac { manually_stopped = true }) m.manager.active;
    };
  }
]

abbrev pub resume_if : Bool → Str → List Effect
resume_if true id = crun_resume id ∷ []
resume_if false id = []

-- The signals after the first one: none is sent when `done` closes in time, and then nothing is
-- cleaned up.
abbrev pub finish_stop : Str → Option ActiveContainer → Bool → List Effect
finish_stop id none in_time = crun_delete id ∷ []
finish_stop id (some ac) true = []
finish_stop id (some ac) false = crun_kill_all id default_kill_signal ∷ crun_delete id ∷ []

abbrev pub or_kill : Str → Str
or_kill [] = default_kill_signal
or_kill (c ∷ signal) = c ∷ signal

module _ {S E : Type 0} (services : Services S E) where
  -- `Stop` up to its end, but for the exit of the process, which is a step of the reaper's: `in_time`
  -- says whether `done` is closed before the timeout.
  unfoldable pub stop_found : Container → Bool → Runtime S → Result E (Unit {0}) (Runtime S)
  stop_found r in_time m =
      if not r.state.is_running && not r.state.is_paused then (ok tt, [], m) else (
        ok tt,
        resume_if r.state.is_paused r.id
            ++ crun_kill_all r.id default_stop_signal
              ∷ finish_stop r.id (lookup r.id m.manager.active) in_time,
        mark_stopped r.id m,
      )

  unfoldable pub stop : Str → Bool → Runtime S → Result E (Unit {0}) (Runtime S)
  stop id in_time m = elim (services.backend.get_container m.manager.store id) [
    | err e ↦ (err (store_failed e), [], m)
    | panic ↦ (panic, [], m)
    | ok r ↦ stop_found r in_time m
  ]

  -- The answer is whether crun could send the signal.
  unfoldable pub kill : Str → Str → Bool → Runtime S → Result E (Unit {0}) (Runtime S)
  kill id signal sent m = elim (services.backend.get_container m.manager.store id) [
    | err e ↦ (err (store_failed e), [], m)
    | panic ↦ (panic, [], m)
    | ok r ↦
        if not r.state.is_running
        then (err not_running, [], m)
        else (if sent then ok tt else err kill_failed, crun_kill r.id (or_kill signal) ∷ [], m)
  ]

  abbrev pub bundle_of : Outcome E Str → List Effect
  bundle_of (ok []) = []
  bundle_of (ok (c ∷ dir)) = remove_all (c ∷ dir) ∷ []
  bundle_of (err e) = []
  bundle_of panic = []

  -- The container leaves its networks, crun, the storage and the store.
  unfoldable pub discard : Container → Runtime S → Result E (Unit {0}) (Runtime S)
  discard r m =
      let s = services.backend.disconnect_all m.manager.store r.id in
      emit
        (crun_delete r.id
          ∷ unmount_rootfs r.id
          ∷ delete_storage r.id
          ∷ bundle_of (services.get_container_bundle s r.id))
        (elim (services.delete_container s r.id r.name) [
          | err e ↦ (err (store_failed e), [], with_store s m)
          | panic ↦ (panic, [], with_store s m)
          | ok s' ↦ (
            ok tt,
            [],
            record {
              manager = record (m.manager) { active = erase r.id m.manager.active; store = s' };
              start_notify = erase_str r.id m.start_notify;
            },
          )
        ])

  -- `Remove`. Between the stop and the rest the reaper may run: `reap` is what it does.
  unfoldable pub remove :
      Str → Bool → Bool → (Runtime S → Runtime S) → Runtime S → Result E (Unit {0}) (Runtime S)
  remove id force in_time reap m = elim (services.backend.get_container m.manager.store id) [
    | err e ↦ (err (store_failed e), [], m)
    | panic ↦ (panic, [], m)
    | ok r ↦
        if r.state.is_running
        then (if not force
            then (err container_running, [], m)
            else (let stopped = stop r.id in_time m in emit stopped.1 (discard r (reap stopped.2))))
        else discard r m
  ]

  -- `Restart`: a stop that fails is the end.
  unfoldable pub restart :
      Str
      → Bool
      → (Runtime S → Runtime S)
      → StartAnswers
      → Runtime S
      → Result E (Unit {0}) (Runtime S)
  restart id in_time reap ans m =
      let stopped = stop id in_time m in
      elim stopped.0 [
        | ok u ↦ emit stopped.1 (start services id ans (reap stopped.2))
        | err e ↦ stopped
        | panic ↦ stopped
      ]
