-- ===== src/Runtime/Lifecycle/Pause.antt =====
-- `Pause` and `Unpause` of the runtime manager.
use kogia.Base.{Bool, true, false, not, [], ◌∷◌, Str, if◌then◌else◌, ok, err, panic}
use kogia.Runtime.State.{running, paused, Container}
use kogia.Runtime.Exit.{update_or_log}
use kogia.Runtime.Lifecycle.State.{
  crun_pause, crun_resume, store_failed, not_running, already_paused, not_paused, pause_failed,
  resume_failed, Services, Runtime, Result, emit,
}
use kogia.Runtime.Lifecycle.Start.{is_running_status, with_store}

abbrev pub paused_record : Container → Container
paused_record r = record r { state = record (r.state) { status = paused; is_paused = true } }

abbrev pub unpaused_record : Container → Container
unpaused_record r = record r { state = record (r.state) { status = running; is_paused = false } }

module _ {S E : Type 0} (services : Services S E) where
  abbrev pub store_record : Container → Runtime S → Runtime S
  store_record r m = with_store (update_or_log services.backend m.manager.store r) m

  -- The answer is whether crun could pause the container, or resume it.
  unfoldable pub pause : Str → Bool → Runtime S → Result E (Unit {0}) (Runtime S)
  pause id done m = elim (services.backend.get_container m.manager.store id) [
    | err e ↦ (err (store_failed e), [], m)
    | panic ↦ (panic, [], m)
    | ok r ↦
        if not (is_running_status r.state.status)
        then (err not_running, [], m)
        else if r.state.is_paused
        then (err already_paused, [], m)
        else emit (crun_pause r.id ∷ []) (
            if not done
            then (err pause_failed, [], m)
            else (ok tt, [], store_record (paused_record r) m))
  ]

  unfoldable pub unpause : Str → Bool → Runtime S → Result E (Unit {0}) (Runtime S)
  unpause id done m = elim (services.backend.get_container m.manager.store id) [
    | err e ↦ (err (store_failed e), [], m)
    | panic ↦ (panic, [], m)
    | ok r ↦
        if not r.state.is_paused
        then (err not_paused, [], m)
        else emit (crun_resume r.id ∷ []) (
            if not done
            then (err resume_failed, [], m)
            else (ok tt, [], store_record (unpaused_record r) m))
  ]
