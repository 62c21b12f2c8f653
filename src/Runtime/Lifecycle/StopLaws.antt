-- ===== src/Runtime/Lifecycle/StopLaws.antt =====
-- What `Stop` and `Remove` leave behind.
use kogia.Base.{
  ℕ, ◌≡◌, refl, ap, ◌∙◌, inl, inr, Bool, true, false, not, ◌||◌, none, some, List, [], Str,
  str_eq_refl, lookup, insert, erase, lookup-insert, lookup-erase, ok, Bool-cases, Outcome-cases,
  arith,
}
use kogia.Runtime.State.{Container, HostConfig}
use kogia.Runtime.Exit.{ActiveContainer, lookup_pid, handle_exit, exited_record}
use kogia.Runtime.StoppedExit.{handle_exit-stopped}
use kogia.Runtime.Lifecycle.State.{Effect, Services, Runtime, erase_str}
use kogia.Runtime.Lifecycle.Stop.{mark_stopped, stop_found, stop, discard, remove}

mark_stopped-found :
    {S : Type 0} (id : Str) (m : Runtime S) (ac : ActiveContainer)
    → lookup id m.manager.active ≡ some ac
    → mark_stopped id m ≡ record m {
      manager = record (m.manager) {
        active = insert id (record ac { manually_stopped = true }) m.manager.active;
      };
    }
unfolding mark_stopped
mark_stopped-found id m ac e = rw (e, mark_stopped) refl

module _ {S E : Type 0} (services : Services S E) where
  stop-runs :
      (id : Str) (in_time : Bool) (m : Runtime S) (r : Container)
      → services.backend.get_container m.manager.store id ≡ ok r
      → r.state.is_running || r.state.is_paused ≡ true
      → (stop services id in_time m).2 ≡ mark_stopped r.id m
  unfolding stop stop_found
  stop-runs id in_time m r found runs = ground (arith, found, runs)

  -- When the process of a container that `Stop` was called for is reaped, nothing is started,
  -- whatever the restart policy: where the container runs or is paused, is active and is not removed
  -- on exit, and its record can be stored.
  pub exit-stop :
      (id : Str) (in_time : Bool) (pid code : ℕ) (oom : Bool) (now : Str) (m : Runtime S)
      (ac : ActiveContainer) (r : Container) (h : HostConfig) (s : S)
      → services.backend.get_container m.manager.store r.id ≡ ok r
      → r.state.is_running || r.state.is_paused ≡ true
      → lookup_pid pid m.manager.pid_map ≡ some r.id
      → lookup r.id m.manager.active ≡ some ac
      → ac.is_done ≡ false
      → r.host_config ≡ some h
      → h.auto_remove ≡ false
      → services.backend.update_container m.manager.store (exited_record r code oom now) ≡ some s
      → (handle_exit services.backend pid code oom now (stop services r.id in_time m).2.manager).0
        ≡ ok []
  exit-stop id in_time pid code oom now m ac r h s found runs known is_active waits host kept
        stored =
      let marked = record ac { manually_stopped = true } in
      let there : lookup r.id (insert r.id marked m.manager.active) ≡ some marked =
        ground (arith, lookup-insert r.id r.id marked m.manager.active, str_eq_refl r.id) in
      rw (stop-runs r.id in_time m r found runs ∙ mark_stopped-found r.id m ac is_active) (
        ap (λ x. x.0)
          (handle_exit-stopped services.backend pid code oom now
            (record (m.manager) { active = insert r.id marked m.manager.active }) r.id marked r h s
            known there waits refl found host kept stored))

  discard-ok :
      (r : Container) (m m' : Runtime S) (es : List Effect)
      → discard services r m ≡ (ok tt, es, m')
      → (services.delete_container
            (services.backend.disconnect_all m.manager.store r.id)
            r.id
            r.name
          ≡ ok m'.manager.store)
        × (m'.manager.active ≡ erase r.id m.manager.active)
        × (m'.start_notify ≡ erase_str r.id m.start_notify)
  unfolding discard
  discard-ok r m m' es h =
      elim (Outcome-cases (
        services.delete_container (services.backend.disconnect_all m.manager.store r.id) r.id
          r.name)) [
            | inl (s, deleted) ↦
                (ground (arith, h, deleted), ground (arith, h, deleted), ground (arith, h, deleted))
            | inr (inl (e, failed)) ↦ absurd (ground (arith, h, failed))
            | inr (inr p) ↦ absurd (ground (arith, h, p))
          ]

  remove-discards :
      (id : Str) (force in_time : Bool) (reap : Runtime S → Runtime S) (m m' : Runtime S)
      (r : Container) (es : List Effect)
      → services.backend.get_container m.manager.store id ≡ ok r
      → remove services id force in_time reap m ≡ (ok tt, es, m')
      → (not r.state.is_running || force ≡ true)
        × (w : Runtime S) × (fs : List Effect) × (discard services r w ≡ (ok tt, fs, m'))
  unfolding remove
  remove-discards id force in_time reap m m' r es found h = elim (Bool-cases r.state.is_running) [
    | inr idle ↦ (rw idle refl, m, es, ground (arith, found, h, idle))
    | inl runs ↦ elim (Bool-cases force) [
      | inr soft ↦ absurd (ground (arith, found, h, runs, soft))
      | inl hard ↦
          let w = reap (stop services r.id in_time m).2 in
          let done : discard services r w ≡ (ok tt, (discard services r w).1, m') =
            ground (arith, found, h, runs, hard) in
          (ground (arith, hard), w, (discard services r w).1, done)
    ]
  ]

  -- A container that was removed is not active, and its record was deleted from the state that the
  -- call to leave its networks gave. A container that runs was removed by force.
  remove-Removed :
      (id : Str) (force in_time : Bool) (reap : Runtime S → Runtime S) (m m' : Runtime S)
      (r : Container) (es : List Effect)
      → services.backend.get_container m.manager.store id ≡ ok r
      → remove services id force in_time reap m ≡ (ok tt, es, m')
      → (not r.state.is_running || force ≡ true)
        × (lookup r.id m'.manager.active ≡ none)
        × (s : S) × (services.delete_container (services.backend.disconnect_all s r.id) r.id r.name
            ≡ ok m'.manager.store)
  remove-Removed id force in_time reap m m' r es found h =
      let (allowed, w, fs, done) = remove-discards id force in_time reap m m' r es found h in
      let (deleted, gone, woken) = discard-ok r w m' fs done in
      (
        allowed,
        ap (lookup r.id) gone
            ∙ ground (arith, lookup-erase r.id r.id w.manager.active, str_eq_refl r.id),
        w.manager.store,
        deleted,
      )
