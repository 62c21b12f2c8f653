-- ===== src/Runtime/Lifecycle/StartLaws.antt =====
-- What a `Start` leaves behind, whether it succeeds or fails.
use kogia.Base.{
  ℕ, ◌≡◌, inl, inr, Bool, true, false, not, ◌&&◌, some, List, [], ◌∷◌, Str, ok, err, Bool-cases,
  Option-cases, Outcome-cases, arith,
}
use kogia.Runtime.State.{Container}
use kogia.Runtime.ExitLaws.{IsLive}
use kogia.Runtime.Lifecycle.State.{Effect, open_io, close_io, LifeError, Services, Runtime}
use kogia.Runtime.Lifecycle.Start.{
  StartAnswers, want_tty, is_running_status, enter_active, with_store, launch, join_network,
  read_pid, create_container, prepare, start,
}
use kogia.Runtime.Lifecycle.ActiveLaws.{
  IsNew, IsLive-store, enter_active-IsLive, leave_active-IsLive,
}

abbrev pub opens_io : List Effect → Bool
opens_io [] = false
opens_io (open_io id tty stdin ∷ es) = true
opens_io (e ∷ es) = opens_io es

abbrev pub closes_io : List Effect → Bool
closes_io [] = false
closes_io (close_io id ∷ es) = true
closes_io (e ∷ es) = closes_io es

module _ {S E : Type 0} (services : Services S E) where
  create_container-closes :
      (r : Container) (ans : StartAnswers) (m : Runtime S) (e : LifeError E)
      → (create_container services r ans m).0 ≡ err e
      → closes_io (create_container services r ans m).1 ≡ true
  unfolding create_container read_pid join_network launch
  create_container-closes r ans m e h = ground (arith, h)

  -- The guard against leaks: a `Start` that opened the container's stdio and returns an error has
  -- closed it.
  pub start-closes_io :
      (id : Str) (ans : StartAnswers) (m : Runtime S) (e : LifeError E)
      → (start services id ans m).0 ≡ err e
      → opens_io (start services id ans m).1 ≡ true
      → closes_io (start services id ans m).1 ≡ true
  unfolding start prepare
  start-closes_io id ans m e failed opened =
      elim (Outcome-cases (services.backend.get_container m.manager.store id)) [
        | inr none_found ↦ ground (arith, failed, opened, none_found)
        | inl (r, found) ↦ ground (arith, failed, opened, found, create_container-closes r ans m e)
      ]

  -- The maps where `Start` succeeds.
  pub start-ok :
      (id : Str) (ans : StartAnswers) (m m' : Runtime S) (es : List Effect) (r : Container)
      → services.backend.get_container m.manager.store id ≡ ok r
      → start services id ans m ≡ (ok tt, es, m')
      → (pid : ℕ) × (ans.pid ≡ some pid)
        × (m' ≡ with_store m'.manager.store (enter_active r.id pid m))
        × (is_running_status r.state.status ≡ false)
  unfolding start prepare create_container read_pid join_network launch
  start-ok id ans m m' es r found h = elim (Option-cases ans.pid) [
    | inl lost ↦ absurd (ground (arith, found, h, lost))
    | inr (pid, given) ↦ (pid, given, ground (arith, found, h, given), ground (arith, found, h))
  ]

  -- The manager, whatever its store, before the container is registered and after.
  module _ (r : Container) (ans : StartAnswers) (m : Runtime S) (live : IsLive m.manager) where
    launch-IsLive :
        (pid : ℕ) (s : S)
        → IsNew r.id pid m.manager
        → IsLive (launch services r pid ans (with_store s m)).2.manager
    unfolding launch
    launch-IsLive pid s fresh = elim (Bool-cases ans.started) [
      | inl yes_started ↦
          rw (yes_started, launch) (IsLive-store _ _ (enter_active-IsLive r.id pid m live fresh))
      | inr failed ↦
          rw (failed, launch) (IsLive-store _ _ (leave_active-IsLive r.id pid m live fresh))
    ]

    join_network-IsLive :
        (pid : ℕ) → IsNew r.id pid m.manager → IsLive (join_network services r pid ans m).2.manager
    unfolding join_network
    join_network-IsLive pid fresh =
        let net = services.set_up_network m.manager.store r pid in
        elim (Bool-cases net.0) [
          | inl joined ↦ rw (joined, join_network) (launch-IsLive pid net.1 fresh)
          | inr failed ↦ rw (failed, join_network) (IsLive-store net.1 m.manager live)
        ]

    module _ (fresh : (pid : ℕ) → ans.pid ≡ some pid → IsNew r.id pid m.manager) where
      read_pid-IsLive : IsLive (read_pid services r ans m).2.manager
      unfolding read_pid
      read_pid-IsLive = elim (Option-cases ans.pid) [
        | inl lost ↦ rw (lost, read_pid) live
        | inr (pid, given) ↦ rw (given, read_pid) (join_network-IsLive pid (fresh pid given))
      ]

      create_container-IsLive : IsLive (create_container services r ans m).2.manager
      unfolding create_container read_pid join_network launch
      create_container-IsLive = elim (Bool-cases ans.created) [
        | inr failed ↦ rw (failed, create_container) live
        | inl made ↦ elim (Bool-cases (want_tty r.config && not ans.pty_received)) [
          | inl failed ↦ rw (made, create_container) (rw failed live)
          | inr received ↦ rw (made, create_container) (rw received read_pid-IsLive)
        ]
      ]

      prepare-IsLive : IsLive (prepare services r ans m).2.manager
      unfolding prepare create_container read_pid join_network launch
      prepare-IsLive = elim (Option-cases ans.root_path) [
        | inl failed ↦ rw (failed, prepare) live
        | inr (root, mounted) ↦ elim (Bool-cases ans.spec_updated) [
          | inr failed ↦ rw (mounted, prepare) (rw failed live)
          | inl a ↦ elim (Bool-cases ans.log_opened) [
            | inr failed ↦ rw (mounted, prepare) (rw a (rw failed live))
            | inl b ↦ elim (Bool-cases ans.io_made) [
              | inr failed ↦ rw (mounted, prepare) (rw a (rw b (rw failed live)))
              | inl c ↦ rw (mounted, prepare) (rw a (rw b (rw c create_container-IsLive)))
            ]
          ]
        ]
      ]

  -- `Start` keeps what `HandleExit` relies on, whether it succeeds or fails, if the new process and
  -- the container are not in the PID map before.
  pub start-IsLive :
      (id : Str) (ans : StartAnswers) (m : Runtime S)
      → IsLive m.manager
      → ((r : Container) (pid : ℕ)
          → services.backend.get_container m.manager.store id ≡ ok r
          → ans.pid ≡ some pid
          → IsNew r.id pid m.manager)
      → IsLive (start services id ans m).2.manager
  unfolding start
  start-IsLive id ans m live fresh =
      elim (Outcome-cases (services.backend.get_container m.manager.store id)) [
        | inr (inl (e, failed)) ↦ rw (failed, start) live
        | inr (inr p) ↦ rw (p, start) live
        | inl (r, found) ↦ elim (Bool-cases (is_running_status r.state.status)) [
          | inl runs ↦ rw (found, start) (rw runs live)
          | inr idle ↦ elim (Outcome-cases (services.get_container_bundle m.manager.store r.id)) [
            | inr (inl (e, failed)) ↦ rw (found, start) (rw idle (rw failed live))
            | inr (inr p) ↦ rw (found, start) (rw idle (rw p live))
            | inl (bundle, named) ↦
                rw (found, start)
                  (rw idle
                    (rw named (prepare-IsLive r ans m live (λ pid given. fresh r pid found given))))
          ]
        ]
      ]
