-- ===== src/Runtime/Exec/Laws.antt =====
-- An exec session is started once, and what `ExecInspect` shows of it at its end.
use mathlib.Core.Path.{subst}
use kogia.Base.{
  ◌≡◌, refl, sym, ap, ◌∙◌, inl, inr, Bool-cases, Option-cases, true, false, not, ◌&&◌, some, Str,
  str_eq_refl, lookup, insert, lookup-insert, ok, err, ℤ, pos, negsuc, arith,
}
use kogia.Base.Maps.{Dict}
use kogia.Runtime.Exit.{ActiveContainer, ExecSession}
use kogia.Runtime.Exec.Sessions.{
  Sessions, already_started, update_session, claim_session, set_running, set_finished, exit_code_of,
  Waited, succeeded, exited_with, wait_failed, ExecAnswers, Meanwhile, Started, run_process,
  exec_claimed, exec_start, ExecInspectResponse, inspected, exec_inspect,
}
use kogia.Runtime.Exec.Others.{
  IsStarted, KeepsStarted, update_session-IsStarted, claim_known, claimed-IsStarted,
  exec_start_claimed, exec_start_refused, exec_claimed-IsStarted,
}

update_session-own :
    (id k : Str) (f : ExecSession → ExecSession) (sessions : Sessions) (t : ExecSession)
    → k ≡ id
    → lookup id sessions ≡ some t
    → lookup id (update_session k f sessions) ≡ some (f t)
update_session-own id k f sessions t own at =
    rw own (ground (arith, at, lookup-insert id id (f t) sessions, str_eq_refl id))

-- The exit code to be shown: 0 of a process that succeeded, its own of one that exited with a code, and
-- -1 where the wait failed.
pub data ShownFor : Waited → ℤ → Type 0 where
  of_success : ShownFor succeeded (pos 0)
  of_exit : (code : ℤ) → ShownFor (exited_with code) code
  of_failed_wait : ShownFor wait_failed (negsuc 0)

exit_code_of-ShownFor : (waited : Waited) → ShownFor waited (exit_code_of waited)
exit_code_of-ShownFor succeeded = of_success
exit_code_of-ShownFor (exited_with code) = of_exit code
exit_code_of-ShownFor wait_failed = of_failed_wait

module _ (E : Type 0) where
  exec_start-IsStarted :
      (active : Dict ActiveContainer) (id : Str) (ans : ExecAnswers) (others : Meanwhile)
      (sessions : Sessions) (s : ExecSession)
      → KeepsStarted others
      → lookup id sessions ≡ some s
      → IsStarted id (exec_start {E = E} active id ans others sessions).1
  unfolding exec_start
  exec_start-IsStarted active id ans others sessions s keeps at =
      elim (claim_known E id sessions s at) [
        | inl (started, e) ↦
            subst (λ (r : Started E). IsStarted id r.1)
              (sym (exec_start_refused E active id ans others sessions e)) (s, at, started)
        | inr e ↦
            subst (λ (r : Started E). IsStarted id r.1)
              (sym (exec_start_claimed E active id ans others sessions s e))
              (exec_claimed-IsStarted E active id s ans others
                (insert id (record s { started = true }) sessions) keeps
                (claimed-IsStarted E id sessions s))
      ]

  -- A session is started once: after an `ExecStart` of it, however that ended and whatever the others
  -- did meanwhile, a second one is refused and changes nothing. The others keep the sessions that were
  -- started.
  pub exec_start_once :
      (active active' : Dict ActiveContainer) (id : Str) (ans ans' : ExecAnswers)
      (others others' : Meanwhile) (sessions : Sessions) (s : ExecSession)
      → KeepsStarted others
      → lookup id sessions ≡ some s
      → exec_start {E = E} active' id ans' others'
          (exec_start {E = E} active id ans others sessions).1
        ≡ (err already_started, (exec_start {E = E} active id ans others sessions).1)
  unfolding exec_start claim_session
  exec_start_once active active' id ans ans' others others' sessions s keeps at =
      let (t, found, started) = exec_start-IsStarted active id ans others sessions s keeps at in
      ground (arith, found, started)

  claimed_ok :
      (active : Dict ActiveContainer) (s : ExecSession) (ans : ExecAnswers) (others : Meanwhile)
      (sessions sessions' : Sessions)
      → exec_claimed {E = E} active s ans others sessions ≡ (ok tt, sessions')
      → run_process {E = E} s ans others sessions ≡ (ok tt, sessions')
  unfolding exec_claimed
  claimed_ok active s ans others sessions sessions' done =
      elim (Option-cases (lookup s.container_id active)) [
        | inl gone ↦ absurd (ground (arith, gone, done))
        | inr (ac, there) ↦ elim (Bool-cases ans.spec_written) [
          | inr bad ↦ absurd (ground (arith, there, bad, done))
          | inl good ↦ ground (arith, there, good, done)
        ]
      ]

  run_process_ok :
      (id : Str) (s : ExecSession) (ans : ExecAnswers) (others : Meanwhile)
      (sessions sessions' : Sessions)
      → KeepsStarted others
      → s.id ≡ id
      → IsStarted id sessions
      → run_process {E = E} s ans others sessions ≡ (ok tt, sessions')
      → (t : ExecSession) × (lookup id sessions' ≡ some (set_finished ans.waited t))
  unfolding run_process
  run_process_ok id s ans others sessions sessions' keeps own h done =
      elim (Option-cases ans.spawned) [
        | inl e ↦ absurd (ground (arith, e, done))
        | inr (pid, e) ↦ elim (Bool-cases (s.config.tty && not ans.pty_received)) [
          | inl e' ↦ absurd (ground (arith, e, e', done))
          | inr e' ↦
              let ran = update_session s.id (set_running pid s.config.tty) sessions in
              let (t, found, started) = keeps id ran (
                update_session-IsStarted id s.id (set_running pid s.config.tty) sessions (λ u. refl)
                  h) in
              let finished : update_session s.id (set_finished ans.waited) (others ran)
                  ≡ sessions' =
                ground (arith, e, e', done) in
              (
                t,
                ap (lookup id) (sym finished)
                    ∙ update_session-own id s.id (set_finished ans.waited) (others ran) t own found,
              )
        ]
      ]

  -- After an `ExecStart` that returned no error, `ExecInspect` shows the session as finished, with the
  -- code its process exited with (0 where it succeeded), or -1 where the wait for it failed. The session
  -- is in the map under its ID, and others keep the sessions that were started.
  pub exec_start-inspect :
      (active : Dict ActiveContainer) (id : Str) (ans : ExecAnswers) (others : Meanwhile)
      (sessions sessions' : Sessions) (s : ExecSession)
      → KeepsStarted others
      → lookup id sessions ≡ some s
      → s.id ≡ id
      → exec_start {E = E} active id ans others sessions ≡ (ok tt, sessions')
      → (r : ExecInspectResponse) × (exec_inspect {E = E} id sessions' ≡ ok r)
        × (r.running ≡ false)
        × (code : ℤ) × (r.exit_code ≡ some code)
        × ShownFor ans.waited code
  unfolding exec_inspect
  exec_start-inspect active id ans others sessions sessions' s keeps at own done =
      elim (claim_known E id sessions s at) [
        | inl (started, e) ↦
            absurd
              (ground (arith, sym (exec_start_refused E active id ans others sessions e) ∙ done))
        | inr e ↦
            let claimed = insert id (record s { started = true }) sessions in
            let ran : run_process {E = E} s ans others claimed ≡ (ok tt, sessions') =
              claimed_ok active s ans others claimed sessions'
                (sym (exec_start_claimed E active id ans others sessions s e) ∙ done) in
            let (t, found) =
              run_process_ok id s ans others claimed sessions' keeps own
                (claimed-IsStarted E id sessions s) ran in
            (
              inspected (set_finished ans.waited t),
              rw (exec_inspect, found) refl,
              refl,
              exit_code_of ans.waited,
              refl,
              exit_code_of-ShownFor ans.waited,
            )
      ]
