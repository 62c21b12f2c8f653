-- ===== src/Runtime/Exec/Others.antt =====
-- What happens to the exec sessions that were started, whatever others do.
use mathlib.Core.Path.{subst}
use kogia.Base.{
  none, ltb, length, ◌≡◌, refl, sym, ap, ◌∙◌, inl, inr, ◌⊎◌, Bool-cases, Option-cases, true, false,
  not, ◌&&◌, some, [], ◌∷◌, Str, str_eq, str_eq_refl, str_eq_iff, lookup, insert, lookup-insert, ok,
  err, negsuc, arith,
}
use kogia.Base.Maps.{Dict}
use kogia.Runtime.Exit.{ActiveContainer, ExecSession, cleanup_exec_sessions}
use kogia.Runtime.Exec.Sessions.{
  Sessions, already_started, update_session, claim_session, set_running, set_finished, ExecAnswers,
  after_claim, Meanwhile, Started, run_process, exec_claimed, exec_start,
}

-- The session is there and was started.
abbrev pub IsStarted : Str → Sessions → Type 0
IsStarted id sessions = (s : ExecSession) × (lookup id sessions ≡ some s) × (s.started ≡ true)

-- What others do keeps the sessions that were started.
abbrev pub KeepsStarted : Meanwhile → Type 0
KeepsStarted others =
    (id : Str) (sessions : Sessions) → IsStarted id sessions → IsStarted id (others sessions)

pub update_session-IsStarted :
    (id k : Str) (f : ExecSession → ExecSession) (sessions : Sessions)
    → ((s : ExecSession) → (f s).started ≡ s.started)
    → IsStarted id sessions
    → IsStarted id (update_session k f sessions)
update_session-IsStarted id k f sessions keeps (s, at, started) =
    elim (Option-cases (lookup k sessions)) [
      | inl gone ↦ rw (update_session, gone) (s, at, started)
      | inr (t, found) ↦
          rw (update_session, found)
            (elim (Bool-cases (str_eq k id)) [
              | inl same ↦
                  let is_k : t ≡ s = ground (arith, (str_eq_iff k id).0 same, at, found) in
                  (
                    f t,
                    ground (arith, lookup-insert k id (f t) sessions, same),
                    keeps t ∙ (rw is_k started),
                  )
              | inr other ↦
                  (s, ground (arith, lookup-insert k id (f t) sessions, other, at), started)
            ])
    ]

-- The exit of a container keeps them.
pub cleanup_exec_sessions-KeepsStarted : (c : Str) → KeepsStarted (cleanup_exec_sessions c)
unfolding cleanup_exec_sessions
cleanup_exec_sessions-KeepsStarted c id [] (s, at, started) = absurd (cc at)
cleanup_exec_sessions-KeepsStarted c id ((k, t) ∷ d) (s, at, started) =
    elim (Bool-cases (str_eq k id)) [
      | inl same ↦
          let is_t : t ≡ s = ground (arith, same, at) in
          elim (Bool-cases (str_eq t.container_id c && t.running)) [
            | inl e ↦ (
              record t { running = false; exit_code = some (negsuc 0) },
              ground (arith, same, e),
              ground (arith, is_t, started),
            )
            | inr e ↦ (t, ground (arith, same, e), ground (arith, is_t, started))
          ]
      | inr other ↦
          let (s', at', started') =
            cleanup_exec_sessions-KeepsStarted c id d (s, ground (arith, other, at), started) in
          (s', ground (arith, other, at'), started')
    ]

module _ (E : Type 0) where
  pub claim_known :
      (id : Str) (sessions : Sessions) (s : ExecSession)
      → lookup id sessions ≡ some s
      → ((s.started ≡ true) × (claim_session {E = E} id sessions ≡ (err already_started, sessions)))
        ⊎ (claim_session {E = E} id sessions
            ≡ (ok s, insert id (record s { started = true }) sessions))
  unfolding claim_session
  claim_known id sessions s at = elim (Bool-cases s.started) [
    | inl e ↦ inl (e, ground (arith, at, e))
    | inr e ↦ inr (ground (arith, at, e))
  ]

  pub claimed-IsStarted :
      (id : Str) (sessions : Sessions) (s : ExecSession)
      → IsStarted id (insert id (record s { started = true }) sessions)
  claimed-IsStarted id sessions s = (
    record s { started = true },
    ground (arith, lookup-insert id id (record s { started = true }) sessions, str_eq_refl id),
    refl,
  )

  run_process-IsStarted :
      (id : Str) (s : ExecSession) (ans : ExecAnswers) (others : Meanwhile) (sessions : Sessions)
      → KeepsStarted others
      → IsStarted id sessions
      → IsStarted id (run_process {E = E} s ans others sessions).1
  unfolding run_process
  run_process-IsStarted id s ans others sessions keeps h = elim (Option-cases ans.spawned) [
    | inl e ↦ rw e h
    | inr (pid, e) ↦ elim (Bool-cases (s.config.tty && not ans.pty_received)) [
      | inl e' ↦ rw (e, e') h
      | inr e' ↦
          let ran = update_session s.id (set_running pid s.config.tty) sessions in
          rw (e, e')
            (update_session-IsStarted id s.id (set_finished ans.waited) (others ran) (λ t. refl)
              (keeps id ran (
                update_session-IsStarted id s.id (set_running pid s.config.tty) sessions (λ t. refl)
                  h)))
    ]
  ]

  pub exec_claimed-IsStarted :
      (active : Dict ActiveContainer) (id : Str) (s : ExecSession) (ans : ExecAnswers)
      (others : Meanwhile) (sessions : Sessions)
      → KeepsStarted others
      → IsStarted id sessions
      → IsStarted id (exec_claimed {E = E} active s ans others sessions).1
  unfolding exec_claimed run_process
  exec_claimed-IsStarted active id s ans others sessions keeps h =
      elim (Option-cases (lookup s.container_id active)) [
        | inl gone ↦ rw (exec_claimed, gone) h
        | inr (ac, there) ↦ elim (Bool-cases ans.spec_written) [
          | inr bad ↦ rw (exec_claimed, there) (rw bad h)
          | inl good ↦
              rw (exec_claimed, there)
                (rw good (run_process-IsStarted id s ans others sessions keeps h))
        ]
      ]

  pub exec_start_claimed :
      (active : Dict ActiveContainer) (id : Str) (ans : ExecAnswers) (others : Meanwhile)
      (sessions : Sessions) (s : ExecSession)
      → claim_session {E = E} id sessions ≡ (ok s, insert id (record s { started = true }) sessions)
      → exec_start {E = E} active id ans others sessions
        ≡ exec_claimed active s ans others (insert id (record s { started = true }) sessions)
  unfolding exec_start
  exec_start_claimed active id ans others sessions s e = ap (after_claim active ans others) e

  pub exec_start_refused :
      (active : Dict ActiveContainer) (id : Str) (ans : ExecAnswers) (others : Meanwhile)
      (sessions : Sessions)
      → claim_session {E = E} id sessions ≡ (err already_started, sessions)
      → exec_start {E = E} active id ans others sessions ≡ (err already_started, sessions)
  unfolding exec_start
  exec_start_refused active id ans others sessions e = ap (after_claim active ans others) e

  exec_start_unknown :
      (active : Dict ActiveContainer) (k : Str) (ans : ExecAnswers) (others : Meanwhile)
      (sessions : Sessions)
      → lookup k sessions ≡ none
      → (exec_start {E = E} active k ans others sessions).1 ≡ sessions
  unfolding exec_start claim_session
  exec_start_unknown active k ans others sessions gone = elim (Bool-cases (ltb (length k) 12)) [
    | inl short ↦ ground (arith, gone, short)
    | inr long ↦ ground (arith, gone, long)
  ]

  -- Others that keep the sessions that were started may start one too.
  pub exec_start-KeepsStarted :
      (active : Dict ActiveContainer) (k : Str) (ans : ExecAnswers) (others : Meanwhile)
      → KeepsStarted others
      → KeepsStarted (λ sessions. (exec_start {E = E} active k ans others sessions).1)
  exec_start-KeepsStarted active k ans others keeps id sessions (s, at, started) =
      elim (Option-cases (lookup k sessions)) [
        | inl gone ↦
            subst (IsStarted id) (sym (exec_start_unknown active k ans others sessions gone))
              (s, at, started)
        | inr (t, found) ↦ elim (claim_known k sessions t found) [
          | inl (was, e) ↦
              subst (λ (r : Started E). IsStarted id r.1)
                (sym (exec_start_refused active k ans others sessions e)) (s, at, started)
          | inr e ↦
              subst (λ (r : Started E). IsStarted id r.1)
                (sym (exec_start_claimed active k ans others sessions t e))
                (exec_claimed-IsStarted active id t ans others
                  (insert k (record t { started = true }) sessions) keeps
                  (elim (Bool-cases (str_eq k id)) [
                    | inl same ↦ (
                      record t { started = true },
                      ground
                          (arith, lookup-insert k id (record t { started = true }) sessions, same),
                      refl,
                    )
                    | inr other ↦ (
                      s,
                      ground (
                        arith,
                        lookup-insert k id (record t { started = true }) sessions,
                        other,
                        at,
                      ),
                      started,
                    )
                  ]))
        ]
      ]
