-- ===== src/Runtime/Reaper.antt =====
-- `reapChildren` of internal/runtime/wait.go: what the processes that ended do to the manager.
use kogia.Base.{
  ℕ, ◌+◌, ◌≡◌, ◌≢◌, refl, inl, inr, Bool, true, false, Option, none, some, List, [], ◌∷◌, ◌++◌, Str,
  lookup, Outcome, ok, err, panic, Outcome-cases,
}
use kogia.Runtime.Exit.{Backend, Manager, Task, ActiveContainer, lookup_pid, handle_exit}
use kogia.Runtime.ExitFile.{is_oom_killed, exit_code_text}
use kogia.Runtime.ExitLaws.{IsLive, handle_exit_safe, handle_exit-IsLive}

-- `syscall.WaitStatus`: exited with a status, killed by a signal, or neither.
pub data WaitStatus : Type 0 where
  exited_with signaled_by : ℕ → WaitStatus
  other_status : WaitStatus

abbrev pub exit_code_of : WaitStatus → ℕ
exit_code_of (exited_with code) = code
exit_code_of (signaled_by sig) = 128 + sig
exit_code_of other_status = 0

-- A result of `Wait4`, with the memory.events of the container's control group and the time.
pub record Reaped : Type 0 where
  pub pid : ℕ
  pub status : WaitStatus
  pub memory_events : Option Str
  pub now : Str

abbrev pub is_active : Option ActiveContainer → Bool
is_active none = false
is_active (some ac) = true

-- Whether the process is that of an active container.
abbrev pub is_container : {S : Type 0} → ℕ → Manager S → Bool
is_container pid m = elim (lookup_pid pid m.pid_map) [
  | none ↦ false
  | some id ↦ is_active (lookup id m.active)
]

abbrev pub was_oom_killed : {S : Type 0} → Reaped → Manager S → Bool
was_oom_killed r m = elim (is_container r.pid m) [
  | true ↦ is_oom_killed r.memory_events
  | false ↦ false
]

-- The exit code file that is written before the exit is handled, if the process is a container's.
abbrev pub exit_file : {S : Type 0} → Reaped → Manager S → Option Str
exit_file r m = elim (is_container r.pid m) [
  | true ↦ some (exit_code_text (exit_code_of r.status) (was_oom_killed r m))
  | false ↦ none
]

module _ {S E : Type 0} (backend : Backend S E) where
  abbrev pub handle_reaped : Reaped → Manager S → Outcome E (List Task) × Manager S
  handle_reaped r m = handle_exit backend r.pid (exit_code_of r.status) (was_oom_killed r m) r.now m

  -- The loop, over the processes that `Wait4` reports in it; a panic of `HandleExit` ends it.
  unfoldable pub reap_children :
      List Reaped → List Task → Manager S → Outcome E (List Task) × Manager S
  reap_children [] tasks m = (ok tasks, m)
  reap_children (r ∷ rs) tasks m =
      let handled = handle_reaped r m in
      elim handled.0 [
        | ok new ↦ reap_children rs (tasks ++ new) handled.1
        | err e ↦ reap_children rs tasks handled.1
        | panic ↦ (panic, handled.1)
      ]

  -- However many processes have ended, of containers or others, the loop gets to its end without a
  -- panic and keeps each process of the PID map with one active container that is not done: where
  -- that holds before, and the reads of the store do not panic.
  pub reap_children_safe :
      (rs : List Reaped) (tasks : List Task) (m : Manager S)
      → IsLive m
      → ((s : S) (id : Str) → backend.get_container s id ≢ panic)
      → ((new : List Task) × ((reap_children rs tasks m).0 ≡ ok new))
        × IsLive (reap_children rs tasks m).1
  unfolding reap_children
  reap_children_safe [] tasks m live reads = ((tasks, refl), live)
  reap_children_safe (r ∷ rs) tasks m live reads =
      let code = exit_code_of r.status in
      let oom = was_oom_killed r m in
      let kept = handle_exit-IsLive backend r.pid code oom r.now m live in
      elim (Outcome-cases (handle_reaped r m).0) [
        | inl (new, e) ↦ rw (e, reap_children) (reap_children_safe rs (tasks ++ new) _ kept reads)
        | inr (inl (x, e)) ↦ rw (e, reap_children) (reap_children_safe rs tasks _ kept reads)
        | inr (inr e) ↦ absurd (handle_exit_safe backend r.pid code oom r.now m live reads e)
      ]
