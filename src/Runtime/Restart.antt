-- ===== src/Runtime/Restart.antt =====
-- `handleRestartPolicy` of internal/runtime/container.go: the decision and the delay.
use kogia.Base.{
  ℕ, zero, suc, ◌+◌, ◌-◌, ◌*◌, Bool, true, false, ◌&&◌, ◌||◌, not, Option, none, some, ltb, ◌==◌,
  if◌then◌else◌, ℤ, pos, negsuc,
}
use kogia.Runtime.State.{
  PolicyMode, disabled, always, on_failure, unless_stopped, RestartPolicy, Container, restarting,
}

-- Durations in nanoseconds.
abbrev pub restart_backoff_base : ℕ
restart_backoff_base = 100_000_000

abbrev pub restart_backoff_multiplier : ℕ
restart_backoff_multiplier = 2

abbrev pub restart_backoff_max : ℕ
restart_backoff_max = 60_000_000_000

-- `policy.MaximumRetryCount <= 0 || record.RestartCount < policy.MaximumRetryCount`
abbrev pub retries_left : ℤ → ℕ → Bool
retries_left (pos n) count = n == 0 || ltb count n
retries_left (negsuc n) count = true

abbrev pub by_mode : PolicyMode → ℤ → ℕ → ℕ → Bool → Bool
by_mode always limit exit_code count stopped = not stopped
by_mode on_failure limit exit_code count stopped =
    not (exit_code == 0) && (not stopped && retries_left limit count)
by_mode unless_stopped limit exit_code count stopped = not stopped
by_mode disabled limit exit_code count stopped = false

unfoldable pub should_restart : RestartPolicy → ℕ → ℕ → Bool → Bool
should_restart p exit_code count stopped =
    by_mode p.name p.maximum_retry_count exit_code count stopped

-- for i := 1; i < count && delay < RestartBackoffMax; i++ { delay *= RestartBackoffMultiplier }
-- on the rounds that are left.
unfoldable pub delay_loop : ℕ → ℕ → ℕ
delay_loop zero delay = delay
delay_loop (suc n) delay =
    let longer = delay_loop n (delay * restart_backoff_multiplier) in
    if ltb delay restart_backoff_max then longer else delay

unfoldable pub backoff_delay : ℕ → ℕ
unfolding delay_loop
backoff_delay count =
    let delay = delay_loop (count - 1) restart_backoff_base in
    if ltb restart_backoff_max delay then restart_backoff_max else delay

-- The record as it is stored before the restart, and the delay of the goroutine that restarts it.
unfoldable pub handle_restart_policy : Container → ℕ → Bool → Option (Container × ℕ)
unfolding should_restart backoff_delay
handle_restart_policy r exit_code stopped = elim r.host_config [
  | none ↦ none
  | some host ↦
      let r' = record r {
        restart_count = r.restart_count + 1;
        state = record (r.state) { status = restarting; is_restarting = true };
      } in
      if not (should_restart host.restart_policy exit_code r.restart_count stopped)
      then none
      else some (r', backoff_delay (r.restart_count + 1))
]
