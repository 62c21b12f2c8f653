-- ===== src/Runtime/Backoff.antt =====
-- The delay before a restart, in closed form, and when there is a restart at all.
use Prim.Native.Nat.{min}
use native.Mathlib.Nat.{pow-suc}
use kogia.Base.{
  ℕ, zero, suc, ◌+◌, ◌-◌, ◌*◌, ◌^◌, ◌≤◌, ◌≡◌, ◌≢◌, inl, inr, Bool, false, none, some, ltb,
  if◌then◌else◌, pos, Bool-cases, ap, ◌∙◌, arith,
}
use kogia.Runtime.State.{RestartPolicy, Container, HostConfig, on_failure}
use kogia.Runtime.Restart.{
  restart_backoff_base, restart_backoff_max, delay_loop, backoff_delay, handle_restart_policy,
}

pow_pos : (n : ℕ) → 1 ≤ 2 ^ n
pow_pos zero = omega arith
pow_pos (suc n) = omega (arith, pow_pos n, pow-suc 2 n)

-- The loop stops early only once the delay has reached the cap.
min-delay_loop :
    (n d : ℕ) → min restart_backoff_max (delay_loop n d) ≡ min restart_backoff_max (d * 2 ^ n)
unfolding delay_loop
min-delay_loop zero d = omega arith
min-delay_loop (suc n) d = elim (Bool-cases (ltb d restart_backoff_max)) [
  | inl below ↦ rw below (
      let ih = min-delay_loop n (d * 2) in
      let twice : d * 2 * 2 ^ n ≡ d * 2 ^ suc n = rw (pow-suc 2 n) (omega arith) in omega arith)
  | inr reached ↦ rw reached (
      let grows : d ≤ d * 2 ^ suc n = grind (arith, pow_pos (suc n)) in
      let big : restart_backoff_max ≤ d = ground arith in omega arith)
]

-- The delay is the base doubled once for each earlier restart, and a minute at most.
pub backoff_delay_closed :
    (count : ℕ)
    → backoff_delay count ≡ min restart_backoff_max (restart_backoff_base * 2 ^ (count - 1))
unfolding backoff_delay
backoff_delay_closed count = ground (arith, min-delay_loop (count - 1) restart_backoff_base)

-- The delay lies between the base and the cap.
pub backoff_delay_bounds :
    (count : ℕ)
    → (restart_backoff_base ≤ backoff_delay count) × (backoff_delay count ≤ restart_backoff_max)
backoff_delay_bounds count =
    let closed = backoff_delay_closed count in
    let one = pow_pos (count - 1) in (omega arith, omega arith)

-- What `k` exits with the same code in a row leave of the record.
pub exits : ℕ → ℕ → Bool → Container → Container
exits zero code stopped r = r
exits (suc k) code stopped r =
    exits k code stopped
      (elim (handle_restart_policy r code stopped) [ none ↦ r | some (r', _) ↦ r' ])

abbrev pub Policy : Container → RestartPolicy → Type 0
Policy r p = (h : HostConfig) × (r.host_config ≡ some h) × (h.restart_policy ≡ p)

restart_step :
    (r : Container) (p : RestartPolicy) (limit code : ℕ)
    → Policy r p
    → p.name ≡ on_failure
    → p.maximum_retry_count ≡ pos (suc limit)
    → code ≢ 0
    → let r' : Container = elim (handle_restart_policy r code false) [
      | none ↦ r
      | some (r', _) ↦ r'
    ] in
      (r'.restart_count
        ≡ (if ltb r.restart_count (suc limit) then suc r.restart_count else r.restart_count))
      × (r'.host_config ≡ r.host_config)
unfolding handle_restart_policy
restart_step r p limit code (h, e, eh) mode bound failed = ground (
  arith,
  ap (λ (q : RestartPolicy). q.name) eh,
  ap (λ (q : RestartPolicy). q.maximum_retry_count) eh,
)

-- Under on-failure with a limit, after `k` failing exits in a row of a container that was not
-- stopped by hand, its restart count has grown by `k`, but not past the limit.
pub exits_limited :
    (k : ℕ) (r : Container) (p : RestartPolicy) (limit code : ℕ)
    → Policy r p
    → p.name ≡ on_failure
    → p.maximum_retry_count ≡ pos (suc limit)
    → code ≢ 0
    → r.restart_count ≤ suc limit
    → (exits k code false r).restart_count ≡ min (suc limit) (r.restart_count + k)
unfolding exits
exits_limited zero r p limit code has mode bound failed within = omega arith
exits_limited (suc k) r p limit code (h, e, eh) mode bound failed within =
    let r' : Container = elim (handle_restart_policy r code false) [
      | none ↦ r
      | some (r', _) ↦ r'
    ] in
    let (count, host) = restart_step r p limit code (h, e, eh) mode bound failed in
    let ih = exits_limited k r' p limit code (h, host ∙ e, eh) mode bound failed (ground arith) in
    elim (Bool-cases (ltb r.restart_count (suc limit))) [
      | inl below ↦ ground (arith, ih, count)
      | inr full ↦ ground (arith, ih, count)
    ]
