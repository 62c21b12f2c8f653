-- ===== src/Runtime/Lifecycle/ActiveLaws.antt =====
-- The entry and the leaving of the active map and the PID map.
use kogia.Base.{
  ℕ, ◌≡◌, ◌≢◌, refl, sym, ap, ◌∙◌, ◌⊎◌, inl, inr, false, none, some, Str, str_eq, str_eq_iff,
  str_eq_refl, ◌==◌, insert, lookup-insert, lookup-erase, Bool-cases, arith,
}
use kogia.Runtime.Exit.{Manager, lookup_pid}
use kogia.Runtime.ExitLaws.{IsLive, lookup-delete_pid}
use kogia.Runtime.Lifecycle.State.{Runtime}
use kogia.Runtime.Lifecycle.Start.{new_active, enter_active, leave_active}

-- Neither the process nor the container is in the PID map.
pub record IsNew {S : Type 0} (id : Str) (pid : ℕ) (m : Manager S) : Type 0 where
  pub no_process : lookup_pid pid m.pid_map ≡ none
  pub no_container : (q : ℕ) → lookup_pid q m.pid_map ≢ some id

pub IsLive-store : {S : Type 0} (s : S) (m : Manager S) → IsLive m → IsLive (record m { store = s })
IsLive-store s m live = record { active = live.active; one_process = live.one_process }

module _ {S : Type 0} (id : Str) (pid : ℕ) (m : Runtime S) (live : IsLive m.manager)
    (fresh : IsNew id pid m.manager) where
  -- A process that is known is the new one, or was known, of another container.
  entered :
      (p : ℕ) (k : Str)
      → lookup_pid p (enter_active id pid m).manager.pid_map ≡ some k
      → ((p ≡ pid) × (k ≡ id))
        ⊎ (((pid == p) ≡ false) × (lookup_pid p m.manager.pid_map ≡ some k) × (str_eq id k ≡ false))
  entered p k e = elim (Bool-cases (pid == p)) [
    | inl same ↦ inl (ground (arith, same, e))
    | inr apart ↦
        let known : lookup_pid p m.manager.pid_map ≡ some k =
          ground (arith, apart, e, lookup-delete_pid pid p m.manager.pid_map) in
        inr (
          apart,
          known,
          elim (Bool-cases (str_eq id k)) [
            | inl same ↦
                absurd (fresh.no_container p (known ∙ ap some (sym ((str_eq_iff id k).0 same))))
            | inr other ↦ other
          ],
        )
  ]

  pub enter_active-IsLive : IsLive (enter_active id pid m).manager
  enter_active-IsLive = record {
    active = λ p k e. elim (entered p k e) [
      | inl (same, here) ↦ (
        new_active pid,
        ground (arith, here, lookup-insert id k (new_active pid) m.manager.active, str_eq_refl id),
        refl,
      )
      | inr (apart, known, other) ↦
          let (ac, found, waits) = live.active p k known in
          (
            ac,
            ground (arith, found, other, lookup-insert id k (new_active pid) m.manager.active),
            waits,
          )
    ];
    one_process = λ p q k e e'. elim (entered p k e) [
      | inl (same, here) ↦ elim (entered q k e') [
        | inl (same', here') ↦ ground arith
        | inr (apart, known, other) ↦ absurd (ground (arith, here, other, str_eq_refl id))
      ]
      | inr (apart, known, other) ↦ elim (entered q k e') [
        | inl (same, here) ↦ absurd (ground (arith, here, other, str_eq_refl id))
        | inr (apart', known', other') ↦ live.one_process p q k known known'
      ]
    ];
  }

  -- What is left after the new process was taken out again.
  left :
      (p : ℕ) (k : Str)
      → lookup_pid p (leave_active id pid (enter_active id pid m)).manager.pid_map ≡ some k
      → (lookup_pid p m.manager.pid_map ≡ some k) × (str_eq id k ≡ false)
  left p k e =
      let before : ((pid == p) ≡ false)
          × (lookup_pid p (enter_active id pid m).manager.pid_map ≡ some k) =
        ground (arith, e, lookup-delete_pid pid p (enter_active id pid m).manager.pid_map) in
      elim (entered p k before.1) [
        | inl (same, here) ↦ absurd (ground (arith, same, before.0))
        | inr (apart, known, other) ↦ (known, other)
      ]

  pub leave_active-IsLive : IsLive (leave_active id pid (enter_active id pid m)).manager
  leave_active-IsLive = record {
    active = λ p k e.
        let (known, other) = left p k e in
        let (ac, found, waits) = live.active p k known in
        (
          ac,
          ground (
            arith,
            found,
            other,
            lookup-erase id k (insert id (new_active pid) m.manager.active),
            lookup-insert id k (new_active pid) m.manager.active,
          ),
          waits,
        );
    one_process = λ p q k e e'. live.one_process p q k (left p k e).0 (left q k e').0;
  }
