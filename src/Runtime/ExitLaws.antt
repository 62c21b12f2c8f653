-- ===== src/Runtime/ExitLaws.antt =====
-- `HandleExit`: an exit is handled once, never panics, and leaves the record of an exited container.
use kogia.Base.{
  ◌∙◌, sym, ap, ℕ, Bool, true, false, ◌≡◌, refl, ◌≢◌, inl, inr, none, some, List, [], ◌∷◌, Str,
  str_eq, str_eq_iff, str_eq_refl, ◌==◌, if◌then◌else◌, lookup, lookup-insert, ok, panic,
  Bool-cases, Option-cases, arith, ==_iff,
}
use kogia.Runtime.Exit.{
  ActiveContainer, Backend, Manager, lookup_pid, delete_pid, finish_exit, handle_exit, wind_down,
  claim,
}

pub lookup-delete_pid :
    (p q : ℕ) (m : List (ℕ × Str))
    → lookup_pid q (delete_pid p m) ≡ (if p == q then none else lookup_pid q m)
lookup-delete_pid p q [] = ground arith
lookup-delete_pid p q ((r, id) ∷ m) = ground (arith, lookup-delete_pid p q m)

lookup-none-if :
    (p q : ℕ) (m : List (ℕ × Str))
    → lookup_pid p m ≡ none
    → lookup_pid q m ≡ (if p == q then none else lookup_pid q m)
lookup-none-if p q m e = grind (arith, ==_iff)

-- The manager between two calls: each process that is not reaped yet belongs to one container,
-- which is in the active map and was not reported as done.
pub record IsLive {S : Type 0} (m : Manager S) : Type 0 where
  pub active :
      (p : ℕ) (id : Str)
      → lookup_pid p m.pid_map ≡ some id
      → (ac : ActiveContainer) × (lookup id m.active ≡ some ac) × (ac.is_done ≡ false)
  pub one_process :
      (p q : ℕ) (id : Str)
      → lookup_pid p m.pid_map ≡ some id
      → lookup_pid q m.pid_map ≡ some id
      → p ≡ q

claim_other :
    {S : Type 0} (id other : Str) (pid code : ℕ) (m : Manager S)
    → str_eq id other ≡ false
    → lookup other (claim id pid code m).active ≡ lookup other m.active
unfolding claim
claim_other id other pid code m e = elim (Option-cases (lookup id m.active)) [
  | inl n ↦ ground arith
  | inr (ac, n) ↦ ground (arith, lookup-insert id other (wind_down code ac) m.active)
]

pub claim_self :
    {S : Type 0} (id : Str) (pid code : ℕ) (m : Manager S) (ac : ActiveContainer)
    → lookup id m.active ≡ some ac
    → lookup id (claim id pid code m).active ≡ some (wind_down code ac)
unfolding claim
claim_self id pid code m ac e =
    ground (arith, lookup-insert id id (wind_down code ac) m.active, str_eq_refl id)

not_same :
    {S : Type 0} (p q : ℕ) (id other : Str) (m : Manager S)
    → IsLive m
    → lookup_pid p m.pid_map ≡ some id
    → lookup_pid q m.pid_map ≡ some other
    → (p == q) ≡ false
    → str_eq id other ≡ false
not_same p q id other m live e e' apart = elim (Bool-cases (str_eq id other)) [
  | inl same ↦
      let id_other = (str_eq_iff id other).0 same in
      let p_q = live.one_process p q other (e ∙ ap some id_other) e' in ground (arith, p_q)
  | inr differs ↦ differs
]

module _ {S E : Type 0} (backend : Backend S E) where
  -- An exit of a process that is not known changes nothing.
  pub handle_exit-unknown :
      (pid code : ℕ) (oom : Bool) (now : Str) (m : Manager S)
      → lookup_pid pid m.pid_map ≡ none
      → handle_exit backend pid code oom now m ≡ (ok [], m)
  unfolding handle_exit
  handle_exit-unknown pid code oom now m e = ground arith

  finish_exit-pid_map :
      (id : Str) (code : ℕ) (oom : Bool) (now : Str) (m : Manager S)
      → (finish_exit backend id code oom now m).1.pid_map ≡ m.pid_map
  unfolding finish_exit
  finish_exit-pid_map id code oom now m = ground arith

  pub handle_exit-known :
      (pid code : ℕ) (oom : Bool) (now : Str) (m : Manager S) (id : Str)
      → lookup_pid pid m.pid_map ≡ some id
      → handle_exit backend pid code oom now m
        ≡ finish_exit backend id code oom now (claim id pid code m)
  unfolding handle_exit
  handle_exit-known pid code oom now m id e = ground arith

  handle_exit-pid_map :
      (pid code : ℕ) (oom : Bool) (now : Str) (m : Manager S) (q : ℕ)
      → lookup_pid q (handle_exit backend pid code oom now m).1.pid_map
        ≡ (if pid == q then none else lookup_pid q m.pid_map)
  unfolding claim
  handle_exit-pid_map pid code oom now m q = elim (Option-cases (lookup_pid pid m.pid_map)) [
    | inl e ↦ rw (handle_exit-unknown pid code oom now m e) (lookup-none-if pid q m.pid_map e)
    | inr (id, e) ↦
        rw (handle_exit-known pid code oom now m id e, finish_exit-pid_map id)
          (lookup-delete_pid pid q m.pid_map)
  ]

  -- Whatever a first `HandleExit` did, a second report of the same process starts nothing and
  -- changes nothing.
  pub handle_exit_once :
      (pid code code' : ℕ) (oom oom' : Bool) (now now' : Str) (m : Manager S)
      → let m' = (handle_exit backend pid code oom now m).1 in
        handle_exit backend pid code' oom' now' m' ≡ (ok [], m')
  handle_exit_once pid code code' oom oom' now now' m =
      handle_exit-unknown pid code' oom' now' ((handle_exit backend pid code oom now m).1)
        (ground (arith, handle_exit-pid_map pid code oom now m pid))

  finish_exit-active :
      (id other : Str) (code : ℕ) (oom : Bool) (now : Str) (m : Manager S)
      → str_eq id other ≡ false
      → lookup other (finish_exit backend id code oom now m).1.active ≡ lookup other m.active
  unfolding finish_exit
  finish_exit-active id other code oom now m e = elim (Option-cases (lookup id m.active)) [
    | inl n ↦ ground arith
    | inr (ac, n) ↦ ground (arith, lookup-insert id other (record ac { is_done = true }) m.active)
  ]

  finish_exit-safe :
      (id : Str) (code : ℕ) (oom : Bool) (now : Str) (m : Manager S) (ac : ActiveContainer)
      → lookup id m.active ≡ some ac
      → ac.is_done ≡ false
      → backend.get_container m.store id ≢ panic
      → (finish_exit backend id code oom now m).0 ≢ panic
  unfolding finish_exit
  finish_exit-safe id code oom now m ac e d g = ground arith

  -- When each process in the PID map belongs to one active container that was not reported as
  -- done, and the reads of the store do not panic, `HandleExit` does not panic: it closes `done`
  -- at most once.
  pub handle_exit_safe :
      (pid code : ℕ) (oom : Bool) (now : Str) (m : Manager S)
      → IsLive m
      → ((s : S) (id : Str) → backend.get_container s id ≢ panic)
      → (handle_exit backend pid code oom now m).0 ≢ panic
  handle_exit_safe pid code oom now m live reads = elim (Option-cases (lookup_pid pid m.pid_map)) [
    | inl e ↦ rw (handle_exit-unknown pid code oom now m e) (ground arith)
    | inr (id, e) ↦
        let (ac, found, waits) = live.active pid id e in
        rw (handle_exit-known pid code oom now m id e) (
          finish_exit-safe id code oom now (claim id pid code m) (wind_down code ac)
            (claim_self id pid code m ac found) waits (reads _ id))
  ]

  -- A process that is left after an exit belonged to another container.
  handle_exit-other :
      (pid code : ℕ) (oom : Bool) (now : Str) (m : Manager S) (q : ℕ) (other : Str)
      → IsLive m
      → lookup_pid q (handle_exit backend pid code oom now m).1.pid_map ≡ some other
      → (lookup_pid q m.pid_map ≡ some other)
        × (lookup other (handle_exit backend pid code oom now m).1.active ≡ lookup other m.active)
  handle_exit-other pid code oom now m q other live e =
      let left = sym (handle_exit-pid_map pid code oom now m q) ∙ e in
      let known : lookup_pid q m.pid_map ≡ some other = ground (arith, left) in
      let apart : (pid == q) ≡ false = ground (arith, left) in
      (
        known,
        elim (Option-cases (lookup_pid pid m.pid_map)) [
          | inl n ↦ rw (handle_exit-unknown pid code oom now m n) refl
          | inr (id, n) ↦
              let other_id = not_same pid q id other m live n known apart in
              rw (handle_exit-known pid code oom now m id n) (
                finish_exit-active id other code oom now (claim id pid code m) other_id
                ∙ claim_other id other pid code m other_id)
        ],
      )

  -- `HandleExit` preserves that each process in the PID map belongs to one active container of
  -- its own that was not reported as done.
  pub handle_exit-IsLive :
      (pid code : ℕ) (oom : Bool) (now : Str) (m : Manager S)
      → IsLive m
      → IsLive (handle_exit backend pid code oom now m).1
  handle_exit-IsLive pid code oom now m live = record {
    active = λ q id e.
        let (known, same) = handle_exit-other pid code oom now m q id live e in
        let (ac, found, waits) = live.active q id known in (ac, same ∙ found, waits);
    one_process = λ q r id e e'.
        live.one_process q r id (handle_exit-other pid code oom now m q id live e).0
          (handle_exit-other pid code oom now m r id live e').0;
  }
