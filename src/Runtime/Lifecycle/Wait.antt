-- ===== src/Runtime/Lifecycle/Wait.antt =====
-- `Wait` of the runtime manager. The polls that it makes are a list of what each of them sees.
use kogia.Base.{
  ℕ, ◌≡◌, ◌∙◌, Bool, true, false, Option, none, some, List, [], ◌∷◌, ◌++◌, All, if◌then◌else◌,
  Outcome, ok, err, panic, arith,
}
use kogia.Runtime.State.{Status, exited, dead, Container}

-- How the wait for `done` ends: it is closed, with the cached exit code and what the store then
-- says, or the call is canceled.
pub data Finish (E : Type 0) : Type 0 where
  done : ℕ → Outcome E Container → Finish E
  wait_canceled : Finish E

-- A round of the loop: an active container that is waited for, or else the record, and whether the
-- call is canceled in the pause.
pub record Poll (E : Type 0) : Type 0 where
  pub active : Option (Finish E)
  pub container : Outcome E Container
  pub is_canceled : Bool

pub data WaitResult (E : Type 0) : Type 0 where
  exit_code : ℕ → WaitResult E
  wait_failed : E → WaitResult E
  canceled : WaitResult E
  store_panic : WaitResult E
  -- The polls that are given do not end the loop.
  still_waiting : WaitResult E

abbrev pub has_exited : Status → Bool
has_exited exited = true
has_exited dead = true
has_exited status = false

module _ {E : Type 0} where
  abbrev pub finish_wait : Finish E → WaitResult E
  finish_wait (done code (ok r)) = exit_code r.state.exit_code
  finish_wait (done code (err e)) = exit_code code
  finish_wait (done code panic) = store_panic
  finish_wait wait_canceled = canceled

  -- The loop of `Wait`.
  unfoldable pub wait_loop : List (Poll E) → WaitResult E
  wait_loop [] = still_waiting
  wait_loop (p ∷ ps) =
      let rest = wait_loop ps in
      elim p.active [
        | some finish ↦ finish_wait finish
        | none ↦ elim p.container [
          | err e ↦ exit_code 0
          | panic ↦ store_panic
          | ok r ↦
              if has_exited r.state.status
              then exit_code r.state.exit_code
              else if p.is_canceled
              then canceled
              else rest
        ]
      ]

  unfoldable pub wait : Outcome E Container → List (Poll E) → WaitResult E
  wait (err e) polls = wait_failed e
  wait panic polls = store_panic
  wait (ok r) polls =
      let waited = wait_loop polls in
      if has_exited r.state.status then exit_code r.state.exit_code else waited

  -- Nothing happens to the container in this poll: it is not active and its record has not exited.
  abbrev pub IsIdle : Poll E → Type 0
  IsIdle p =
      (p.active ≡ none)
      × (p.is_canceled ≡ false)
      × ((r : Container) × (p.container ≡ ok r) × (has_exited r.state.status ≡ false))

  -- The exit code that a poll ends the loop with.
  abbrev pub reported : Poll E → Option ℕ
  reported p = elim p.active [
    | some (done code (ok r)) ↦ some r.state.exit_code
    | some (done code (err e)) ↦ some code
    | some (done code panic) ↦ none
    | some wait_canceled ↦ none
    | none ↦ elim p.container [
      | err e ↦ some 0
      | panic ↦ none
      | ok r ↦ if has_exited r.state.status then some r.state.exit_code else none
    ]
  ]

  wait_loop-reported :
      (p : Poll E) (after : List (Poll E)) (code : ℕ)
      → reported p ≡ some code
      → wait_loop (p ∷ after) ≡ exit_code code
  unfolding wait_loop
  wait_loop-reported p after code h = ground (arith, h)

  wait_loop-idle : (p : Poll E) (ps : List (Poll E)) → IsIdle p → wait_loop (p ∷ ps) ≡ wait_loop ps
  unfolding wait_loop
  wait_loop-idle p ps (bare, going, (r, found, lives)) = ground (arith, bare, going, found, lives)

  wait_loop-Ends :
      (before after : List (Poll E)) (p : Poll E) (code : ℕ)
      → All IsIdle before
      → reported p ≡ some code
      → wait_loop (before ++ p ∷ after) ≡ exit_code code
  wait_loop-Ends [] after p code idle h = wait_loop-reported p after code h
  wait_loop-Ends (q ∷ before) after p code (here, idle) h =
      wait_loop-idle q (before ++ p ∷ after) here ∙ wait_loop-Ends before after p code idle h

  -- A `Wait` for a container that has not exited returns in the first poll in which the container
  -- ends, with the code that this poll gives, however many polls before that saw it neither active nor exited.
  wait-reported :
      (r : Container) (before after : List (Poll E)) (p : Poll E) (code : ℕ)
      → has_exited r.state.status ≡ false
      → All IsIdle before
      → reported p ≡ some code
      → wait (ok r) (before ++ p ∷ after) ≡ exit_code code
  unfolding wait
  wait-reported r before after p code lives idle h =
      rw lives (wait_loop-Ends before after p code idle h)
