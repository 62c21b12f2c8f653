-- ===== src/Runtime/Lifecycle/Recover.antt =====
-- `RecoverOrphans`: the containers that a crashed daemon left.
use kogia.Base.{
  ℕ, ◌≡◌, Bool, false, Option, none, some, List, [], ◌∷◌, ◌++◌, Str, str_eq, Outcome, ok, err,
  panic,
}
use kogia.Runtime.State.{
  Status, created, running, paused, restarting, removing, exited, dead, Container,
}
use kogia.Runtime.Exit.{update_or_log}
use kogia.Runtime.ExitFile.{parse_exit_code}
use kogia.Runtime.Lifecycle.State.{
  Effect, crun_kill, crun_delete, unmount_rootfs, delete_storage, Services,
}
use kogia.Runtime.Lifecycle.Stop.{default_kill_signal, bundle_of}

-- `readExitCodeFile`, of the bundle `dir`: an empty name is an error, and so is a missing file.
abbrev pub read_exit_code_file : (Str → Option Str) → Str → Option (ℕ × Bool)
read_exit_code_file files [] = none
read_exit_code_file files (c ∷ dir) = elim (files (c ∷ dir)) [
  | none ↦ none
  | some text ↦ parse_exit_code text
]

-- The record of a container that ran when the daemon crashed, with what its exit code file says.
abbrev pub recovered_record : Container → Str → Option (ℕ × Bool) → Container
recovered_record r now none = record r {
  state = record (r.state) {
    status = exited;
    is_running = false;
    is_restarting = false;
    pid = 0;
    finished_at = now;
    exit_code = 137;
  };
}
recovered_record r now (some (code, oom)) = record r {
  state = record (r.state) {
    status = exited;
    is_running = false;
    is_restarting = false;
    pid = 0;
    finished_at = now;
    exit_code = code;
    oom_killed = oom;
  };
}

-- What is done with the container of a record.
pub data Orphan : Type 0 where
  ran never_started settled : Orphan

abbrev pub orphan_of : Status → Orphan
orphan_of running = ran
orphan_of restarting = ran
orphan_of created = never_started
orphan_of exited = settled
orphan_of dead = settled
orphan_of paused = settled
orphan_of removing = settled

-- The bundle's name: empty where the store returns an error.
abbrev pub or_empty : {E : Type 0} → Outcome E Str → Str
or_empty (ok dir) = dir
or_empty (err e) = []
or_empty panic = []

module _ {S E : Type 0} (services : Services S E) (files : Str → Option Str) (now : Str) where
  abbrev pub mark_exited : Container → S → S
  mark_exited r s =
      let dir = or_empty (services.get_container_bundle s r.id) in
      update_or_log services.backend s (recovered_record r now (read_exit_code_file files dir))

  abbrev pub forget_created : Container → S → S
  forget_created r s = elim (services.delete_container s r.id r.name) [
    | ok s' ↦ s'
    | err e ↦ s
    | panic ↦ s
  ]

  unfoldable pub recover_one : Container → S → List Effect × S
  recover_one r s = elim (orphan_of r.state.status) [
    | ran ↦ (crun_kill r.id default_kill_signal ∷ crun_delete r.id ∷ [], mark_exited r s)
    | settled ↦ ([], s)
    | never_started ↦ (
      crun_delete r.id
          ∷ unmount_rootfs r.id
          ∷ delete_storage r.id
          ∷ bundle_of services (services.get_container_bundle s r.id),
      forget_created r s,
    )
  ]

  unfoldable pub recover_all : List Container → S → List Effect × S
  recover_all [] s = ([], s)
  recover_all (r ∷ rs) s =
      let done = recover_one r s in let rest = recover_all rs done.1 in (done.0 ++ rest.0, rest.1)

  -- The list is of all containers; where it cannot be read nothing is done.
  unfoldable pub recover_orphans : Outcome E (List Container) → S → List Effect × S
  recover_orphans (ok all) s = recover_all all s
  recover_orphans (err e) s = ([], s)
  recover_orphans panic s = ([], s)

-- What the store promises of a record that is found under its own ID: writes and deletions of other
-- records leave it.
pub record KeepsOthers {S E : Type 0} (services : Services S E) : Type 0 where
  pub update_other :
      (s s' : S) (r x : Container) (k : Str)
      → services.backend.update_container s r ≡ some s'
      → services.backend.get_container s k ≡ ok x
      → x.id ≡ k
      → str_eq r.id k ≡ false
      → services.backend.get_container s' k ≡ ok x
  pub delete_other :
      (s s' : S) (id name : Str) (x : Container) (k : Str)
      → services.delete_container s id name ≡ ok s'
      → services.backend.get_container s k ≡ ok x
      → x.id ≡ k
      → str_eq id k ≡ false
      → services.backend.get_container s' k ≡ ok x
