-- ===== src/Runtime/Lifecycle/StopTests.antt =====
-- The theorems on stops, recoveries and waits at small inputs.
use kogia.Base.{
  ℕ, ◌≡◌, refl, sym, ap, true, false, Option, none, some, List, [], ◌∷◌, Str, codes, lookup, ok,
  arith,
}
use kogia.Base.Maps.{Dict}
use kogia.Runtime.State.{Container}
use kogia.Runtime.Exit.{lookup_pid, handle_exit, exited_record, Task}
use kogia.Runtime.ExitLaws.{IsLive}
use kogia.Runtime.ExitFile.{exit_code_text}
use kogia.Runtime.Reaper.{Reaped, exited_with, signaled_by, reap_children, reap_children_safe}
use kogia.Runtime.Lifecycle.State.{Runtime}
use kogia.Runtime.Lifecycle.Start.{new_active}
use kogia.Runtime.Lifecycle.Stop.{stop}
use kogia.Runtime.Lifecycle.StopLaws.{exit-stop}
use kogia.Runtime.Lifecycle.Tests.{backend, services, reads, host, idle, runs}

-- A container that runs, with its process.
abbrev live : Runtime (Dict Container)
live = record (idle runs) {
  manager = record ((idle runs).manager) {
    active = (codes "c1", new_active 42) ∷ [];
    pid_map = (42, codes "c1") ∷ [];
  };
}

exit-stop_example :
    (handle_exit backend 42 137 false
      (codes "now")
      (stop services (codes "c1") false live).2.manager).0
    ≡ ok []
exit-stop_example =
    exit-stop services (codes "c1") false 42 137 false (codes "now") live (new_active 42) runs host
      ((codes "c1", exited_record runs 137 false (codes "now")) ∷ []) refl refl refl refl refl refl
      refl refl

-- The exit code file of every bundle.
abbrev files : Str → Option Str
files dir = some (exit_code_text 3 true)

abbrev killed : Reaped
killed = record { pid = 42; status = signaled_by 9; memory_events = none; now = codes "now" }

abbrev stray : Reaped
stray = record { pid = 77; status = exited_with 0; memory_events = none; now = codes "now" }

only_42 :
    (p : ℕ) (id : Str) → lookup_pid p live.manager.pid_map ≡ some id → (p ≡ 42) × (codes "c1" ≡ id)
only_42 p id e = ground arith

manager_lives : IsLive live.manager
manager_lives = record {
  active = λ p id e. (
    new_active 42,
    ap (λ (k : Str). lookup k live.manager.active) (sym (only_42 p id e).1),
    refl,
  );
  one_process = λ p q id e e'. ground (arith, only_42 p id e, only_42 q id e');
}

reap_children_safe_example :
    ((new : List Task) × ((reap_children backend (killed ∷ stray ∷ []) [] live.manager).0 ≡ ok new))
    × IsLive (reap_children backend (killed ∷ stray ∷ []) [] live.manager).1
reap_children_safe_example =
    reap_children_safe backend (killed ∷ stray ∷ []) [] live.manager manager_lives reads
