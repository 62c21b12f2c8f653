-- ===== src/Runtime/Lifecycle/State.antt =====
-- What the operations of the runtime manager share: its state with the attached waiters, the calls
-- that leave the package, and the errors.
use kogia.Base.{ℕ, ◌≡◌, Bool, some, List, [], ◌∷◌, ◌++◌, Str, str_eq, if◌then◌else◌, Outcome}
use kogia.Runtime.State.{Container}
use kogia.Runtime.Exit.{Backend, Manager}

-- A call of crun, of the image storage, of the stdio, or of the file system.
pub data Effect : Type 0 where
  mount_rootfs unmount_rootfs delete_storage : Str → Effect
  open_log close_log close_io : Str → Effect
  -- With a terminal, with stdin.
  open_io : Str → Bool → Bool → Effect
  crun_create crun_start crun_pause crun_resume crun_delete : Str → Effect
  crun_kill crun_kill_all : Str → Str → Effect
  watch_oom : Str → Effect
  remove_all : Str → Effect

pub data LifeError (E : Type 0) : Type 0 where
  store_failed : E → LifeError E
  already_running not_running container_running already_paused not_paused : LifeError E
  mount_failed spec_failed log_failed io_failed create_failed pty_failed : LifeError E
  pid_failed network_failed start_failed pause_failed resume_failed kill_failed : LifeError E

-- The store and the network manager as these operations call them. `set_up_network` is
-- `setupContainerNetworking`: whether it succeeds, and the state it leaves.
pub record Services (S E : Type 0) : Type 0 where
  pub backend : Backend S E
  pub get_container_bundle : S → Str → Outcome E Str
  pub delete_container : S → Str → Str → Outcome E S
  pub set_up_network : S → Container → ℕ → Bool × S

-- What the store promises: a stored record is read back by its ID.
pub record StoresRecords {S E : Type 0} (backend : Backend S E) : Type 0 where
  pub get-update :
      (s s' : S) (r : Container)
      → backend.update_container s r ≡ some s'
      → backend.get_container s' r.id ≡ Outcome.ok r

-- The `Manager` with `startNotify`: the containers with callers of `Attach` that wait for a start.
pub record Runtime (S : Type 0) : Type 0 where
  pub manager : Manager S
  pub start_notify : List Str

-- The result of an operation, the calls it made in their order, and the state.
abbrev pub Result : Type 0 → Type 0 → Type 0 → Type 0
Result E A R = Outcome (LifeError E) A × List Effect × R

abbrev pub emit : {E A R : Type 0} → List Effect → Result E A R → Result E A R
emit es (o, fs, m) = (o, es ++ fs, m)

abbrev pub erase_str : Str → List Str → List Str
erase_str id [] = []
erase_str id (k ∷ ks) = let rest = erase_str id ks in if str_eq k id then rest else k ∷ rest
