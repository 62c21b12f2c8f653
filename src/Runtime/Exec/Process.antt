-- ===== src/Runtime/Exec/Process.antt =====
-- The process that an exec session runs: `writeExecProcessSpec`.
use kogia.Base.{Bool, List, [], ◌∷◌, ◌++◌, Str}
use kogia.Runtime.Exit.{ExecConfig}
use kogia.Runtime.Spec.Types.{Capabilities, Spec, User}
use kogia.Runtime.Spec.Process.{or_else}

pub record ExecProcess : Type 0 where
  pub terminal : Bool
  pub args : List Str
  pub env : List Str
  pub cwd : Str
  pub user : User
  pub capabilities : Capabilities

-- A user that was asked for is not resolved.
abbrev pub exec_user : Str → User → User
exec_user [] user = user
exec_user (c ∷ name) user = record { uid = 0; gid = 0 }

-- The process of the container's spec with the session's settings over it.
unfoldable pub exec_process : Spec → ExecConfig → ExecProcess
exec_process spec config = record {
  terminal = config.tty;
  args = config.cmd;
  env = spec.env ++ config.env;
  cwd = or_else config.working_dir spec.cwd;
  user = exec_user config.user spec.user;
  capabilities = spec.capabilities;
}
