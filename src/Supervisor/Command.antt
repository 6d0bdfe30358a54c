-- ===== src/Supervisor/Command.antt =====
-- `std::process::Command` as far as pseudoroot/src/lib.rs uses it, and the functions of that file
-- that copy a command or look into its environment.
use pseudoroot.Prelude.{
  Bool, true, false, ◌&&◌, Option, none, some, List, [], ◌∷◌, ◌++◌, if◌then◌else◌,
}
use pseudoroot.Prelude.Bytes.{Bytes, bytes_eq}

-- an environment of a process
abbrev pub Environment : Type 0
Environment = Bytes → Option Bytes

-- what a command sets (`some`) or removes (`none`), one entry for a key
abbrev pub Overrides : Type 0
Overrides = List (Bytes × Option Bytes)

pub record Command : Type 0 where
  pub program : Bytes
  pub args : List Bytes
  pub envs : Overrides
  -- `env_clear` was called
  pub cleared : Bool
  pub current_dir : Option Bytes

unfoldable pub override : Bytes → Option Bytes → Overrides → Overrides
override key value [] = (key, value) ∷ []
override key value ((k, v) ∷ envs) =
    let rest = override key value envs in
    if bytes_eq k key then (key, value) ∷ envs else (k, v) ∷ rest

unfoldable pub overridden : Bytes → Overrides → Option (Option Bytes)
overridden key [] = none
overridden key ((k, v) ∷ envs) =
    let rest = overridden key envs in if bytes_eq k key then some v else rest

abbrev pub command_new : Bytes → Command
command_new program = record {
  program = program;
  args = [];
  envs = [];
  cleared = false;
  current_dir = none;
}

abbrev pub set_args : List Bytes → Command → Command
set_args more cmd = record cmd { args = cmd.args ++ more }

abbrev pub set_env : Bytes → Bytes → Command → Command
set_env key value cmd = record cmd { envs = override key (some value) cmd.envs }

-- without `env_clear`; a cleared command only forgets what it set
unfoldable pub forget : Bytes → Overrides → Overrides
forget key [] = []
forget key ((k, v) ∷ envs) =
    let rest = forget key envs in if bytes_eq k key then rest else (k, v) ∷ rest

abbrev pub env_remove : Bytes → Command → Command
env_remove key cmd = record cmd {
  envs = if cmd.cleared then forget key cmd.envs else override key none cmd.envs;
}

-- the environment that the command's process starts with, in a process with environment `own`
unfoldable pub child_env : Environment → Command → Environment
child_env own cmd key = elim (overridden key cmd.envs) [
  | some value ↦ value
  | none ↦ if cmd.cleared then none else own key
]

-- the loop over `get_envs`
unfoldable pub copy_envs : Overrides → Command → Command
copy_envs [] cmd = cmd
copy_envs ((key, some value) ∷ envs) cmd = copy_envs envs (set_env key value cmd)
copy_envs ((key, none) ∷ envs) cmd = copy_envs envs (env_remove key cmd)

unfoldable pub copy_dir : Option Bytes → Command → Command
copy_dir none cmd = cmd
copy_dir (some dir) cmd = record cmd { current_dir = some dir }

unfoldable pub clone_command : Command → Command
clone_command base =
    let cmd = set_args base.args (command_new base.program) in
    copy_dir base.current_dir (copy_envs base.envs cmd)

-- the entry of `SUPERVISE_VAR` and the supervisor's program stand in front
unfoldable pub supervise_command : Bytes → Bytes → Command → Command
supervise_command exe marker base =
    let cmd = set_env marker (b'1' ∷ []) (command_new exe) in
    let given = set_args base.args (set_args (base.program ∷ []) cmd) in
    copy_dir base.current_dir (copy_envs base.envs given)

unfoldable pub any_set : Bytes → Overrides → Bool
any_set key [] = false
any_set key ((k, v) ∷ envs) =
    let rest = any_set key envs in
    if bytes_eq k key && (elim v [ none ↦ false | some s ↦ true ]) then true else rest

unfoldable pub command_has_env : Command → Bytes → Bool
command_has_env cmd key = any_set key cmd.envs

unfoldable pub find_set : Bytes → Overrides → Option Bytes
find_set key [] = none
find_set key ((k, v) ∷ envs) =
    let rest = find_set key envs in
    if bytes_eq k key then (elim v [ none ↦ rest | some s ↦ some s ]) else rest

unfoldable pub env_in_command : Command → Bytes → Option Bytes
env_in_command cmd key = find_set key cmd.envs
