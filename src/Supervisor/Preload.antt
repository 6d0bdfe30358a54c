-- ===== src/Supervisor/Preload.antt =====
-- `apply_preload` of pseudoroot/src/lib.rs: the preloaded library and the default ids in the
-- environment of a command.
use pseudoroot.Prelude.{◌||◌, Option, none, some, [], ◌∷◌, ◌++◌, if◌then◌else◌}
use pseudoroot.Prelude.Bytes.{Bytes, codes}
use pseudoroot.Supervisor.Command.{Command, command_has_env, env_in_command, set_env}
use pseudoroot.Supervisor.Process.{Process, is_set, uid_env, gid_env}

unfoldable pub ensure_default_env : Process → Command → Bytes → Bytes → Command
ensure_default_env p cmd key default =
    if command_has_env cmd key || is_set (p.env key) then cmd else set_env key default cmd

abbrev pub preload_var : Process → Bytes
preload_var p = if p.macos then codes "DYLD_INSERT_LIBRARIES" else codes "LD_PRELOAD"

-- behind what is preloaded already
abbrev pub preload_value : Option Bytes → Bytes → Bytes
preload_value none lib_path = lib_path
preload_value (some existing) lib_path = existing ++ b':' ∷ lib_path

-- `env_var_value`
unfoldable pub merged_preload : Process → Command → Bytes → Bytes
merged_preload p cmd lib_path =
    let inherited = preload_value (p.env (preload_var p)) lib_path in
    elim (env_in_command cmd (preload_var p)) [
      | some existing ↦ preload_value (some existing) lib_path
      | none ↦ inherited
    ]

unfoldable pub apply_preload : Process → Command → Bytes → Command
unfolding ensure_default_env merged_preload
apply_preload p cmd lib_path =
    let with_uid = ensure_default_env p cmd uid_env (b'0' ∷ []) in
    let with_ids = ensure_default_env p with_uid gid_env (b'0' ∷ []) in
    set_env (preload_var p) (merged_preload p with_ids lib_path) with_ids
