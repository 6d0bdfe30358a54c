-- ===== src/Supervisor/Start.antt =====
-- The process that a command starts, and what pseudoroot-core/src/shm_client.rs,
-- pseudoroot-core/src/shm_map.rs and pseudoroot/interpose/src/lib.rs read from its environment.
use pseudoroot.Prelude.{ℕ, ◌^◌, Bool, none, some, ◌∷◌, ◌>>=◌}
use pseudoroot.Prelude.Decimal.{parse, parse_i32}
use pseudoroot.State.{DashMap}
use pseudoroot.Shm.Map.{Inherited}
use pseudoroot.ShmClient.{ShmEnv, unset, not_a_number, inherited}
use pseudoroot.Interpose.{Library}
use pseudoroot.Interpose.Backend.{store_bootstrap_ids}
use pseudoroot.Supervisor.Command.{Command, child_env}
use pseudoroot.Supervisor.Process.{Process, var, env_u32, shm_fd_env, shm_len_env, uid_env, gid_env}

abbrev pub started : Process → Command → Process
started p cmd = record p { argv = cmd.program ∷ cmd.args; env = child_env p.env cmd }

-- by a descriptor, what `from_fd` meets behind it, the length in the environment aside
unfoldable pub shm_env : Process → (Bool × ℕ → Inherited) → ShmEnv
unfolding var
shm_env p behind = elim (var p shm_fd_env) [
  | none ↦ unset
  | some fd_var ↦ elim (parse_i32 fd_var) [
    | none ↦ not_a_number
    | some fd ↦
        let env_len = var p shm_len_env >>= λ value. parse (2 ^ 64) value in
        inherited (record (behind fd) { env_len = env_len })
  ]
]

-- the constructor of the preloaded library
unfoldable pub init : {D : DashMap} → Process → Library D → Library D
unfolding env_u32
init p l = store_bootstrap_ids (env_u32 p uid_env 0) (env_u32 p gid_env 0) l
