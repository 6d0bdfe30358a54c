-- ===== src/Supervisor/Handover.antt =====
-- From the supervisor to the process of the session: the table and the ids that the preloaded library
-- finds there.
use pseudoroot.Prelude.{
  ℕ, ◌^◌, ◌<◌, ◌≡◌, refl, sym, arith, Bool, true, false, none, some, List, ◌∷◌, [], unwrap_or,
  ◌>>=◌, Option-cases, Bool-cases, subst, inl, inr,
}
use pseudoroot.Prelude.Bytes.{Bytes}
use pseudoroot.Prelude.Decimal.{to_string, parse, parse-zero, parse-to_string, parse_i32-to_string}
use pseudoroot.Xattrs.{Xattrs}
use pseudoroot.Codec.{Codec}
use pseudoroot.State.{DashMap}
use pseudoroot.Shm.Layout.{round_slot_count-bounds}
use pseudoroot.Shm.Table.{ShmInodeMap}
use pseudoroot.Shm.Map.{ok, Inherited, create, from_fd, current_uid, current_gid}
use pseudoroot.Shm.Create.{IsNew, create-IsNew, IsSession, from_fd-IsSession}
use pseudoroot.ShmClient.{init_shm_from_env}
use pseudoroot.Interpose.{Library}
use pseudoroot.Interpose.Backend.{store_bootstrap_ids}
use pseudoroot.Supervisor.Command.{Command}
use pseudoroot.Supervisor.Process.{
  Process, var, env_u32, session_shm_enabled, shm_fd_env, shm_len_env, uid_env, gid_env,
}
use pseudoroot.Supervisor.Session.{
  SessionHost, table, clear_cloexec, ready, prepare_session, start_backing, target_command,
}
use pseudoroot.Supervisor.Target.{Target, target_command-Target, prepare_session-ready}
use pseudoroot.Supervisor.Start.{started, shm_env, init}

-- The ids of the environment are the same when 0 stands for a variable that is not set.
env_u32-default :
    (p p' : Process) (key : Bytes)
    → p'.is_utf8 ≡ p.is_utf8
    → p'.env key ≡ some (unwrap_or (p.env key) (b'0' ∷ []))
    → env_u32 p' key 0 ≡ env_u32 p key 0
unfolding env_u32
env_u32-default p p' key same e = elim (Option-cases (p.env key)) [
  | inl absent ↦ elim (Bool-cases (p.is_utf8 (b'0' ∷ []))) [
    | inl utf8 ↦ rw (e, absent, same, utf8, parse-zero (2 ^ 32) (omega arith))
    | inr utf8 ↦ rw (e, absent, same, utf8)
  ]
  | inr (value, here) ↦ rw (e, here, same)
]

len-small :
    (wincode : Codec Xattrs) (m : ShmInodeMap) (u g : ℕ)
    → IsNew wincode (2 ^ 16) u g m
    → m.len < 2 ^ 64
len-small wincode m u g new =
    let (i, power, asked, low, high) = round_slot_count-bounds (2 ^ 16) (omega arith) in
    omega (arith, new.len, new.rounded)

-- What a process of the session maps is the table.
pub init_shm_from_env-target :
    (p : Process) (behind : Bool × ℕ → Inherited) (fd : ℕ) (wincode : Codec Xattrs) (u g : ℕ)
    (m : ShmInodeMap)
    → ((n : ℕ) → p.is_utf8 (to_string n) ≡ true)
    → fd < 2 ^ 31
    → p.env shm_fd_env ≡ some (to_string fd)
    → p.env shm_len_env ≡ some (to_string m.len)
    → IsNew wincode (2 ^ 16) u g m
    → (behind (false, fd)).dup ≡ true
    → ((len : ℕ) → (behind (false, fd)).mmap len ≡ true)
    → (behind (false, fd)).memory ≡ m
    → init_shm_from_env (shm_env p behind) (record { active = false; mapped = none })
      ≡ (record { active = true; mapped = some m }, true)
unfolding init_shm_from_env shm_env
init_shm_from_env-target p behind fd wincode u g m ascii small e_fd e_len new dup maps memory =
    let b : Inherited = behind (false, fd) in
    let i : Inherited = record b {
      env_len = var p shm_len_env >>= λ value. parse (2 ^ 64) value;
    } in
    let len = len-small wincode m u g new in
    let found : i.env_len ≡ some m.len =
      rw (e_len, var, ascii m.len) (parse-to_string (2 ^ 64) m.len len (omega arith)) in
    let same : i.memory ≡ m = memory in
    let mapped : from_fd i ≡ ok i.memory =
      from_fd-IsSession i (subst IsSession (sym same) new.session) dup (rw same found)
        (maps i.memory.len) in
    rw (e_fd, var, ascii fd, parse_i32-to_string fd small, mapped, same)

start_backing-table :
    {D : DashMap} (p : Process) (h : SessionHost) (socket_dir : Bytes) (m : ShmInodeMap)
    → session_shm_enabled p ≡ true
    → create h.os (2 ^ 16) (env_u32 p uid_env 0) (env_u32 p gid_env 0) ≡ ok m
    → start_backing {D = D} p h socket_dir ≡ inl (table m (clear_cloexec h))
unfolding start_backing
start_backing-table p h socket_dir m shm made = rw (shm, made)

module _ (p : Process) (h : SessionHost) (behind : Bool × ℕ → Inherited) where
  -- The calls of the system succeed, and the descriptor leads a child to the table.
  pub record IsOpen (m : ShmInodeMap) : Type 0 where
    pub dup : (behind (false, h.fd)).dup ≡ true
    pub maps : (len : ℕ) → (behind (false, h.fd)).mmap len ≡ true
    pub memory : (behind (false, h.fd)).memory ≡ m

  -- What the preloaded library finds in the process of the command.
  pub record Joins (m : ShmInodeMap) (cmd : Command) : Type 1 where
    pub mapped :
        init_shm_from_env
          (shm_env (started p cmd) behind)
          (record { active = false; mapped = none })
        ≡ (record { active = true; mapped = some m }, true)
    pub ids :
        {D : DashMap} (l : Library D)
        → init (started p cmd) l ≡ store_bootstrap_ids (current_uid m) (current_gid m) l

  -- Where the session is backed by a table that create made, the preloaded library maps that table
  -- in the target, and takes the ids of the table for its bootstrap ids.
  pub target_command-Joins :
      (D : DashMap) (wincode : Codec Xattrs) (program : Bytes) (args : List Bytes)
      (lib_path : Bytes) (m : ShmInodeMap) (flags : ℕ)
      → ((n : ℕ) → p.is_utf8 (to_string n) ≡ true)
      → h.fd < 2 ^ 31
      → IsNew wincode (2 ^ 16) (env_u32 p uid_env 0) (env_u32 p gid_env 0) m
      → IsOpen m
      → Joins m (target_command {D = D} p h program args lib_path (table m flags))
  unfolding init
  target_command-Joins D wincode program args lib_path m flags ascii small new opened =
      let t : Target {D = D} p h program args lib_path (table m flags)
          (target_command {D = D} p h program args lib_path (table m flags)) =
        target_command-Target {D = D} p h program args lib_path (table m flags) in
      let cmd : Command = target_command {D = D} p h program args lib_path (table m flags) in
      record {
        mapped =
            init_shm_from_env-target (started p cmd) behind h.fd wincode (env_u32 p uid_env 0)
              (env_u32 p gid_env 0) m ascii small t.linked.0 t.linked.1 new opened.dup opened.maps
              opened.memory;
        ids = λ l. rw (
          env_u32-default p (started p cmd) uid_env refl t.uid,
          env_u32-default p (started p cmd) gid_env refl t.gid,
          new.uid,
          new.gid,
        );
      }

  -- Where the system calls succeed, the table is not switched off and the descriptor leads a
  -- child to it, a session starts with a new table, of the ids of the environment, and a command
  -- in whose process the preloaded library maps that table and takes its ids for the bootstrap
  -- ids.
  pub prepare_session-Joins :
      (D : DashMap) (wincode : Codec Xattrs) (program : Bytes) (args : List Bytes)
      (lib_path socket_dir : Bytes)
      → h.library ≡ some lib_path
      → h.socket_dir ≡ some socket_dir
      → session_shm_enabled p ≡ true
      → h.os.anon_fd ≡ true
      → ((len : ℕ) → h.os.ftruncate len ≡ true)
      → ((len : ℕ) → h.os.mmap len ≡ true)
      → ((n : ℕ) → p.is_utf8 (to_string n) ≡ true)
      → h.fd < 2 ^ 31
      → ((m : ShmInodeMap)
          → create h.os (2 ^ 16) (env_u32 p uid_env 0) (env_u32 p gid_env 0) ≡ ok m
          → IsOpen m)
      → (m : ShmInodeMap) × (cmd : Command) × (prepare_session {D = D} p h (program ∷ args)
          ≡ ready (table m (clear_cloexec h)) cmd)
        × IsNew wincode (2 ^ 16) (env_u32 p uid_env 0) (env_u32 p gid_env 0) m
        × Joins m cmd
  prepare_session-Joins D wincode program args lib_path socket_dir library dir shm fd truncates maps
        ascii small opened =
      let u = env_u32 p uid_env 0 in
      let g = env_u32 p gid_env 0 in
      let (m, made, new) = create-IsNew wincode h.os (2 ^ 16) u g (omega arith) fd truncates maps in
      (
        m,
        target_command {D = D} p h program args lib_path (table m (clear_cloexec h)),
        prepare_session-ready p h program args lib_path socket_dir (table m (clear_cloexec h))
            library dir (start_backing-table p h socket_dir m shm made),
        new,
        target_command-Joins D wincode program args lib_path m (clear_cloexec h) ascii small new
            (opened m made),
      )
