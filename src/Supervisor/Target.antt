-- ===== src/Supervisor/Target.antt =====
-- The command that the supervisor runs in a session, and what its process starts with.
use pseudoroot.Prelude.{
  false, ◌≡◌, refl, ◌∙◌, none, some, List, [], ◌∷◌, unwrap_or, Bool-cases, inl, inr,
}
use pseudoroot.Prelude.Bytes.{Bytes, codes, bytes_eq}
use pseudoroot.Prelude.Decimal.{to_string}
use pseudoroot.State.{DashMap}
use pseudoroot.Supervisor.Command.{Command, Environment, override, overridden, child_env}
use pseudoroot.Supervisor.Overrides.{IsMap}
use pseudoroot.Supervisor.Process.{
  Process, supervise_var, daemon_socket_env, shm_fd_env, shm_len_env, uid_env, gid_env,
}
use pseudoroot.Supervisor.Preload.{preload_var, preload_value, apply_preload}
use pseudoroot.Supervisor.Environment.{IsKept, pick, child_env-pick}
use pseudoroot.Supervisor.Preloaded.{
  Preloaded, Preloaded-outside, apply_preload-Preloaded, preload_var-other,
}
use pseudoroot.Supervisor.Session.{
  SessionHost, base_command, Backing, table, daemon, hand_over, target_command, start_backing,
  prepare_session, ready,
}

-- the session reads the variable or sets it for the target
abbrev pub reserved : Process → List Bytes
reserved p =
    supervise_var
    ∷ shm_fd_env
    ∷ shm_len_env
    ∷ daemon_socket_env
    ∷ uid_env
    ∷ gid_env
    ∷ preload_var p
    ∷ []

abbrev pub IsOutside : Bytes → List Bytes → Type 0
IsOutside q [] = Unit
IsOutside q (key ∷ keys) = (bytes_eq key q ≡ false) × IsOutside q keys

module _ {D : DashMap} where
  -- the variables that lead the target to the backing of the session
  abbrev pub IsLinked : SessionHost → Environment → Backing D → Type 0
  IsLinked h env (table m flags) =
      (env shm_fd_env ≡ some (to_string h.fd)) × (env shm_len_env ≡ some (to_string m.len))
  IsLinked h env (daemon state socket_path) = env daemon_socket_env ≡ some socket_path

  pub record Target (p : Process) (h : SessionHost) (prog : Bytes) (given : List Bytes)
      (lib_path : Bytes) (backing : Backing D) (cmd : Command) : Type 0 where
    pub program : cmd.program ≡ prog
    pub args : cmd.args ≡ given
    pub current_dir : cmd.current_dir ≡ none
    pub unmarked : child_env p.env cmd supervise_var ≡ none
    pub linked : IsLinked h (child_env p.env cmd) backing
    pub preload :
        child_env p.env cmd (preload_var p) ≡ some (preload_value (p.env (preload_var p)) lib_path)
    pub uid : child_env p.env cmd uid_env ≡ some (unwrap_or (p.env uid_env) (b'0' ∷ []))
    pub gid : child_env p.env cmd gid_env ≡ some (unwrap_or (p.env gid_env) (b'0' ∷ []))
    pub inherited : (q : Bytes) → IsOutside q (reserved p) → child_env p.env cmd q ≡ p.env q

  -- what is handed to `apply_preload`
  record Handed (p : Process) (h : SessionHost) (prog : Bytes) (given : List Bytes)
      (backing : Backing D) (cmd : Command) : Type 0 where
    program : cmd.program ≡ prog
    args : cmd.args ≡ given
    current_dir : cmd.current_dir ≡ none
    cleared : cmd.cleared ≡ false
    map : IsMap cmd.envs
    marker : overridden supervise_var cmd.envs ≡ some none
    linked : (own : Environment) → IsLinked h (λ q. pick (overridden q cmd.envs) (own q)) backing
    plain_preload : overridden (preload_var p) cmd.envs ≡ none
    plain_uid : overridden uid_env cmd.envs ≡ none
    plain_gid : overridden gid_env cmd.envs ≡ none
    plain : (q : Bytes) → IsOutside q (reserved p) → overridden q cmd.envs ≡ none

  hand_over-Handed :
      (p : Process) (h : SessionHost) (program : Bytes) (args : List Bytes) (backing : Backing D)
      → Handed p h program args backing (hand_over h backing (base_command program args))
  unfolding hand_over override overridden
  hand_over-Handed p h program args (table m flags) = record {
    program = refl;
    args = refl;
    current_dir = refl;
    cleared = refl;
    map = (refl, (refl, (refl, tt)));
    marker = refl;
    linked = λ own. (refl, refl);
    plain_preload = elim (Bool-cases p.macos) [ inl e ↦ rw e refl | inr e ↦ rw e refl ];
    plain_uid = refl;
    plain_gid = refl;
    plain = λ q o. rw (o.0, o.1.0, o.1.1.0);
  }
  hand_over-Handed p h program args (daemon state socket_path) = record {
    program = refl;
    args = refl;
    current_dir = refl;
    cleared = refl;
    map = (refl, (refl, tt));
    marker = refl;
    linked = λ own. refl;
    plain_preload = elim (Bool-cases p.macos) [ inl e ↦ rw e refl | inr e ↦ rw e refl ];
    plain_uid = refl;
    plain_gid = refl;
    plain = λ q o. rw (o.0, o.1.1.1.0);
  }

  IsLinked-Preloaded :
      {p : Process} {h : SessionHost} {program : Bytes} {args : List Bytes} {cmd after : Command}
      {lib_path : Bytes} (backing : Backing D)
      → Handed p h program args backing cmd
      → Preloaded p cmd lib_path after
      → IsLinked h (child_env p.env after) backing
  IsLinked-Preloaded {p = p} {cmd = cmd} {after = after} {lib_path = lib_path} (table m flags)
        handed pre =
      let same = Preloaded-outside p cmd lib_path after handed.cleared pre in
      let out = preload_var-other p in
      (
        same shm_fd_env refl refl (out shm_fd_env refl refl) ∙ (handed.linked p.env).0,
        same shm_len_env refl refl (out shm_len_env refl refl) ∙ (handed.linked p.env).1,
      )
  IsLinked-Preloaded {p = p} {cmd = cmd} {after = after} {lib_path = lib_path}
        (daemon state socket_path) handed pre =
      Preloaded-outside p cmd lib_path after handed.cleared pre daemon_socket_env refl refl
        (preload_var-other p daemon_socket_env refl refl)
      ∙ handed.linked p.env

  -- The command of a session runs the program with its arguments under the preloaded library,
  -- with the marker of the supervisor removed, the ids set, the variables that lead to the
  -- backing, and every variable that the session does not use as the supervisor has it.
  pub target_command-Target :
      (p : Process) (h : SessionHost) (program : Bytes) (args : List Bytes) (lib_path : Bytes)
      (backing : Backing D)
      → Target p h program args lib_path backing (target_command p h program args lib_path backing)
  unfolding target_command
  target_command-Target p h program args lib_path backing = record {
    program = pre.program ∙ handed.program;
    args = pre.args ∙ handed.args;
    current_dir = pre.current_dir ∙ handed.current_dir;
    unmarked =
        pre.other supervise_var refl refl (out supervise_var refl refl)
        ∙ own supervise_var
        ∙ rw handed.marker;
    linked = IsLinked-Preloaded backing handed pre;
    preload = pre.preload ∙ rw (own (preload_var p), handed.plain_preload);
    uid = pre.uid ∙ rw (own uid_env, handed.plain_uid);
    gid = pre.gid ∙ rw (own gid_env, handed.plain_gid);
    inherited = λ q o.
        pre.other q o.1.1.1.1.0 o.1.1.1.1.1.0 o.1.1.1.1.1.1.0 ∙ own q ∙ rw (handed.plain q o);
  }
    where
      cmd : Command
      cmd = hand_over h backing (base_command program args)

      handed : Handed p h program args backing cmd
      handed = hand_over-Handed p h program args backing

      out :
          (q : Bytes)
          → bytes_eq (codes "LD_PRELOAD") q ≡ false
          → bytes_eq (codes "DYLD_INSERT_LIBRARIES") q ≡ false
          → bytes_eq (preload_var p) q ≡ false
      out = preload_var-other p

      own : (q : Bytes) → child_env p.env cmd q ≡ pick (overridden q cmd.envs) (p.env q)
      own q = child_env-pick p.env cmd q handed.cleared

      kept : (q : Bytes) → overridden q cmd.envs ≡ none → IsKept q cmd
      kept q e e' = absurd (cc)

      pre : Preloaded p cmd lib_path (apply_preload p cmd lib_path)
      pre =
          apply_preload-Preloaded p cmd lib_path handed.map handed.cleared
            (kept (preload_var p) handed.plain_preload) (kept uid_env handed.plain_uid)
            (kept gid_env handed.plain_gid)

  pub prepare_session-ready :
      (p : Process) (h : SessionHost) (program : Bytes) (args : List Bytes)
      (lib_path socket_dir : Bytes) (backing : Backing D)
      → h.library ≡ some lib_path
      → h.socket_dir ≡ some socket_dir
      → start_backing p h socket_dir ≡ inl backing
      → prepare_session p h (program ∷ args)
        ≡ ready backing (target_command p h program args lib_path backing)
  unfolding prepare_session
  prepare_session-ready p h program args lib_path socket_dir backing library dir start =
      simp (prepare_session, library, dir, start)
