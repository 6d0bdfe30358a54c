-- ===== src/Supervisor/Preloaded.antt =====
-- What the preloaded library and the default ids change in the environment of a command.
use pseudoroot.Prelude.{
  false, ◌≡◌, ◌≢◌, refl, ◌∙◌, Option, none, some, [], ◌∷◌, unwrap_or, sym, ap, Bool-cases, inl, inr,
}
use pseudoroot.Prelude.Bytes.{Bytes, codes, bytes_eq}
use pseudoroot.Supervisor.Command.{Command, overridden, child_env, env_in_command}
use pseudoroot.Supervisor.Overrides.{IsMap, joined, find_set-joined}
use pseudoroot.Supervisor.Process.{Process, uid_env, gid_env}
use pseudoroot.Supervisor.Preload.{
  ensure_default_env, apply_preload, preload_var, preload_value, merged_preload,
}
use pseudoroot.Supervisor.Environment.{
  IsKept, Ensured, pick, child_env-pick, Ensured-other, set_env_self, set_env_other,
  ensure_default_env-Ensured,
}

-- What the preloaded library and the default ids leave of a command.
pub record Preloaded (p : Process) (cmd : Command) (lib_path : Bytes) (after : Command)
    : Type 0 where
  pub program : after.program ≡ cmd.program
  pub args : after.args ≡ cmd.args
  pub current_dir : after.current_dir ≡ cmd.current_dir
  pub cleared : after.cleared ≡ cmd.cleared
  pub preload :
      child_env p.env after (preload_var p)
      ≡ some (preload_value (child_env p.env cmd (preload_var p)) lib_path)
  pub uid :
      child_env p.env after uid_env ≡ some (unwrap_or (child_env p.env cmd uid_env) (b'0' ∷ []))
  pub gid :
      child_env p.env after gid_env ≡ some (unwrap_or (child_env p.env cmd gid_env) (b'0' ∷ []))
  pub other :
      (q : Bytes)
      → bytes_eq uid_env q ≡ false
      → bytes_eq gid_env q ≡ false
      → bytes_eq (preload_var p) q ≡ false
      → child_env p.env after q ≡ child_env p.env cmd q

preload-found :
    (o : Option (Option Bytes)) (own : Option Bytes) (lib_path : Bytes)
    → o ≢ some none
    → (elim (joined o) [
      | some existing ↦ preload_value (some existing) lib_path
      | none ↦ preload_value own lib_path
    ])
      ≡ preload_value (pick o own) lib_path
preload-found none own lib_path kept = refl
preload-found (some none) own lib_path kept = absurd (kept refl)
preload-found (some (some value)) own lib_path kept = refl

merged_preload-found :
    (p : Process) (cmd : Command) (lib_path : Bytes)
    → IsMap cmd.envs
    → cmd.cleared ≡ false
    → IsKept (preload_var p) cmd
    → merged_preload p cmd lib_path ≡ preload_value (child_env p.env cmd (preload_var p)) lib_path
unfolding merged_preload env_in_command
merged_preload-found p cmd lib_path h inherits kept =
    let var = preload_var p in
    rw (merged_preload, find_set-joined var cmd.envs h, child_env-pick p.env cmd var inherits)
      (preload-found (overridden var cmd.envs) (p.env var) lib_path kept)

bytes_eq_preload :
    (p : Process) (key : Bytes)
    → bytes_eq key (codes "LD_PRELOAD") ≡ false
    → bytes_eq key (codes "DYLD_INSERT_LIBRARIES") ≡ false
    → bytes_eq key (preload_var p) ≡ false
bytes_eq_preload p key linux macos = elim (Bool-cases p.macos) [
  | inl e ↦ rw e macos
  | inr e ↦ rw e linux
]

pub preload_var-other :
    (p : Process) (q : Bytes)
    → bytes_eq (codes "LD_PRELOAD") q ≡ false
    → bytes_eq (codes "DYLD_INSERT_LIBRARIES") q ≡ false
    → bytes_eq (preload_var p) q ≡ false
preload_var-other p q linux macos = elim (Bool-cases p.macos) [
  | inl e ↦ rw e macos
  | inr e ↦ rw e linux
]

-- For a command without env_clear that has one entry for a key and removes neither the preload
-- variable nor an id, apply_preload keeps the program, the arguments and the directory, puts the
-- library behind what is preloaded already, sets an id that is not set to 0, and keeps every
-- other variable.
pub apply_preload-Preloaded :
    (p : Process) (cmd : Command) (lib_path : Bytes)
    → IsMap cmd.envs
    → cmd.cleared ≡ false
    → IsKept (preload_var p) cmd
    → IsKept uid_env cmd
    → IsKept gid_env cmd
    → Preloaded p cmd lib_path (apply_preload p cmd lib_path)
unfolding apply_preload
apply_preload-Preloaded p cmd lib_path h inherits kept kept_uid kept_gid =
    let with_uid : Command = ensure_default_env p cmd uid_env (b'0' ∷ []) in
    let u : Ensured p cmd uid_env (b'0' ∷ []) with_uid =
      ensure_default_env-Ensured p cmd uid_env (b'0' ∷ []) h in
    let with_ids : Command = ensure_default_env p with_uid gid_env (b'0' ∷ []) in
    let g : Ensured p with_uid gid_env (b'0' ∷ []) with_ids =
      ensure_default_env-Ensured p with_uid gid_env (b'0' ∷ []) u.map in
    let var = preload_var p in
    let found : overridden var with_ids.envs ≡ overridden var cmd.envs =
      g.other var (bytes_eq_preload p gid_env refl refl)
      ∙ u.other var (bytes_eq_preload p uid_env refl refl) in
    record {
      program = g.program ∙ u.program;
      args = g.args ∙ u.args;
      current_dir = g.current_dir ∙ u.current_dir;
      cleared = g.cleared ∙ u.cleared;
      preload =
          set_env_self p.env with_ids var (merged_preload p with_ids lib_path)
          ∙ ap some (
              merged_preload-found p with_ids lib_path g.map (g.cleared ∙ u.cleared ∙ inherits)
                (λ e. kept (sym found ∙ e))
              ∙ rw (
                child_env-pick p.env with_ids var (g.cleared ∙ u.cleared ∙ inherits),
                child_env-pick p.env cmd var inherits,
                found,
              ));
      uid =
          set_env_other p.env with_ids var (merged_preload p with_ids lib_path) uid_env
            (preload_var-other p uid_env refl refl)
          ∙ Ensured-other p with_uid with_ids gid_env (b'0' ∷ []) g (u.cleared ∙ inherits) uid_env
              refl
          ∙ u.self kept_uid inherits;
      gid =
          set_env_other p.env with_ids var (merged_preload p with_ids lib_path) gid_env
            (preload_var-other p gid_env refl refl)
          ∙ g.self (λ e. kept_gid (sym (u.other gid_env refl) ∙ e)) (u.cleared ∙ inherits)
          ∙ rw (Ensured-other p cmd with_uid uid_env (b'0' ∷ []) u inherits gid_env refl);
      other = λ q nu ng np.
          set_env_other p.env with_ids var (merged_preload p with_ids lib_path) q np
          ∙ Ensured-other p with_uid with_ids gid_env (b'0' ∷ []) g (u.cleared ∙ inherits) q ng
          ∙ Ensured-other p cmd with_uid uid_env (b'0' ∷ []) u inherits q nu;
    }

pub Preloaded-outside :
    (p : Process) (cmd : Command) (lib_path : Bytes) (after : Command)
    → cmd.cleared ≡ false
    → Preloaded p cmd lib_path after
    → (q : Bytes) → bytes_eq uid_env q ≡ false
    → bytes_eq gid_env q ≡ false
    → bytes_eq (preload_var p) q ≡ false
    → child_env p.env after q ≡ pick (overridden q cmd.envs) (p.env q)
Preloaded-outside p cmd lib_path after inherits pre q nu ng np =
    pre.other q nu ng np ∙ child_env-pick p.env cmd q inherits
