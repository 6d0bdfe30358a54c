-- ===== src/ShmClient.antt =====
-- pseudoroot-core/src/shm_client.rs: the process's handle on the session's shared table.
use pseudoroot.Prelude.{ℕ, Bool, true, false, Option, none, some, if◌then◌else◌, ◌>>=◌}
use pseudoroot.Inode.{InodeKey, FakeInode}
use pseudoroot.Xattrs.{Xattrs}
use pseudoroot.Codec.{Codec}
use pseudoroot.Shm.Table.{ShmInodeMap}
use pseudoroot.Shm.Map.{
  ok, err, Inherited, current_uid, current_gid, set_current, from_fd, get_inode, upsert_chown,
  upsert_inode, remove_inode,
}

pub record ShmClient : Type 0 where
  -- `SHM_ACTIVE`
  pub active : Bool
  -- `SHM_MAP`, whose memory this process shares
  pub mapped : Option ShmInodeMap

-- `PSEUDOROOT_SHM_FD`: not set, not a number, or a descriptor and what `from_fd` meets behind it
pub data ShmEnv : Type 0 where
  unset not_a_number : ShmEnv
  inherited : Inherited → ShmEnv

abbrev pub shm_mode_active : ShmClient → Bool
shm_mode_active c = c.active

-- `OnceLock::set`: the first value stays
abbrev set_once : Option ShmInodeMap → ShmInodeMap → Option ShmInodeMap
set_once none m = some m
set_once (some old) m = some old

unfoldable pub init_shm_from_env : ShmEnv → ShmClient → ShmClient × Bool
init_shm_from_env env c = if c.active then (c, true) else (elim env [
  | unset ↦ (c, false)
  | not_a_number ↦ (c, false)
  | inherited i ↦ elim (from_fd i) [
    | ok m ↦ (record { active = true; mapped = set_once c.mapped m }, true)
    | err e ↦ (c, false)
  ]
])

-- `map`
abbrev pub shm_map : ShmClient → Option ShmInodeMap
shm_map c = if shm_mode_active c then c.mapped else none

-- a method that writes to the mapping, if there is one
abbrev with_map : (ShmInodeMap → ShmInodeMap) → ShmClient → ShmClient
with_map f c = elim (shm_map c) [ none ↦ c | some m ↦ record c { mapped = some (f m) } ]

unfoldable pub shm_get_current_uid_gid : ShmClient → Option (ℕ × ℕ)
shm_get_current_uid_gid c = shm_map c >>= λ m. some (current_uid m, current_gid m)

unfoldable pub shm_set_current_uid_gid : ℕ → ℕ → ShmClient → ShmClient
shm_set_current_uid_gid uid gid c = with_map (λ m. set_current m uid gid) c

module _ (wincode : Codec Xattrs) where
  unfoldable pub shm_get_inode : InodeKey → ShmClient → Option FakeInode
  shm_get_inode key c = shm_map c >>= λ m. get_inode wincode m key

  unfoldable pub shm_upsert_chown : InodeKey → ℕ → ℕ → ℕ → ℕ → ShmClient → ShmClient
  shm_upsert_chown key uid gid default_uid default_gid c =
      with_map (λ m. upsert_chown wincode m key uid gid default_uid default_gid) c

  unfoldable pub shm_upsert_inode : InodeKey → FakeInode → ShmClient → ShmClient
  shm_upsert_inode key inode c = with_map (λ m. upsert_inode wincode m key inode) c

  unfoldable pub shm_remove_inode : InodeKey → ShmClient → ShmClient × Bool
  shm_remove_inode key c = elim (shm_map c) [
    | none ↦ (c, false)
    | some m ↦ let r = remove_inode wincode m key in (record c { mapped = some r.0 }, r.1)
  ]
