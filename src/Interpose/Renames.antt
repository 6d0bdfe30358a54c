-- ===== src/Interpose/Renames.antt =====
-- What a rename makes of the entries: that of the file whose last name is overwritten is dropped.
use pseudoroot.Prelude.{◌≡◌, refl, if◌then◌else◌, leb, Bool-cases, inl, inr}
use pseudoroot.Inode.{key_eq, delete}
use pseudoroot.State.{DashMap}
use pseudoroot.Shm.Table.{ShmInodeMap}
use pseudoroot.Shm.Map
use pseudoroot.Shm.Valid.{IsValid}
use pseudoroot.Interpose.{ℤ, Stat, CStr, Platform, Library}
use pseudoroot.Interpose.Inode.{found, key_from_stat, stat_at}
use pseudoroot.Interpose.Files.{maybe_remove_inode, prepare_rename_overwrite}
use pseudoroot.Interpose.Hooks.{renameat}
use pseudoroot.Interpose.Serving.{Serves}
use pseudoroot.Interpose.Shared.{IsShared, here}
use pseudoroot.Interpose.Shared.Changes.{remove_inode-Serves}

module _ (p : Platform) {D : DashMap} {l : Library D} {m : ShmInodeMap} (shared : IsShared l m)
    (valid : IsValid m) where
  -- For a library in a session whose table is valid, and two paths that stat finds, renameat
  -- returns what the real renameat returns, and the library then serves the table without the
  -- entry of the file at the new path, if that is another file than the one at the old path and
  -- has one link at most, and the table as it was otherwise.
  pub renameat-shared :
      (olddirfd newdirfd : ℤ) (oldpath newpath : CStr) (old_st new_st : Stat)
      → stat_at p.sys olddirfd oldpath 0 ≡ found old_st
      → stat_at p.sys newdirfd newpath 0 ≡ found new_st
      → ((renameat p olddirfd oldpath newdirfd newpath l).1
          ≡ p.sys.real_renameat olddirfd oldpath newdirfd newpath)
        × Serves p
            (renameat p olddirfd oldpath newdirfd newpath l).0
            (if key_eq (key_from_stat new_st) (key_from_stat old_st)
              then Map.get_inode p.pages m
              else if leb new_st.st_nlink 1
              then delete (key_from_stat new_st) (Map.get_inode p.pages m)
              else Map.get_inode p.pages m)
            m.header.current_uid
            m.header.current_gid
  unfolding renameat prepare_rename_overwrite maybe_remove_inode
  renameat-shared olddirfd newdirfd oldpath newpath old_st new_st old_stats new_stats =
      let ready = (here p shared).ready in
      elim (Bool-cases (key_eq (key_from_stat new_st) (key_from_stat old_st))) [
        | inl same ↦
            (refl, rw (new_stats, prepare_rename_overwrite, old_stats, same, ready) (here p shared))
        | inr other ↦ elim (Bool-cases (leb new_st.st_nlink 1)) [
          | inl last ↦ (
            refl,
            rw (new_stats, prepare_rename_overwrite, old_stats, other, last, ready)
                (remove_inode-Serves p shared valid (key_from_stat new_st)),
          )
          | inr more ↦ (
            refl,
            rw (new_stats, prepare_rename_overwrite, old_stats, other, more, ready) (here p shared),
          )
        ]
      ]
