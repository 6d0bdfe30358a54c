-- ===== src/Tests/Interpose.antt =====
-- The theorems on the preloaded library at concrete inputs: a library of its own and one in a session.
use pseudoroot.Prelude.{◌≡◌, refl, none, some, [], ◌∷◌, ◌||◌, arith, length, drop, leb→le}
use pseudoroot.Prelude.Bytes.{Bytes}
use pseudoroot.Inode.{delete}
use pseudoroot.Codec.Sample
use pseudoroot.Shm.Map
use pseudoroot.Interpose.{ℤ, pos, Stat, CStr, Platform, Library}
use pseudoroot.Interpose.Xattr.{
  write_xattr_value, non_empty, split_names, merge_xattr_lists, contains,
}
use pseudoroot.Interpose.Xattr.Names.{contains-merge_xattr_lists}
use pseudoroot.Interpose.Xattr.Buffers.{write_xattr_value-inside}
use pseudoroot.Interpose.Serving.{Serves}
use pseudoroot.Interpose.Hooks.{renameat, setuid, getuid, getgid}
use pseudoroot.Interpose.Identity.{setuid-getuid_session}
use pseudoroot.Interpose.Renames.{renameat-shared}
use pseudoroot.Interpose.Inode.{stat_at}
use pseudoroot.Tests.Samples.{dash_map}
use pseudoroot.Interpose.Files.{modify_stat_buf}
use pseudoroot.Tests.Session.{session, session-IsNew, session-IsValid, key}
use pseudoroot.Tests.Files.{file, one_file, platform, in_session, in_session-IsShared}

contains-merge_xattr_lists_example :
    contains (non_empty (split_names (merge_xattr_lists (7 ∷ 0 ∷ []) ((8 ∷ 9 ∷ []) ∷ [])))) (7 ∷ [])
    ≡ (contains (non_empty (split_names (7 ∷ 0 ∷ []))) (7 ∷ [])
        || contains ((8 ∷ 9 ∷ []) ∷ []) (7 ∷ []))
contains-merge_xattr_lists_example =
    contains-merge_xattr_lists (7 ∷ 0 ∷ []) ((8 ∷ 9 ∷ []) ∷ []) (7 ∷ [])
      ((λ e. omega arith, (λ e. omega arith, tt)), tt)

write_xattr_value-inside_example :
    (after : Bytes) × ((write_xattr_value (1 ∷ 2 ∷ []) (some (5 ∷ 6 ∷ 7 ∷ [])) 2).1 ≡ some after)
    × (length after ≡ 3)
    × (drop 2 after ≡ 7 ∷ [])
write_xattr_value-inside_example =
    write_xattr_value-inside (1 ∷ 2 ∷ []) (5 ∷ 6 ∷ 7 ∷ []) 2 (leb→le _ _ refl)

-- a system where the empty path names another file
abbrev named : CStr → ℤ × Stat
named none = (pos 0, file)
named (some []) = (pos 0, record file { st_ino = 43 })
named (some (c ∷ cs)) = (pos 0, file)

abbrev two_files : Platform
two_files = record platform { sys = record one_file { real_fstatat = λ d q flags. named q } }

renameat-shared_example :
    ((renameat two_files (pos 3) (some []) (pos 4) (some (47 ∷ [])) in_session).1 ≡ pos 0)
    × Serves two_files
        (renameat two_files (pos 3) (some []) (pos 4) (some (47 ∷ [])) in_session).0
        (delete key (Map.get_inode Sample.xattrs session))
        session.header.current_uid
        session.header.current_gid
unfolding stat_at
renameat-shared_example =
    renameat-shared two_files in_session-IsShared session-IsValid (pos 3) (pos 4) (some [])
      (some (47 ∷ [])) (record file { st_ino = 43 }) file refl refl

abbrev second : Library dash_map
second = record in_session { shm = (setuid platform 7 in_session).0.shm }

setuid-getuid_session_example :
    ((setuid platform 7 in_session).1 ≡ pos 0)
    × (getuid platform second ≡ (second, 7))
    × (getgid platform second ≡ (second, session.header.current_gid))
    × (modify_stat_buf platform file second ≡ (second, record file { st_uid = 0; st_gid = 0 }))
setuid-getuid_session_example =
    setuid-getuid_session platform 7 in_session-IsShared in_session-IsShared file
      (session-IsNew.models.1 key)
