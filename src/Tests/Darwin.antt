-- ===== src/Tests/Darwin.antt =====
-- The theorem on the calls that leave the library on Darwin, at a concrete input.
use pseudoroot.Prelude.{◌≡◌, refl, none, some, [], ◌∷◌, ◌+◌}
use pseudoroot.Xattrs.{get}
use pseudoroot.State.{get_inode}
use pseudoroot.Interpose.{pos, negsuc, CStr}
use pseudoroot.Interpose.Inode.{lstat_path, stat_at, source_stat}
use pseudoroot.Interpose.Xattr.{read_cstr}
use pseudoroot.Interpose.Darwin.{nofollow, getxattr}
use pseudoroot.Interpose.Darwin.Wrappers.{Libc, Absent, narrow, real_fstatat, darwin}
use pseudoroot.Interpose.Darwin.Unrecorded.{on_darwin, getxattr-unrecorded}
use pseudoroot.Tests.Files.{file, filex, platform, lone, lone-Serves}
use pseudoroot.Tests.Linux.{std}

-- a system with one file, whose attributes of a link have 3 bytes and others more than fits in i32
abbrev libc : Libc
libc = record {
  stat = λ _. (pos 0, file);
  fstat = λ _. (pos 0, file);
  lstat = λ _. (pos 0, file);
  fstatat = λ _ _ _. (pos 0, file);
  chmod = λ _ _. pos 0;
  fchmod = λ _ _. pos 0;
  fchmodat = λ _ _ _ _. pos 0;
  unlink = λ _. pos 0;
  unlinkat = λ _ _ _. pos 0;
  rmdir = λ _. pos 0;
  rename = λ _ _. pos 0;
  renameat = λ _ _ _ _. pos 0;
  mknod = λ _ _ _. negsuc 0;
  mknodat = λ _ _ _ _. negsuc 0;
  getxattr = λ _ _ value _ _ options. (pos (options + 2), value);
  fgetxattr = λ _ _ value _ _ _. (pos 0x80000000, value);
  listxattr = λ _ list _ _. (pos 0, list);
  flistxattr = λ _ list _ _. (pos 0, list);
}

abbrev absent : Absent
absent = record { renameat2 = λ _ _ _ _ _. negsuc 0; statx = λ _ _ _ _. (negsuc 0, filex) }

abbrev user : CStr
user = some (b'u' ∷ [])

getxattr-unrecorded_example :
    getxattr (on_darwin platform libc absent std) (some (47 ∷ [])) user none 0 5 0x21 lone
    ≡ (lone, (pos 3, none))
unfolding get_inode read_cstr darwin source_stat lstat_path stat_at real_fstatat nofollow narrow get
getxattr-unrecorded_example =
    getxattr-unrecorded platform libc absent std (47 ∷ []) user none 0 5 0x21 file (b'u' ∷ [])
      lone-Serves refl refl refl
