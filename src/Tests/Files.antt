-- ===== src/Tests/Files.antt =====
-- A system with one file, a library of its own on it, and one in a session.
use pseudoroot.Prelude.{◌≡◌, refl, true, false, none, some, [], ◌∷◌}
use pseudoroot.Inode.{id_unchanged}
use pseudoroot.State.{FakeRootState, get_inode}
use pseudoroot.Codec.Sample
use pseudoroot.ShmClient.{unset}
use pseudoroot.Interpose.{pos, negsuc, Stat, Statx, StatSource, path, Sys, Platform, Library}
use pseudoroot.Interpose.Inode.{
  at_fdcwd, at_symlink_nofollow, at_empty, found, source_stat, stat_path, stat_at,
}
use pseudoroot.Interpose.Serving.{Serves}
use pseudoroot.Interpose.Own.{IsOwn, own-Serves}
use pseudoroot.Interpose.Shared.{IsShared, on_map}
use pseudoroot.Tests.Samples.{dash_map, wincode}
use pseudoroot.Tests.Session.{session, capability}

-- a regular file of another user
abbrev pub file : Stat
file = record {
  st_dev = 9;
  st_ino = 42;
  st_nlink = 1;
  st_mode = 0o100644;
  st_uid = 1000;
  st_gid = 1000;
  st_rdev = 0;
}

abbrev pub filex : Statx
filex = record {
  stx_mask = 0;
  stx_ino = 42;
  stx_dev_major = 0;
  stx_dev_minor = 9;
  stx_mode = 0o100644;
  stx_uid = 1000;
  stx_gid = 1000;
  stx_rdev_major = 0;
  stx_rdev_minor = 0;
}

-- a system with this one file
abbrev pub one_file : Sys
one_file = record {
  real_stat = λ _. (pos 0, file);
  real_lstat = λ _. (pos 0, file);
  real_fstatat = λ _ _ _. (pos 0, file);
  real_fstat = λ _. (pos 0, file);
  real_statx = λ _ _ _ _. (pos 0, filex);
  real_chmod = λ _ _. negsuc 0;
  real_fchmod = λ _ _. negsuc 0;
  real_fchmodat = λ _ _ _ _. negsuc 0;
  real_mknod = λ _ _ _. negsuc 0;
  real_mknodat = λ _ _ _ _. negsuc 0;
  real_unlink = λ _. pos 0;
  real_unlinkat = λ _ _ _. pos 0;
  real_rmdir = λ _. pos 0;
  real_rename = λ _ _. pos 0;
  real_renameat = λ _ _ _ _. pos 0;
  real_renameat2 = λ _ _ _ _ _. pos 0;
  real_getxattr = λ _ _ buf _. (negsuc 0, buf);
  real_listxattr = λ _ buf _. (pos 0, buf);
  open_placeholder = λ _. true;
  is_utf8 = λ _. true;
  proc_path = λ _ p. some p;
  at_fdcwd = at_fdcwd;
  at_symlink_nofollow = at_symlink_nofollow;
  at_empty = at_empty;
  makedev = λ _ minor. minor;
  major = λ _. 0;
  minor = λ dev. dev;
}

abbrev pub platform : Platform
platform = record { sys = one_file; wincode = wincode; pages = Sample.xattrs }

abbrev pub state : FakeRootState dash_map
state = record { inode_map = λ j. some capability; current_uid = 0; current_gid = 0 }

abbrev pub lone : Library dash_map
lone = record {
  library_init = true;
  library_init_done = true;
  library_initializing = false;
  session_init = true;
  ctor_done = true;
  boot_uid = 0;
  boot_gid = 0;
  fs_uid = id_unchanged;
  fs_gid = id_unchanged;
  shm_env = unset;
  shm = record { active = false; mapped = none };
  client = record {
    enabled = false;
    connected = false;
    next_id = 1;
    up = false;
    daemon = record { state = state; stopping = false };
  };
  global = state;
}

abbrev pub in_session : Library dash_map
in_session = record lone { shm = on_map session }

pub lone-IsOwn : IsOwn lone
lone-IsOwn = record { done = refl; idle = refl; session = refl; unshared = refl; no_daemon = refl }

pub in_session-IsShared : IsShared in_session session
in_session-IsShared = record { done = refl; idle = refl; session = refl; shm = refl }

pub lone-Serves : Serves platform lone (get_inode state) 0 0
lone-Serves = own-Serves platform lone-IsOwn (get_inode state) (λ q. refl)

abbrev pub source : StatSource
source = path (some (47 ∷ [])) false

pub source_stat-file : source_stat one_file source ≡ found file
unfolding source_stat stat_path stat_at
source_stat-file = refl

pub stat_path-file : stat_path one_file (some (47 ∷ [])) ≡ found file
unfolding stat_path stat_at
stat_path-file = refl
