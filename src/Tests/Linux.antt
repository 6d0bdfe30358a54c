-- ===== src/Tests/Linux.antt =====
-- The theorems on the calls that leave the library on Linux, at concrete inputs.
use pseudoroot.Prelude.{◌≡◌, refl, true, false, none, some, [], ◌∷◌, unwrap_or}
use pseudoroot.Inode.{new}
use pseudoroot.Codec.Sample
use pseudoroot.Shm.Map
use pseudoroot.Interpose.{pos, negsuc, Library}
use pseudoroot.Interpose.Hooks.{lchown, lstat}
use pseudoroot.Interpose.Calls.{owned}
use pseudoroot.Interpose.Linux.{Kernel, Next, Std}
use pseudoroot.Interpose.Links.{on_linux, lchown-lstat_linux}
use pseudoroot.Interpose.Bootstrap.{unlink_resolved, IsEarly, unlink_resolved-loops}
use pseudoroot.Tests.Samples.{dash_map}
use pseudoroot.Tests.Session.{session, session-IsValid, session-room, key}
use pseudoroot.Tests.Files.{file, filex, platform, lone, in_session, in_session-IsShared}

-- a kernel with one file
abbrev kernel : Kernel
kernel = record {
  sys_newfstatat = λ _ _ _. (pos 0, file);
  sys_fstat = λ _. (pos 0, file);
  sys_statx = λ _ _ _ _. (pos 0, filex);
  sys_fchmodat = λ _ _ _ _. pos 0;
  sys_fchmod = λ _ _. pos 0;
}

abbrev next : Next
next = record {
  unlink = λ _. pos 0;
  unlinkat = λ _ _ _. pos 0;
  rmdir = λ _. pos 0;
  rename = λ _ _. pos 0;
  renameat = λ _ _ _ _. pos 0;
  renameat2 = λ _ _ _ _ _. pos 0;
  mknod = λ _ _ _. negsuc 0;
  mknodat = λ _ _ _ _. negsuc 0;
  getxattr = λ _ _ value _. (negsuc 0, value);
  lgetxattr = λ _ _ value _. (negsuc 0, value);
  fgetxattr = λ _ _ value _. (negsuc 0, value);
  listxattr = λ _ list _. (pos 0, list);
  llistxattr = λ _ list _. (pos 0, list);
  flistxattr = λ _ list _. (pos 0, list);
}

abbrev pub std : Std
std = record {
  open_placeholder = λ _. true;
  is_utf8 = λ _. true;
  proc_path = λ _ p. p;
  makedev = λ _ minor. minor;
  major = λ _. 0;
  minor = λ dev. dev;
}

lchown-lstat_linux_example :
    ((lchown (on_linux platform kernel next std) (some (47 ∷ [])) 7 8 in_session).1 ≡ pos 0)
    × (lstat
          (on_linux platform kernel next std)
          (some (47 ∷ []))
          (lchown (on_linux platform kernel next std) (some (47 ∷ [])) 7 8 in_session).0
        ≡ (
          (lchown (on_linux platform kernel next std) (some (47 ∷ [])) 7 8 in_session).0,
          (
            pos 0,
            owned
                (unwrap_or
                  (Map.get_inode Sample.xattrs session key)
                  (new session.header.current_uid session.header.current_gid))
                7
                8
                file,
          ),
        ))
lchown-lstat_linux_example =
    lchown-lstat_linux platform kernel next std (47 ∷ []) file in_session-IsShared session-IsValid
      session-room 7 8 refl

-- the library when its constructor has run and none of its hooks
abbrev fresh : Library dash_map
fresh = record lone { library_init = false; library_init_done = false }

-- the library before its constructor has run
abbrev early : Library dash_map
early = record fresh { ctor_done = false }

early-IsEarly : IsEarly platform early
early-IsEarly = record { pending = refl; unbuilt = refl }

unlink_resolved-loops_example :
    unlink_resolved platform 9 platform.sys.real_unlink (some (47 ∷ [])) early ≡ none
unlink_resolved-loops_example =
    unlink_resolved-loops platform 9 platform.sys.real_unlink (some (47 ∷ [])) early-IsEarly
