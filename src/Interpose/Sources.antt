-- ===== src/Interpose/Sources.antt =====
-- pseudoroot/interpose/src/ownership.rs: what the hooks call, by the kind of the source: a path, a file
-- descriptor, or a path below a descriptor.
use pseudoroot.Prelude.{ℕ, Bool, false}
use pseudoroot.State.{DashMap}
use pseudoroot.Interpose.{ℤ, path, fd, at_fd, CStr, Buffer, Platform, Library}
use pseudoroot.Interpose.Files.{record_chown, record_chmod}
use pseudoroot.Interpose.Xattr.{fake_setxattr, fake_getxattr, fake_listxattr, fake_removexattr}

module _ (p : Platform) {D : DashMap} where
  abbrev pub record_chown_at : ℤ → CStr → ℕ → ℕ → ℕ → Library D → Library D × ℤ
  record_chown_at dirfd name at_flags uid gid l =
      record_chown p (at_fd dirfd name at_flags) uid gid l

  abbrev pub record_chown_path : CStr → Bool → ℕ → ℕ → Library D → Library D × ℤ
  record_chown_path name nofollow uid gid l = record_chown p (path name nofollow) uid gid l

  abbrev pub record_chown_fd : ℤ → ℕ → ℕ → Library D → Library D × ℤ
  record_chown_fd f uid gid l = record_chown p (fd f) uid gid l

  abbrev pub record_chmod_path : CStr → ℕ → Library D → Library D × ℤ
  record_chmod_path name mode l = record_chmod p (path name false) mode l

  abbrev pub record_chmod_fd : ℤ → ℕ → Library D → Library D × ℤ
  record_chmod_fd f mode l = record_chmod p (fd f) mode l

  abbrev pub record_chmod_at : ℤ → CStr → ℕ → ℕ → Library D → Library D × ℤ
  record_chmod_at dirfd name mode at_flags l = record_chmod p (at_fd dirfd name at_flags) mode l

  abbrev pub fake_setxattr_path : CStr → CStr → Buffer → ℕ → Bool → Library D → Library D × ℤ
  fake_setxattr_path name attribute value size nofollow l =
      fake_setxattr p (path name nofollow) attribute value size l

  abbrev pub fake_setxattr_fd : ℤ → CStr → Buffer → ℕ → Library D → Library D × ℤ
  fake_setxattr_fd f attribute value size l = fake_setxattr p (fd f) attribute value size l

  abbrev pub fake_getxattr_path :
      CStr → CStr → Buffer → ℕ → Bool → Library D → Library D × (ℤ × Buffer)
  fake_getxattr_path name attribute value size nofollow l =
      fake_getxattr p (path name nofollow) attribute value size l

  abbrev pub fake_getxattr_fd : ℤ → CStr → Buffer → ℕ → Library D → Library D × (ℤ × Buffer)
  fake_getxattr_fd f attribute value size l = fake_getxattr p (fd f) attribute value size l

  abbrev pub fake_listxattr_path : CStr → Buffer → ℕ → Bool → Library D → Library D × (ℤ × Buffer)
  fake_listxattr_path name list size nofollow l = fake_listxattr p (path name nofollow) list size l

  abbrev pub fake_listxattr_fd : ℤ → Buffer → ℕ → Library D → Library D × (ℤ × Buffer)
  fake_listxattr_fd f list size l = fake_listxattr p (fd f) list size l

  abbrev pub fake_removexattr_path : CStr → CStr → Bool → Library D → Library D × ℤ
  fake_removexattr_path name attribute nofollow l =
      fake_removexattr p (path name nofollow) attribute l

  abbrev pub fake_removexattr_fd : ℤ → CStr → Library D → Library D × ℤ
  fake_removexattr_fd f attribute l = fake_removexattr p (fd f) attribute l
