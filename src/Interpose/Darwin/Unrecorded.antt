-- ===== src/Interpose/Darwin/Unrecorded.antt =====
-- An attribute on Darwin that nothing is recorded of.
use pseudoroot.Prelude.{ℕ, ◌≡◌, refl, Bool, true, false, none, some, if◌then◌else◌, ◌>>=◌}
use pseudoroot.Prelude.Bytes.{Bytes}
use pseudoroot.Xattrs
use pseudoroot.Inode.{Table}
use pseudoroot.State.{DashMap}
use pseudoroot.Interpose.{pos, negsuc, Stat, path, CStr, Buffer, Platform, Library}
use pseudoroot.Interpose.Inode.{found, key_from_stat, source_stat, stat_path, lstat_path, stat_at}
use pseudoroot.Interpose.Xattr.{read_cstr}
use pseudoroot.Interpose.Serving.{Serves, fake_getxattr-unrecorded}
use pseudoroot.Interpose.Modes.{on_sys, Serves-on_sys}
use pseudoroot.Interpose.Linux.{Std, real_getxattr_for}
use pseudoroot.Interpose.Darwin.Wrappers.{
  Libc, Absent, xattr_nofollow, narrow, narrowed, real_getxattr, real_lgetxattr, real_fstatat,
  getxattr_impl, wrappers, darwin,
}
use pseudoroot.Interpose.Darwin.{nofollow, getxattr}

-- the platform on Darwin
abbrev pub on_darwin : Platform → Libc → Absent → Std → Platform
on_darwin p c absent s = on_sys p (darwin c absent s)

-- the options that libSystem is called with
abbrev pub follow_options : Bool → ℕ
follow_options only_link = if only_link then xattr_nofollow else 0

-- the flags that fstatat is called with
abbrev pub stat_flags : Bool → ℕ
stat_flags only_link = if only_link then 0x20 else 0

module _ (p : Platform) (c : Libc) (absent : Absent) (s : Std) where
  real-follow_options :
      (name attribute : CStr) (value : Buffer) (size : ℕ) (only_link : Bool)
      → (darwin c absent s).real_getxattr (path name only_link) attribute value size
        ≡ narrowed (c.getxattr name attribute value size 0 (follow_options only_link))
  unfolding darwin wrappers real_getxattr_for real_getxattr real_lgetxattr getxattr_impl narrow
  real-follow_options name attribute value size true = refl
  real-follow_options name attribute value size false = refl

  source_stat-darwin :
      (name : Bytes) (st : Stat) (only_link : Bool)
      → c.fstatat (negsuc 1) (some name) (stat_flags only_link) ≡ (pos 0, st)
      → source_stat (darwin c absent s) (path (some name) only_link) ≡ found st
  unfolding darwin source_stat stat_path lstat_path stat_at real_fstatat
  source_stat-darwin name st true stats = rw stats refl
  source_stat-darwin name st false stats = rw stats refl

  -- On Darwin, for a library that serves a table, a path that fstatat finds from AT_FDCWD, with
  -- AT_SYMLINK_NOFOLLOW where the options say so, and a name that is UTF-8 and that the entry of
  -- the file, if there is one, has no attribute of, getxattr changes no state and answers as
  -- libSystem does at position 0 with that bit of the options alone, and -1 where the answer is
  -- no number of 32 bits.
  pub getxattr-unrecorded :
      {D : DashMap} {l : Library D} {t : Table} {uid gid : ℕ} (name : Bytes) (attribute : CStr)
      (value : Buffer) (size position options : ℕ) (st : Stat) (key_name : Bytes)
      → Serves p l t uid gid
      → c.fstatat (negsuc 1) (some name) (stat_flags (nofollow options)) ≡ (pos 0, st)
      → read_cstr (darwin c absent s) attribute ≡ some key_name
      → (t (key_from_stat st) >>= λ inode. Xattrs.get key_name inode.xattrs) ≡ none
      → getxattr (on_darwin p c absent s) (some name) attribute value size position options l ≡ (
        l,
        narrowed
            (c.getxattr (some name) attribute value size 0 (follow_options (nofollow options))),
      )
  unfolding getxattr
  getxattr-unrecorded name attribute value size position options st key_name serves stats utf8
        lacks =
      rw (← real-follow_options (some name) attribute value size (nofollow options)) (
        fake_getxattr-unrecorded (on_darwin p c absent s)
          (Serves-on_sys p (darwin c absent s) serves) (path (some name) (nofollow options))
          attribute value size st key_name (source_stat-darwin name st (nofollow options) stats)
          utf8 lacks)
