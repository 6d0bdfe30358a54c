-- ===== src/Interpose/Inode.antt =====
-- pseudoroot/interpose/src/inode.rs: keys, the calls of `stat`, and the flags of the `*at` calls. The
-- constants of a platform stand in its Sys; those of Linux are here.
use pseudoroot.Prelude.{
  ℕ, zero, Bool, true, false, ◌&&◌, not, Option, none, some, [], ◌∷◌, bit_and, bit_or, ◌==◌,
  if◌then◌else◌,
}
use pseudoroot.Prelude.Bytes.{Bytes}
use pseudoroot.Inode.{InodeKey}
use pseudoroot.Interpose.{ℤ, pos, negsuc, Stat, StatSource, path, fd, at_fd, CStr, Sys}

-- `Result<libc::stat, i32>`
pub data StatResult : Type 0 where
  found : Stat → StatResult
  failed : ℤ → StatResult

abbrev pub at_symlink_nofollow : ℕ
at_symlink_nofollow = 0x100

abbrev pub at_empty : ℕ
at_empty = 0x1000

abbrev pub at_fdcwd : ℤ
at_fdcwd = negsuc 99

abbrev int_eq : ℤ → ℤ → Bool
int_eq (pos m) (pos n) = m == n
int_eq (negsuc m) (negsuc n) = m == n
int_eq _ _ = false

abbrev is_empty : Bytes → Bool
is_empty [] = true
is_empty (b ∷ bytes) = false

abbrev pub key_from_stat : Stat → InodeKey
key_from_stat st = (st.st_dev, st.st_ino)

-- `if rc == 0 { Ok(st) } else { Err(rc) }`
abbrev checked : ℤ × Stat → StatResult
checked (pos zero, st) = found st
checked (rc, st) = failed rc

unfoldable pub stat_at : Sys → ℤ → CStr → ℕ → StatResult
stat_at sys dirfd none flags = checked (sys.real_fstatat dirfd (some []) flags)
stat_at sys dirfd (some p) flags = checked (sys.real_fstatat dirfd (some p) flags)

unfoldable pub stat_path : Sys → CStr → StatResult
stat_path sys p = stat_at sys sys.at_fdcwd p 0

unfoldable pub lstat_path : Sys → CStr → StatResult
lstat_path sys p = stat_at sys sys.at_fdcwd p sys.at_symlink_nofollow

unfoldable pub fstat_fd : Sys → ℤ → StatResult
fstat_fd sys f = checked (sys.real_fstat f)

abbrev pub chown_stat_flags : Sys → ℕ → ℕ
chown_stat_flags sys flags =
    if not (bit_and flags sys.at_symlink_nofollow == 0) then sys.at_symlink_nofollow else 0

abbrev pub at_empty_path : Sys → ℕ → Bool
at_empty_path sys flags = not (bit_and flags sys.at_empty == 0)

-- the path as the bytes of a `PathBuf`
unfoldable pub resolve_path_at : Sys → ℤ → CStr → Option Bytes
resolve_path_at sys dirfd none = none
resolve_path_at sys dirfd (some []) = none
resolve_path_at sys dirfd (some (b ∷ p)) =
    if not (sys.is_utf8 (b ∷ p))
    then none
    else if int_eq dirfd sys.at_fdcwd
    then some (b ∷ p)
    else if b == 47
    then some (b ∷ p)
    else sys.proc_path dirfd (b ∷ p)

unfoldable pub resolve_stat_flags : Sys → ℤ → CStr → ℕ → ℕ
resolve_stat_flags sys dirfd p flags =
    let base = chown_stat_flags sys flags in
    if at_empty_path sys flags then bit_or base sys.at_empty else (elim p [
      | none ↦ base
      | some bytes ↦
          if is_empty bytes && not (int_eq dirfd sys.at_fdcwd)
          then bit_or base sys.at_empty
          else base
    ])

-- `StatSource::stat` of pseudoroot/interpose/src/ownership.rs
unfoldable pub source_stat : Sys → StatSource → StatResult
source_stat sys (path p true) = lstat_path sys p
source_stat sys (path p false) = stat_path sys p
source_stat sys (fd f) = fstat_fd sys f
source_stat sys (at_fd dirfd p flags) = stat_at sys dirfd p (resolve_stat_flags sys dirfd p flags)
