-- ===== src/Interpose/Xattr/Exact.antt =====
-- An attribute that is set in a session and read into a buffer that has room for it.
use pseudoroot.Prelude.{
  ℕ, ◌<◌, ◌≤◌, ◌≡◌, ◌≢◌, ◌++◌, some, length, drop, take-append, arith, le→leb, unwrap_or, List,
}
use pseudoroot.Prelude.Bytes.{Bytes}
use pseudoroot.Xattrs
use pseudoroot.Inode.{new}
use pseudoroot.State.{DashMap}
use pseudoroot.Shm.Table.{ShmInodeMap, full, probe}
use pseudoroot.Shm.Page.{kept}
use pseudoroot.Shm.Map
use pseudoroot.Shm.Valid.{IsValid}
use pseudoroot.Interpose.{pos, Stat, StatSource, CStr, Platform, Library}
use pseudoroot.Interpose.Inode.{found, key_from_stat, source_stat}
use pseudoroot.Interpose.Xattr.{
  read_cstr, read_xattr_value, write_xattr_value, fake_setxattr, fake_getxattr,
}
use pseudoroot.Interpose.Xattr.Session.{fake_setxattr-fake_getxattr_shared}
use pseudoroot.Interpose.Shared.{IsShared}

read_xattr_value-exact :
    (v rest : Bytes) → length v ≤ 65536 → read_xattr_value (some (v ++ rest)) (length v) ≡ v
unfolding read_xattr_value
read_xattr_value-exact v rest small = rw (le→leb (length v) 65536 small) (take-append v rest)

write_xattr_value-exact :
    (v memory : Bytes) (size : ℕ)
    → length v ≤ 65536
    → length v ≤ size
    → 0 < size
    → write_xattr_value v (some memory) size ≡ (pos (length v), some (v ++ drop (length v) memory))
unfolding write_xattr_value
write_xattr_value-exact v memory size small inside some_room = ground arith

module _ (p : Platform) {D : DashMap} {l : Library D} {m : ShmInodeMap} (shared : IsShared l m)
    (valid : IsValid m) (source : StatSource) (name : CStr) (st : Stat) (name_key : Bytes)
    (stats : source_stat p.sys source ≡ found st) (utf8 : read_cstr p.sys name ≡ some name_key)
    (room : probe m (key_from_stat st) ≢ full) where
  abbrev pub with_value : Bytes → List (Bytes × Bytes)
  with_value v =
      Xattrs.insert name_key v
        (unwrap_or (Map.get_inode p.pages m (key_from_stat st))
          (new m.header.current_uid m.header.current_gid)).xattrs

  -- For a library in a session whose table is valid and not full for the file, a source that stat
  -- finds, a name that is UTF-8, and a value of at most 64 KiB that fits in a page together with
  -- the other attributes, fake_setxattr returns 0, and a later fake_getxattr into a buffer that
  -- has room for the value returns its length, and the buffer with the value at its front.
  pub setxattr-getxattr_session :
      (v rest memory : Bytes) (size : ℕ)
      → length v ≤ 65536
      → length v ≤ size
      → 0 < size
      → size ≤ length memory
      → kept p.pages (with_value v) ≡ with_value v
      → ((fake_setxattr p source name (some (v ++ rest)) (length v) l).1 ≡ pos 0)
        × (fake_getxattr p source name
              (some memory)
              size
              (fake_setxattr p source name (some (v ++ rest)) (length v) l).0
            ≡ (
              (fake_setxattr p source name (some (v ++ rest)) (length v) l).0,
              (pos (length v), some (v ++ drop (length v) memory)),
            ))
  setxattr-getxattr_session v rest memory size small inside some_room within fit =
      let value = read_xattr_value-exact v rest small in
      let back = write_xattr_value-exact v memory size small inside some_room in
      let fits : kept p.pages (with_value (read_xattr_value (some (v ++ rest)) (length v)))
          ≡ with_value (read_xattr_value (some (v ++ rest)) (length v)) =
        rw value fit in
      rw (value, back) at
        (fake_setxattr-fake_getxattr_shared p shared valid source name (some (v ++ rest)) (length v)
          st name_key stats utf8 room (some memory) size fits)
