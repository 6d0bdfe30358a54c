-- ===== src/Interpose/Xattr/Session.antt =====
-- An attribute that is set and then read in a session, whose table has a page of fixed size for the
-- attributes of a file.
use pseudoroot.Prelude.{ℕ, ◌≡◌, ◌≢◌, refl, [], some, unwrap_or}
use pseudoroot.Prelude.Bytes.{Bytes, bytes_eq_refl}
use pseudoroot.Xattrs
use pseudoroot.Xattrs.{Xattrs, get-insert}
use pseudoroot.Inode.{FakeInode, new, put, key_eq_refl}
use pseudoroot.State.{DashMap}
use pseudoroot.Shm.Table.{ShmInodeMap, full, probe}
use pseudoroot.Shm.Page.{kept}
use pseudoroot.Shm.Map
use pseudoroot.Shm.Valid.{IsValid}
use pseudoroot.Shm.Refinement.{stored}
use pseudoroot.Interpose.{pos, Stat, StatSource, CStr, Buffer, Platform, Library}
use pseudoroot.Interpose.Inode.{found, key_from_stat, source_stat}
use pseudoroot.Interpose.Backend.{set_inode}
use pseudoroot.Interpose.Xattr.{
  read_cstr, read_xattr_value, write_xattr_value, source_inode, fake_setxattr, fake_getxattr,
}
use pseudoroot.Interpose.Serving.{Serves, update_inode-set_inode, fake_getxattr-stored}
use pseudoroot.Interpose.Shared.{IsShared, here}
use pseudoroot.Interpose.Shared.Changes.{set_inode-Serves}

module _ (p : Platform) {D : DashMap} {l : Library D} {m : ShmInodeMap} (shared : IsShared l m)
    (valid : IsValid m) (source : StatSource) (name : CStr) (value : Buffer) (size : ℕ) (st : Stat)
    (name_key : Bytes) (stats : source_stat p.sys source ≡ found st)
    (utf8 : read_cstr p.sys name ≡ some name_key) (room : probe m (key_from_stat st) ≢ full) where
  -- the entry of the file, or a new one
  abbrev old : FakeInode
  old =
      unwrap_or (Map.get_inode p.pages m (key_from_stat st))
        (new m.header.current_uid m.header.current_gid)

  -- its attributes with the new one
  abbrev pub attributes : Xattrs
  attributes = Xattrs.insert name_key (read_xattr_value value size) old.xattrs

  fake_setxattr-shared :
      fake_setxattr p source name value size l
      ≡ (set_inode p (key_from_stat st) (record old { xattrs = attributes }) l, pos 0)
  unfolding fake_setxattr
  fake_setxattr-shared =
      let set : FakeInode → FakeInode = λ inode. record inode {
        xattrs = Xattrs.insert name_key (read_xattr_value value size) inode.xattrs;
      } in
      rw (
        utf8,
        fake_setxattr,
        stats,
        (here p shared).ready,
        update_inode-set_inode p (here p shared) (key_from_stat st) set,
      )

  -- what the library then serves
  serves :
      Serves p
        (set_inode p (key_from_stat st) (record old { xattrs = attributes }) l)
        (put
          (key_from_stat st)
          (stored p.pages (record old { xattrs = attributes }))
          (Map.get_inode p.pages m))
        m.header.current_uid
        m.header.current_gid
  serves =
      set_inode-Serves p shared valid (key_from_stat st) (record old { xattrs = attributes }) room

  -- For a library in a session whose table is valid and not full for the file, a source that stat
  -- finds, a name that is UTF-8, and attributes that fit in a page together with the new one,
  -- fake_setxattr returns 0, and a later fake_getxattr of the name answers as write_xattr_value
  -- does for the value that was set, cut to the largest size that is kept.
  pub fake_setxattr-fake_getxattr_shared :
      (buf : Buffer) (space : ℕ)
      → kept p.pages attributes ≡ attributes
      → ((fake_setxattr p source name value size l).1 ≡ pos 0)
        × (fake_getxattr p source name buf space (fake_setxattr p source name value size l).0 ≡ (
          (fake_setxattr p source name value size l).0,
          write_xattr_value (read_xattr_value value size) buf space,
        ))
  fake_setxattr-fake_getxattr_shared buf space fit =
      let set = get-insert name_key name_key (read_xattr_value value size) old.xattrs in
      rw (fake_setxattr-shared) (
        refl,
        fake_getxattr-stored p serves source name buf space st
            (stored p.pages (record old { xattrs = attributes })) name_key
            (read_xattr_value value size) stats utf8 (rw (key_eq_refl (key_from_stat st)))
            (rw (fit, set, bytes_eq_refl name_key)),
      )

  -- For a library in a session whose table is valid and not full for the file, a source that stat
  -- finds, a name that is UTF-8, and attributes that do not fit in a page together with the new
  -- one, fake_setxattr returns 0 all the same, and the file has lost every recorded attribute: a
  -- later fake_getxattr of any name that is UTF-8 answers as the system does.
  pub fake_setxattr-loses :
      (later : CStr) (later_key : Bytes) (buf : Buffer) (space : ℕ)
      → kept p.pages attributes ≡ []
      → read_cstr p.sys later ≡ some later_key
      → ((fake_setxattr p source name value size l).1 ≡ pos 0)
        × (fake_getxattr p source later buf space (fake_setxattr p source name value size l).0 ≡ (
          (fake_setxattr p source name value size l).0,
          p.sys.real_getxattr source later buf space,
        ))
  unfolding fake_getxattr source_inode Xattrs.get
  fake_setxattr-loses later later_key buf space lost named = rw (fake_setxattr-shared) (
    refl,
    rw (
      named,
      fake_getxattr,
      stats,
      source_inode,
      serves.ready,
      serves.lookup (key_from_stat st),
      key_eq_refl (key_from_stat st),
      lost,
      stats,
      source_inode,
      serves.ready,
      serves.lookup (key_from_stat st),
    ),
  )
