-- ===== src/Interpose/Xattr/Roundtrip.antt =====
-- An attribute that is set and then read.
use pseudoroot.Prelude.{ℕ, ◌≡◌, refl, some, unwrap_or}
use pseudoroot.Prelude.Bytes.{Bytes, bytes_eq_refl}
use pseudoroot.Xattrs
use pseudoroot.Xattrs.{get-insert}
use pseudoroot.Inode.{InodeKey, FakeInode, new, put, key_eq_refl}
use pseudoroot.State
use pseudoroot.State.{DashMap}
use pseudoroot.State.Refinement.{get_inode-set_inode}
use pseudoroot.Interpose.{pos, Stat, StatSource, CStr, Buffer, Platform, Library}
use pseudoroot.Interpose.Inode.{found, key_from_stat, source_stat}
use pseudoroot.Interpose.Xattr.{
  read_cstr, read_xattr_value, write_xattr_value, fake_setxattr, fake_getxattr,
}
use pseudoroot.Interpose.Serving.{update_inode-set_inode, fake_getxattr-stored}
use pseudoroot.Interpose.Own.{IsOwn, IsOwn-global, own-Serves, set_inode-own}

module _ (p : Platform) {D : DashMap} {l : Library D} (own : IsOwn l) where
  -- the entry with the attribute
  abbrev with_xattr : InodeKey → Bytes → Bytes → FakeInode
  with_xattr key name value =
      let old =
        unwrap_or (State.get_inode l.global key) (new l.global.current_uid l.global.current_gid) in
      record old { xattrs = Xattrs.insert name value old.xattrs }

  fake_setxattr-own :
      (source : StatSource) (name : CStr) (value : Buffer) (size : ℕ) (st : Stat) (name_key : Bytes)
      → source_stat p.sys source ≡ found st
      → read_cstr p.sys name ≡ some name_key
      → fake_setxattr p source name value size l ≡ (
        record l {
          global =
              State.set_inode l.global
                (key_from_stat st)
                (with_xattr (key_from_stat st) name_key (read_xattr_value value size));
        },
        pos 0,
      )
  unfolding fake_setxattr
  fake_setxattr-own source name value size st name_key stats utf8 =
      let here = own-Serves p own (State.get_inode l.global) (λ q. refl) in
      let key = key_from_stat st in
      let set : FakeInode → FakeInode = λ inode. record inode {
        xattrs = Xattrs.insert name_key (read_xattr_value value size) inode.xattrs;
      } in
      rw (
        utf8,
        fake_setxattr,
        stats,
        here.ready,
        update_inode-set_inode p here key set,
        set_inode-own p own key (with_xattr key name_key (read_xattr_value value size)),
      )

  -- For a library outside of a session and without a daemon, a source that stat finds and a name
  -- that is UTF-8, fake_setxattr returns 0, and a later fake_getxattr of the name answers as
  -- write_xattr_value does for the value that was set, cut to the largest size that is kept.
  pub fake_setxattr-fake_getxattr :
      (source : StatSource) (name : CStr) (value : Buffer) (size : ℕ) (buf : Buffer) (room : ℕ)
      (st : Stat) (name_key : Bytes)
      → source_stat p.sys source ≡ found st
      → read_cstr p.sys name ≡ some name_key
      → ((fake_setxattr p source name value size l).1 ≡ pos 0)
        × (fake_getxattr p source name buf room (fake_setxattr p source name value size l).0 ≡ (
          (fake_setxattr p source name value size l).0,
          write_xattr_value (read_xattr_value value size) buf room,
        ))
  fake_setxattr-fake_getxattr source name value size buf room st name_key stats utf8 =
      let key = key_from_stat st in
      let bytes = read_xattr_value value size in
      let inode = with_xattr key name_key bytes in
      let g = State.set_inode l.global key inode in
      let serves =
        own-Serves p (IsOwn-global own g) (put key inode (State.get_inode l.global))
          (get_inode-set_inode l.global key inode) in
      rw (fake_setxattr-own source name value size st name_key stats utf8) (
        refl,
        fake_getxattr-stored p serves source name buf room st inode name_key bytes stats utf8
            (rw (key_eq_refl key))
            (rw (get-insert name_key name_key bytes _, bytes_eq_refl name_key)),
      )
