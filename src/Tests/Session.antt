-- ===== src/Tests/Session.antt =====
-- A new shared table of 1024 slots, an entry for it, and the table with the entry.
use pseudoroot.Prelude.{◌+◌, ◌*◌, refl, ◌≢◌, none, some, [], ◌∷◌, arith}
use pseudoroot.Inode.{InodeKey, FakeInode}
use pseudoroot.Codec.Sample
use pseudoroot.Shm.Layout.{slot_size, xattr_page_size, header_size, round_slot_count}
use pseudoroot.Shm.Table.{ShmInodeMap, full, probe}
use pseudoroot.Shm.Map.{fresh, init_header, upsert_inode}
use pseudoroot.Shm.Valid.{IsValid}
use pseudoroot.Shm.Refinement.{upsert_inode-Models}
use pseudoroot.Shm.Room.{probe-ne-full}
use pseudoroot.Shm.Create.{IsNew, IsNew-init_header}

abbrev pub session : ShmInodeMap
session = init_header (fresh 1024 (header_size + slot_size * 1024 + xattr_page_size * 1024)) 0 0

pub session-IsNew : IsNew Sample.xattrs 256 0 0 session
unfolding round_slot_count
session-IsNew = IsNew-init_header Sample.xattrs 256 1024 0 0 refl (omega arith)

pub session-IsValid : IsValid session
session-IsValid = session-IsNew.models.0

abbrev pub capability : FakeInode
capability = record {
  uid = 10;
  gid = 20;
  mode = some 0o104755;
  rdev = none;
  xattrs = (b's' ∷ [], 1 ∷ 2 ∷ []) ∷ [];
}

abbrev pub key : InodeKey
key = (9, 42)

pub session-room : probe session key ≢ full
unfolding init_header fresh
session-room = probe-ne-full session-IsValid key 3 (omega arith) (session-IsNew.unused 3)

pub inserted-IsValid : IsValid (upsert_inode Sample.xattrs session key capability)
inserted-IsValid = (upsert_inode-Models Sample.xattrs session-IsValid key capability session-room).0
