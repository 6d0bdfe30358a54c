-- ===== src/Tests/Shm.antt =====
-- The theorems on the shared table, on a new table of 1024 slots.
use pseudoroot.Prelude.{ℕ, ◌++◌, ◌<◌, ◌≡◌, refl, ◌≢◌, true, none, some, [], ◌∷◌, arith, zero, suc}
use pseudoroot.Inode.{FakeInode, put, delete, chown, id_unchanged}
use pseudoroot.Codec.Sample
use pseudoroot.Tests.Session.{
  session, session-IsNew, session-IsValid, session-room, inserted-IsValid, capability, key,
}
use pseudoroot.Shm.Layout.{
  slot_empty, slot_live, slot_tombstone, map_size, IsLaidOut, map_size-IsLaidOut,
}
use pseudoroot.Shm.Page.{write_page, read_page, kept, read_page-write_page}
use pseudoroot.Shm.Table.{ShmInodeMap, zeroed, full, vacant, slot_at, hash, mix, probe_loop, probe}
use pseudoroot.Shm.Map.{
  Os, Inherited, fresh, init_header, get_inode, upsert_inode, upsert_chown, remove_inode,
}
use pseudoroot.Shm.Valid.{IsValid}
use pseudoroot.Shm.Refinement.{
  Models, stored, is_some, upsert_inode-Models, upsert_chown-Models, remove_inode-Models,
}
use pseudoroot.Shm.Stores.{store_all, states, inode_stores, publish}
use pseudoroot.Shm.Publication.{AllRead, upsert_inode-published}
use pseudoroot.Shm.Room.{probe-ne-full, upsert-crowded}
use pseudoroot.Shm.Create.{IsSession, from_fd-IsSession, from_fd-checks}

abbrev calls_succeed : Os
calls_succeed = record { anon_fd = true; ftruncate = λ _. true; mmap = λ _. true }

probe-ne-full_example : probe session key ≢ full
unfolding init_header fresh
probe-ne-full_example = probe-ne-full session-IsValid key 3 (omega arith) (session-IsNew.unused 3)

upsert_inode-Models_example :
    Models Sample.xattrs
      (upsert_inode Sample.xattrs session key capability)
      (put key (stored Sample.xattrs capability) (get_inode Sample.xattrs session))
upsert_inode-Models_example =
    upsert_inode-Models Sample.xattrs session-IsValid key capability session-room

upsert_chown-Models_example :
    Models Sample.xattrs
      (upsert_chown Sample.xattrs session key 1000 id_unchanged 0 7)
      (chown key 1000 id_unchanged 0 7 (get_inode Sample.xattrs session))
upsert_chown-Models_example =
    upsert_chown-Models Sample.xattrs session-IsValid key 1000 id_unchanged 0 7 session-room

-- removing the entry that was inserted
remove_inode-Models_example :
    Models Sample.xattrs
      (remove_inode Sample.xattrs (upsert_inode Sample.xattrs session key capability) key).0
      (delete key (get_inode Sample.xattrs (upsert_inode Sample.xattrs session key capability)))
    × ((remove_inode Sample.xattrs (upsert_inode Sample.xattrs session key capability) key).1
        ≡ is_some (get_inode Sample.xattrs (upsert_inode Sample.xattrs session key capability) key))
remove_inode-Models_example = remove_inode-Models Sample.xattrs inserted-IsValid key

abbrev inherited : Inherited
inherited = record {
  dup = true;
  env_len = some session.len;
  fstat = none;
  mmap = λ _. true;
  memory = session;
}

from_fd-checks_example : IsSession session
from_fd-checks_example =
    from_fd-checks inherited session
      (from_fd-IsSession inherited session-IsNew.session refl refl refl)

read_page-write_page_example :
    read_page Sample.xattrs (write_page Sample.xattrs capability.xattrs [])
    ≡ kept Sample.xattrs capability.xattrs
read_page-write_page_example = read_page-write_page Sample.xattrs capability.xattrs []

map_size-IsLaidOut_example : IsLaidOut 1024 4243520
map_size-IsLaidOut_example = map_size-IsLaidOut 1024 4243520 (unfold map_size in refl)

-- a table of one slot whose entry was removed
abbrev worn : ShmInodeMap
worn = record {
  header = session.header;
  slots = record zeroed { occupied = slot_tombstone } ∷ [];
  pages = [] ∷ [];
  len = 4208;
  slot_count = 1;
}

worn-used : (i : ℕ) → i < 1 → (slot_at worn.slots i).occupied ≢ slot_empty
worn-used zero h = omega arith
worn-used (suc i) h = absurd (omega arith)

worn-not_live : (i : ℕ) → (slot_at worn.slots i).occupied ≢ slot_live
worn-not_live zero h = omega arith
worn-not_live (suc i) h = omega arith

worn-IsValid : IsValid worn
worn-IsValid = record {
  table = record {
    width = refl;
    positive = omega arith;
    placed = λ i l. absurd (worn-not_live i l);
    unique = λ q i j a b. absurd (worn-not_live i a.0);
  };
  pages_width = refl;
}

upsert-crowded_example :
    ((inode : FakeInode) → upsert_inode Sample.xattrs worn key inode ≡ worn)
    × ((uid gid default_uid default_gid : ℕ)
        → upsert_chown Sample.xattrs worn key uid gid default_uid default_gid ≡ worn)
unfolding get_inode probe hash
upsert-crowded_example = upsert-crowded Sample.xattrs worn-IsValid key worn-used refl

-- a table of one slot that was never used
abbrev unused : ShmInodeMap
unused = record worn { slots = zeroed ∷ [] }

unused-not_live : (i : ℕ) → (slot_at unused.slots i).occupied ≢ slot_live
unused-not_live zero h = omega arith
unused-not_live (suc i) h = omega arith

unused-IsValid : IsValid unused
unused-IsValid = record {
  table = record {
    width = refl;
    positive = omega arith;
    placed = λ i l. absurd (unused-not_live i l);
    unique = λ q i j a b. absurd (unused-not_live i a.0);
  };
  pages_width = refl;
}

unused-probe : probe unused key ≡ vacant 0
unfolding probe probe_loop hash mix
unused-probe = refl

upsert_inode-published_example :
    AllRead Sample.xattrs unused (states Sample.xattrs 0 (inode_stores key capability) unused)
    × (store_all Sample.xattrs 0 (inode_stores key capability ++ publish ∷ []) unused
        ≡ upsert_inode Sample.xattrs unused key capability)
upsert_inode-published_example =
    upsert_inode-published Sample.xattrs unused-IsValid key 0 unused-probe capability
