-- ===== src/Shm/Map.antt =====
-- The methods of `ShmInodeMap` in pseudoroot-core/src/shm_map.rs. A method that writes through the
-- mapping returns the new state; its writes are made in the source's order.
use pseudoroot.Prelude.{
  ℕ, zero, suc, Bool, true, false, ◌&&◌, Option, none, some, [], ltb, ◌==◌, if◌then◌else◌,
  unwrap_or, get_or, set, replicate, not,
}
use pseudoroot.Prelude.Bytes.{Bytes}
use pseudoroot.Inode.{InodeKey, FakeInode, keep_or}
use pseudoroot.Xattrs.{Xattrs}
use pseudoroot.Codec.{Codec}
use pseudoroot.Shm.Layout.{
  shm_magic, shm_version, xattr_page_size, slot_empty, slot_live, slot_tombstone, header_size,
  round_slot_count, map_size,
}
use pseudoroot.Shm.Page.{write_page, read_page}
use pseudoroot.Shm.Table.{Header, Slot, zeroed, ShmInodeMap, found, vacant, full, slot_at, probe}

-- The kinds of `io::Error` that this file makes.
pub data IoError : Type 0 where
  last_os_error invalid_input invalid_data : IoError

pub data Result {ℓ} (A : Type ℓ) : Type ℓ where
  ok : A → Result A
  err : IoError → Result A

abbrev pub page_at : ShmInodeMap → ℕ → Bytes
page_at m index = get_or m.pages index []

unfoldable pub current_uid : ShmInodeMap → ℕ
current_uid m = m.header.current_uid

unfoldable pub current_gid : ShmInodeMap → ℕ
current_gid m = m.header.current_gid

unfoldable pub set_current : ShmInodeMap → ℕ → ℕ → ShmInodeMap
set_current m uid gid = record m {
  header = record m.header { current_uid = uid; current_gid = gid };
}

-- a write through `slot(index)`
abbrev pub set_slot : ShmInodeMap → ℕ → Slot → ShmInodeMap
set_slot m index s = record m { slots = set m.slots index s }

-- the loop of `init_header`, from slot `i` on
unfoldable pub clear_slots : ℕ → ℕ → ShmInodeMap → ShmInodeMap
clear_slots zero i m = m
clear_slots (suc k) i m =
    clear_slots k (suc i) (set_slot m i (record (slot_at m.slots i) { occupied = slot_empty }))

unfoldable pub init_header : ShmInodeMap → ℕ → ℕ → ShmInodeMap
unfolding clear_slots
init_header m uid gid =
    let h : Header = record {
      magic = shm_magic;
      version = shm_version;
      slot_count = m.slot_count;
      current_uid = uid;
      current_gid = gid;
    } in
    clear_slots m.slot_count 0 (record m { header = h })

-- a header of fresh, zero-filled memory
abbrev blank : Header
blank = record { magic = 0; version = 0; slot_count = 0; current_uid = 0; current_gid = 0 }

-- What the system calls answer: the descriptor, `ftruncate` and `mmap` at a length.
pub record Os : Type 0 where
  pub anon_fd : Bool
  pub ftruncate : ℕ → Bool
  pub mmap : ℕ → Bool

-- the zero-filled mapping of `len` bytes that `create` sets up
unfoldable pub fresh : ℕ → ℕ → ShmInodeMap
fresh slot_count len = record {
  header = blank;
  slots = replicate slot_count zeroed;
  pages = replicate slot_count (replicate xattr_page_size 0);
  len = len;
  slot_count = slot_count;
}

unfoldable pub create : Os → ℕ → ℕ → ℕ → Result ShmInodeMap
unfolding init_header fresh
create os slot_count uid gid =
    let n = round_slot_count slot_count in
    elim (map_size n) [
      | none ↦ err invalid_input
      | some len ↦
          if os.anon_fd && (os.ftruncate len && os.mmap len)
          then ok (init_header (fresh n len) uid gid)
          else err last_os_error
    ]

-- What `from_fd` meets: `dup`, the parsed `PSEUDOROOT_SHM_LEN`, `fstat`'s size, `mmap`, and the
-- memory behind the descriptor.
pub record Inherited : Type 0 where
  pub dup : Bool
  pub env_len : Option ℕ
  pub fstat : Option ℕ
  pub mmap : ℕ → Bool
  pub memory : ShmInodeMap

-- a usable length of the environment, else that of `fstat`
unfoldable pub inherited_len : Inherited → Option ℕ
inherited_len i = elim i.env_len [
  | none ↦ i.fstat
  | some len ↦ if ltb len header_size then i.fstat else some len
]

-- the mapping, once its length is known
unfoldable pub attach : Inherited → ℕ → Result ShmInodeMap
attach i len =
    let header = i.memory.header in
    if ltb len header_size
    then err invalid_data
    else if not (i.mmap len)
    then err last_os_error
    else if header.magic == shm_magic && header.version == shm_version
    then ok (record i.memory { len = len; slot_count = header.slot_count })
    else err invalid_data

unfoldable pub from_fd : Inherited → Result ShmInodeMap
unfolding inherited_len attach
from_fd i =
    if not i.dup
    then err last_os_error
    else (elim (inherited_len i) [ none ↦ err last_os_error | some len ↦ attach i len ])

abbrev pub non_zero : ℕ → Option ℕ
non_zero n = if n == 0 then none else some n

module _ (wincode : Codec Xattrs) where
  unfoldable pub write_xattrs : ShmInodeMap → ℕ → Xattrs → ShmInodeMap
  write_xattrs m index xattrs = record m {
    pages = set m.pages index (write_page wincode xattrs (page_at m index));
  }

  unfoldable pub read_xattrs : ShmInodeMap → ℕ → Xattrs
  read_xattrs m index = read_page wincode (page_at m index)

  -- the entry that `get_inode` reads at a slot
  unfoldable pub entry_at : ShmInodeMap → ℕ → FakeInode
  unfolding read_xattrs
  entry_at m idx =
      let slot = slot_at m.slots idx in
      record {
        uid = slot.uid;
        gid = slot.gid;
        mode = non_zero slot.mode;
        rdev = non_zero slot.rdev;
        xattrs = read_xattrs m idx;
      }

  unfoldable pub get_inode : ShmInodeMap → InodeKey → Option FakeInode
  unfolding entry_at
  get_inode m key = elim (probe m key) [
    | found idx ↦ some (entry_at m idx)
    | vacant idx ↦ none
    | full ↦ none
  ]

  unfoldable pub upsert_chown : ShmInodeMap → InodeKey → ℕ → ℕ → ℕ → ℕ → ShmInodeMap
  unfolding write_xattrs
  upsert_chown m key uid gid default_uid default_gid = elim (probe m key) [
    | found idx ↦
        let slot = slot_at m.slots idx in
        set_slot m idx (record slot { uid = keep_or slot.uid uid; gid = keep_or slot.gid gid })
    | vacant idx ↦
        let cleared = write_xattrs m idx [] in
        set_slot cleared idx (record {
          occupied = slot_live;
          dev = key.0;
          ino = key.1;
          uid = keep_or default_uid uid;
          gid = keep_or default_gid gid;
          mode = 0;
          rdev = 0;
        })
    | full ↦ m
  ]

  unfoldable pub upsert_inode : ShmInodeMap → InodeKey → FakeInode → ShmInodeMap
  unfolding write_xattrs
  upsert_inode m key inode = elim (probe m key) [
    | found idx ↦
        let slot = slot_at m.slots idx in
        write_xattrs
          (set_slot m idx (record slot {
            uid = inode.uid;
            gid = inode.gid;
            mode = unwrap_or inode.mode 0;
            rdev = unwrap_or inode.rdev 0;
          }))
          idx inode.xattrs
    | vacant idx ↦ set_slot (write_xattrs m idx inode.xattrs) idx (record {
      occupied = slot_live;
      dev = key.0;
      ino = key.1;
      uid = inode.uid;
      gid = inode.gid;
      mode = unwrap_or inode.mode 0;
      rdev = unwrap_or inode.rdev 0;
    })
    | full ↦ m
  ]

  -- the new state, and whether an entry was there
  unfoldable pub remove_inode : ShmInodeMap → InodeKey → ShmInodeMap × Bool
  unfolding write_xattrs
  remove_inode m key = elim (probe m key) [
    | found idx ↦
        let cleared = write_xattrs m idx [] in
        let slot = slot_at cleared.slots idx in
        (set_slot cleared idx (record slot { occupied = slot_tombstone }), true)
    | vacant idx ↦ (m, false)
    | full ↦ (m, false)
  ]
