-- ===== src/Shm/Table.antt =====
-- The slots, the header and the linear probe of pseudoroot-core/src/shm_map.rs. Slots and pages are
-- two lists indexed alike; the numbers of a slot are within the widths of their fields.
use pseudoroot.Prelude.{
  ℕ, zero, suc, ◌+◌, ◌*◌, ◌%◌, ◌^◌, bit_xor, Bool, ◌&&◌, Option, none, some, List, get_or, ◌==◌,
  if◌then◌else◌, unwrap_or,
}
use pseudoroot.Prelude.Bytes.{Bytes}
use pseudoroot.Inode.{InodeKey}
use pseudoroot.Shm.Layout.{slot_empty, slot_live, slot_tombstone}

pub record Header : Type 0 where
  pub magic : ℕ
  pub version : ℕ
  pub slot_count : ℕ
  pub current_uid : ℕ
  pub current_gid : ℕ

pub record Slot : Type 0 where
  pub occupied : ℕ
  pub dev : ℕ
  pub ino : ℕ
  pub uid : ℕ
  pub gid : ℕ
  pub mode : ℕ
  pub rdev : ℕ

-- a slot of fresh, zero-filled memory
abbrev pub zeroed : Slot
zeroed = record { occupied = slot_empty; dev = 0; ino = 0; uid = 0; gid = 0; mode = 0; rdev = 0 }

-- the mapping, and the fields of the struct that holds it
pub record ShmInodeMap : Type 0 where
  pub header : Header
  pub slots : List Slot
  pub pages : List Bytes
  pub len : ℕ
  pub slot_count : ℕ

pub data Probe : Type 0 where
  found : ℕ → Probe
  vacant : ℕ → Probe
  full : Probe

abbrev pub slot_at : List Slot → ℕ → Slot
slot_at slots index = get_or slots index zeroed

-- `hash`, before the reduction to an index
unfoldable pub mix : InodeKey → ℕ
mix key = bit_xor key.0 (key.1 * 0x9E37_79B9_7F4A_7C15 % 2 ^ 64)

unfoldable pub hash : ℕ → InodeKey → ℕ
unfolding mix
hash slot_count key = mix key % slot_count

abbrev pub matches : Slot → InodeKey → Bool
matches slot key = slot.occupied == slot_live && (slot.dev == key.0 && slot.ino == key.1)

-- the first tombstone on the way
abbrev pub note_reuse : Slot → ℕ → Option ℕ → Option ℕ
note_reuse slot idx none = if slot.occupied == slot_tombstone then some idx else none
note_reuse slot idx (some r) = some r

-- the loop of `probe`, by the rounds left
unfoldable pub probe_loop : List Slot → ℕ → InodeKey → ℕ → ℕ → Option ℕ → Probe
probe_loop slots slot_count key zero idx reuse = full
probe_loop slots slot_count key (suc rounds) idx reuse =
    let slot = slot_at slots idx in
    let rest =
      probe_loop slots slot_count key rounds ((idx + 1) % slot_count) (note_reuse slot idx reuse) in
    if slot.occupied == slot_empty
    then vacant (unwrap_or reuse idx)
    else if matches slot key
    then found idx
    else rest

unfoldable pub probe : ShmInodeMap → InodeKey → Probe
unfolding probe_loop
probe m key = probe_loop m.slots m.slot_count key m.slot_count (hash m.slot_count key) none
