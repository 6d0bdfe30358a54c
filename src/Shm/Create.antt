-- ===== src/Shm/Create.antt =====
-- Creating the table in the supervisor and mapping it again in a preloaded child.
use pseudoroot.Prelude.{
  ℕ, zero, suc, ◌≤◌, ◌<◌, ◌*◌, ◌+◌, ◌^◌, ◌≡◌, refl, ap, [], ◌∷◌, ◌≢◌, true, none, some, List, set,
  length, replicate, arith, sym, ◌∙◌, length-set, length-replicate, get_or-replicate_self,
}
use pseudoroot.Xattrs.{Xattrs}
use pseudoroot.Codec.{Codec}
use pseudoroot.Shm.Layout.{
  shm_magic, shm_version, slot_empty, slot_live, slot_size, xattr_page_size, header_size,
  round_slot_count, round_slot_count-bounds, map_size-eq-some,
}
use pseudoroot.Shm.Table.{Header, Slot, zeroed, ShmInodeMap, slot_at}
use pseudoroot.Shm.Map.{
  ok, Os, Inherited, current_uid, current_gid, clear_slots, init_header, fresh, create, from_fd,
}
use pseudoroot.Shm.Valid.{IsValid}
use pseudoroot.Shm.Frame.{get_inode-absent}
use pseudoroot.Shm.Refinement.{Models}

abbrev AllEmpty : List Slot → Type 0
AllEmpty slots = (j : ℕ) → (slot_at slots j).occupied ≡ slot_empty

record Cleared (m m' : ShmInodeMap) : Type 0 where
  header : m'.header ≡ m.header
  pages : m'.pages ≡ m.pages
  len : m'.len ≡ m.len
  slot_count : m'.slot_count ≡ m.slot_count
  width : length m'.slots ≡ length m.slots
  empty : AllEmpty m'.slots

AllEmpty-set :
    (slots : List Slot) (i : ℕ) (s : Slot)
    → s.occupied ≡ slot_empty
    → AllEmpty slots
    → AllEmpty (set slots i s)
AllEmpty-set [] i s e h j = refl
AllEmpty-set (x ∷ slots) zero s e h zero = e
AllEmpty-set (x ∷ slots) zero s e h (suc j) = h (suc j)
AllEmpty-set (x ∷ slots) (suc i) s e h zero = h 0
AllEmpty-set (x ∷ slots) (suc i) s e h (suc j) = AllEmpty-set slots i s e (λ k. h (suc k)) j

clear_slots-Cleared : (k i : ℕ) (m : ShmInodeMap) → AllEmpty m.slots → Cleared m (clear_slots k i m)
unfolding clear_slots
clear_slots-Cleared zero i m h = record {
  header = refl;
  pages = refl;
  len = refl;
  slot_count = refl;
  width = refl;
  empty = h;
}
clear_slots-Cleared (suc k) i m h =
    let s : Slot = record (slot_at m.slots i) { occupied = slot_empty } in
    let m₁ : ShmInodeMap = record m { slots = set m.slots i s } in
    let c = clear_slots-Cleared k (suc i) m₁ (AllEmpty-set m.slots i s refl h) in
    record {
      header = c.header;
      pages = c.pages;
      len = c.len;
      slot_count = c.slot_count;
      width = c.width ∙ length-set m.slots i s;
      empty = c.empty;
    }

-- a mapping whose header a child accepts
pub record IsSession (m : ShmInodeMap) : Type 0 where
  pub magic : m.header.magic ≡ shm_magic
  pub version : m.header.version ≡ shm_version
  pub header_count : m.header.slot_count ≡ m.slot_count
  pub roomy : header_size ≤ m.len

-- A session's table starts valid, empty and unused, with the ids it was given.
pub record IsNew (wincode : Codec Xattrs) (wanted u g : ℕ) (m : ShmInodeMap) : Type 0 where
  pub models : Models wincode m (λ _. none)
  pub session : IsSession m
  pub rounded : m.slot_count ≡ round_slot_count wanted
  pub uid : current_uid m ≡ u
  pub gid : current_gid m ≡ g
  pub unused : (j : ℕ) → (slot_at m.slots j).occupied ≡ slot_empty
  pub len : m.len ≡ header_size + slot_size * m.slot_count + xattr_page_size * m.slot_count

pub IsNew-init_header :
    (wincode : Codec Xattrs) (wanted n u g : ℕ)
    → n ≡ round_slot_count wanted
    → 0 < n
    → IsNew wincode wanted u g
        (init_header (fresh n (header_size + slot_size * n + xattr_page_size * n)) u g)
unfolding init_header fresh current_uid current_gid
IsNew-init_header wincode wanted n u g e pos = record {
  models = (valid, λ q. get_inode-absent wincode q valid (λ j h. idle j h.0));
  session = record {
    magic = ap (λ (h : Header). h.magic) c.header;
    version = ap (λ (h : Header). h.version) c.header;
    header_count = ap (λ (h : Header). h.slot_count) c.header ∙ sym c.slot_count;
    roomy = rw c.len (omega arith);
  };
  rounded = c.slot_count ∙ e;
  uid = ap (λ (h : Header). h.current_uid) c.header;
  gid = ap (λ (h : Header). h.current_gid) c.header;
  unused = c.empty;
  len = rw c.slot_count c.len;
}
  where
    h : Header
    h = record {
      magic = shm_magic;
      version = shm_version;
      slot_count = n;
      current_uid = u;
      current_gid = g;
    }

    zeroes : ShmInodeMap
    zeroes = record (fresh n (header_size + slot_size * n + xattr_page_size * n)) { header = h }

    c : Cleared zeroes (clear_slots n 0 zeroes)
    c = clear_slots-Cleared n 0 zeroes (λ j. rw (get_or-replicate_self n j zeroed))

    idle : (j : ℕ) → (slot_at (clear_slots n 0 zeroes).slots j).occupied ≢ slot_live
    idle j l = omega (arith, c.empty j)

    valid : IsValid (clear_slots n 0 zeroes)
    valid = record {
      table = record {
        width = c.width ∙ length-replicate n zeroed ∙ sym c.slot_count;
        positive = rw c.slot_count pos;
        placed = λ j l. absurd (idle j l);
        unique = λ key a b ha hb. absurd (idle a ha.0);
      };
      pages_width =
          ap length c.pages ∙ length-replicate n (replicate xattr_page_size 0) ∙ sym c.slot_count;
    }

-- Where the system calls succeed and at most 2^31 slots are asked for, create returns a valid
-- table without entries, of the rounded number of slots and the matching length, with the given
-- ids and a header that a child accepts.
pub create-IsNew :
    (wincode : Codec Xattrs) (os : Os) (wanted u g : ℕ)
    → wanted ≤ 2 ^ 31
    → os.anon_fd ≡ true
    → ((len : ℕ) → os.ftruncate len ≡ true)
    → ((len : ℕ) → os.mmap len ≡ true)
    → (m : ShmInodeMap) × (create os wanted u g ≡ ok m) × IsNew wincode wanted u g m
unfolding create
create-IsNew wincode os wanted u g h fd truncates maps =
    let (i, power, asked, low, high) = round_slot_count-bounds wanted h in
    let n = round_slot_count wanted in
    (
      _,
      rw (map_size-eq-some n (omega arith), create, fd, truncates, maps),
      IsNew-init_header wincode wanted n u g refl (omega arith),
    )

-- Where dup and mmap succeed, from_fd on the memory of a session with the length of that session
-- in the environment returns that mapping.
pub from_fd-IsSession :
    (i : Inherited)
    → IsSession i.memory
    → i.dup ≡ true
    → i.env_len ≡ some i.memory.len
    → i.mmap i.memory.len ≡ true
    → from_fd i ≡ ok i.memory
unfolding from_fd
from_fd-IsSession i s d e maps = ground arith

-- Whatever the environment and the memory hold, a mapping that from_fd returns has the magic
-- number, the version, the slot count of its header, and a length that holds the header.
pub from_fd-checks : (i : Inherited) (m : ShmInodeMap) → from_fd i ≡ ok m → IsSession m
unfolding from_fd
from_fd-checks i m h = ground arith
