-- ===== src/Interpose/Modes.antt =====
-- What a program sees of a chmod: the permissions that it asked for, on the type that the file has.
use pseudoroot.Prelude.{
  ℕ, ◌+◌, ◌*◌, ◌/◌, ◌%◌, ◌^◌, ◌≤◌, ◌<◌, ◌≡◌, ◌≢◌, refl, sym, ap, ◌∙◌, subst, true, some, unwrap_or,
  arith,
}
use pseudoroot.Prelude.Bits.{bit_or-masks}
use pseudoroot.Xattrs.{Xattrs}
use pseudoroot.Codec.{Codec}
use pseudoroot.Inode.{InodeKey, FakeInode, Table, new, put, key_eq, key_eq_refl}
use pseudoroot.State.{DashMap}
use pseudoroot.Shm.Table.{ShmInodeMap, full, probe}
use pseudoroot.Shm.Map
use pseudoroot.Shm.Map.{non_zero}
use pseudoroot.Shm.Valid.{IsValid}
use pseudoroot.Shm.Refinement.{stored}
use pseudoroot.Interpose.{ℤ, pos, Stat, Sys, Platform, Library}
use pseudoroot.Interpose.Inode.{key_from_stat}
use pseudoroot.Interpose.Backend.{
  ensure_library_init, ensure_session_backing_init, current_fake_ids, daemon_or_global_ids,
  get_inode,
}
use pseudoroot.Interpose.Files.{compose_mode, zero_on_err, record_chmod_for_key, record_chmod}
use pseudoroot.Interpose.Hooks.{fchmod, fstat, overlay}
use pseudoroot.Interpose.Serving.{Serves, shown, modify_stat_buf-shown}
use pseudoroot.Interpose.Shared.{IsShared, shared-Serves}
use pseudoroot.Interpose.Shared.Changes.{record_chmod_for_key-shared}
use pseudoroot.Interpose.Calls.{source_stat-fd}

-- The permission bits of the request, and all others of the file.
pub compose_mode-bits :
    (real requested : ℕ)
    → real < 2 ^ 32
    → compose_mode real requested ≡ real / 4096 * 4096 + requested % 4096
unfolding compose_mode
compose_mode-bits real requested h = bit_or-masks real requested h

-- the platform with another file system
abbrev pub on_sys : Platform → Sys → Platform
on_sys p sys = record p { sys = sys }

module _ (p : Platform) (sys : Sys) {D : DashMap} {l : Library D} {t : Table} {uid gid : ℕ} where
  -- What a library serves does not depend on the file system.
  pub Serves-on_sys : Serves p l t uid gid → Serves (on_sys p sys) l t uid gid
  unfolding ensure_library_init ensure_session_backing_init current_fake_ids daemon_or_global_ids
      get_inode
  Serves-on_sys s = record {
    done = s.done;
    idle = s.idle;
    ready = s.ready;
    ids = s.ids;
    lookup = s.lookup;
  }

module _ (wincode : Codec Xattrs) (m : ShmInodeMap) (key : InodeKey) (uid gid : ℕ) where
  -- The table holds no rdev of 0.
  rdev-stored :
      non_zero (unwrap_or (unwrap_or (Map.get_inode wincode m key) (new uid gid)).rdev 0)
      ≡ (unwrap_or (Map.get_inode wincode m key) (new uid gid)).rdev
  unfolding Map.get_inode
  rdev-stored = ground arith

-- What the hooks of the stat family report of a file with a recorded entry, whatever the file
-- system then is.
pub overlay-put :
    (p : Platform) (sys : Sys) {D : DashMap} {l : Library D} (later : Stat) (key : InodeKey)
    (inode : FakeInode) (t : Table) {uid gid : ℕ}
    → key_from_stat later ≡ key
    → Serves p l (put key inode t) uid gid
    → overlay (on_sys p sys) (pos 0, later) l ≡ (l, (pos 0, shown (some inode) 0 0 later))
unfolding overlay
overlay-put p sys later key inode t same serves =
    let shows = modify_stat_buf-shown (on_sys p sys) (Serves-on_sys p sys serves) later in
    let here : key_eq key (key_from_stat later) ≡ true =
      subst (λ q. key_eq key q ≡ true) (sym same) (key_eq_refl key) in
    rw (overlay, shows, here)

-- the report on a file whose entry, or new entry, is `old` before the chmod
abbrev pub permitted : FakeInode → ℕ → ℕ → Stat → Stat
permitted old real requested later = record later {
  st_uid = old.uid;
  st_gid = old.gid;
  st_mode = real / 4096 * 4096 + requested % 4096;
  st_rdev = unwrap_or old.rdev later.st_rdev;
}

abbrev pub report : {D : DashMap} → Library D → Stat → Library D × (ℤ × Stat)
report l st = (l, (pos 0, st))

-- what the table holds of the entry of a chmod is reported as it was recorded
permitted-stored :
    (wincode : Codec Xattrs) (old : FakeInode) (real requested : ℕ) (later : Stat)
    → real < 2 ^ 32
    → 4096 ≤ real
    → non_zero (unwrap_or old.rdev 0) ≡ old.rdev
    → shown
        (some (stored wincode (record old { mode = some (compose_mode real requested) })))
        0
        0
        later
      ≡ permitted old real requested later
permitted-stored wincode old real requested later word typed rdev =
    let bits = compose_mode-bits real requested word in ground (arith, bits, rdev)

module _ (p : Platform) (sys : Sys) {D : DashMap} (f : ℤ) (st later : Stat)
    (stats : p.sys.real_fstat f ≡ (pos 0, st)) (stats_later : sys.real_fstat f ≡ (pos 0, later))
    (same : key_from_stat later ≡ key_from_stat st) where
  -- For a library in a session whose table is valid and not full for an open file, whose mode is
  -- a word with a file type, fchmod returns what the real fchmod returns, or 0 where that is
  -- negative, and a later fstat of the file, whatever else the system then says of it, reports
  -- the lower twelve bits that were asked for, the other bits that the mode had, and the recorded
  -- ids and rdev.
  pub fchmod-fstat_shared :
      {l : Library D} {m : ShmInodeMap} (mode : ℕ)
      → IsShared l m
      → IsValid m
      → probe m (key_from_stat st) ≢ full
      → 4096 ≤ st.st_mode
      → st.st_mode < 2 ^ 32
      → ((fchmod p f mode l).1 ≡ zero_on_err (p.sys.real_fchmod f mode))
        × (fstat (on_sys p sys) f (fchmod p f mode l).0 ≡ (
          (fchmod p f mode l).0,
          (
            pos 0,
            permitted
                (unwrap_or
                  (Map.get_inode p.pages m (key_from_stat st))
                  (new m.header.current_uid m.header.current_gid))
                st.st_mode
                mode
                later,
          ),
        ))
  unfolding fchmod record_chmod fstat
  fchmod-fstat_shared {l = l} {m = m} mode shared valid room typed word =
      let key = key_from_stat st in
      let old =
        unwrap_or (Map.get_inode p.pages m key) (new m.header.current_uid m.header.current_gid) in
      let after : Library D = record_chmod_for_key p key st.st_mode mode l in
      let serves = record_chmod_for_key-shared p shared valid key st.st_mode mode room in
      let ready = (shared-Serves p shared (Map.get_inode p.pages m) (λ q. refl)).ready in
      let shows = overlay-put p sys later key _ (Map.get_inode p.pages m) same serves in
      rw (source_stat-fd p f st stats, record_chmod, ready, stats_later)
        (
          refl,
          shows
              ∙ ap (report after) (
                  permitted-stored p.pages old st.st_mode mode later word typed
                    (rdev-stored p.pages m key m.header.current_uid m.header.current_gid)),
        )
