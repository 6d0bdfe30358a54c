-- ===== src/Shm/Publication.antt =====
-- A slot becomes visible to other processes by its last store: until then, the table reads as before.
use pseudoroot.Prelude.{
  ℕ, ◌<◌, ◌≡◌, refl, ◌≢◌, ◌∙◌, sym, ap, arith, List, [], ◌∷◌, length, get_or-set_self,
  get_or-set_ne, get_or-set-cases, set-set, inl, inr, ◌++◌,
}
use pseudoroot.Inode.{InodeKey, FakeInode}
use pseudoroot.Xattrs.{Xattrs}
use pseudoroot.Codec.{Codec}
use pseudoroot.Shm.Layout.{slot_live}
use pseudoroot.Shm.Table.{Slot, ShmInodeMap, zeroed, vacant, slot_at, probe}
use pseudoroot.Shm.Map.{set_slot, write_xattrs, get_inode, upsert_inode, upsert_chown}
use pseudoroot.Shm.Valid.{IsValid, vacant-IsFreeFor}
use pseudoroot.Shm.Write.{set-get_or}
use pseudoroot.Shm.Stores.{
  Store, xattrs_page, occupied, store_field, store, store_all, states, inode_stores, chown_stores,
  publish,
}
use pseudoroot.Shm.Agrees.{Agrees, Agrees-refl, Agrees-trans, get_inode-Agrees}

module _ (wincode : Codec Xattrs) where
  -- a store to a slot that is not live, but for the one that publishes it
  abbrev IsHidden : Store → Type 0
  IsHidden (occupied v) = ⊥
  IsHidden _ = Unit

  set_slot-Agrees :
      (m : ShmInodeMap) (idx : ℕ) (new : Slot)
      → (slot_at m.slots idx).occupied ≢ slot_live
      → new.occupied ≡ (slot_at m.slots idx).occupied
      → Agrees m (set_slot m idx new)
  set_slot-Agrees m idx new idle same = record {
    slot_count = refl;
    occupied = λ k. elim (get_or-set-cases m.slots idx k new zeroed) [
      | inl e ↦ rw e
      | inr (at, e) ↦ rw (e, same, at)
    ];
    live_slot = λ k l. get_or-set_ne m.slots idx k new zeroed (λ at. idle (rw at l));
    live_page = λ k l. refl;
  }

  store-Agrees :
      (idx : ℕ) (s : Store) (m : ShmInodeMap)
      → (slot_at m.slots idx).occupied ≢ slot_live
      → IsHidden s
      → Agrees m (store wincode idx s m)
  unfolding store write_xattrs
  store-Agrees idx (xattrs_page xattrs) m idle hidden = record {
    slot_count = refl;
    occupied = λ k. refl;
    live_slot = λ k l. refl;
    live_page = λ k l. get_or-set_ne m.pages idx k _ [] (λ e. idle (rw e l));
  }
  store-Agrees idx (occupied v) m idle hidden = absurd hidden
  store-Agrees idx s m idle hidden = set_slot-Agrees m idx _ idle refl

  abbrev AllHidden : List Store → Type 0
  AllHidden [] = Unit
  AllHidden (s ∷ stores) = IsHidden s × AllHidden stores

  -- every table of a list reads as `m`
  abbrev pub AllRead : ShmInodeMap → List ShmInodeMap → Type 0
  AllRead m [] = Unit
  AllRead m (m' ∷ ms) =
      ((q : InodeKey) → get_inode wincode m' q ≡ get_inode wincode m q) × AllRead m ms

  states-AllRead :
      (idx : ℕ) (stores : List Store) (m m' : ShmInodeMap)
      → Agrees m m'
      → (slot_at m.slots idx).occupied ≢ slot_live
      → AllHidden stores
      → AllRead m (states wincode idx stores m')
  unfolding states
  states-AllRead idx [] m m' a idle hidden = (get_inode-Agrees wincode m m' a, tt)
  states-AllRead idx (s ∷ stores) m m' a idle (h, hidden) =
      let one = store-Agrees idx s m' (λ l. idle (sym (a.occupied idx) ∙ l)) h in
      (
        get_inode-Agrees wincode m m' a,
        states-AllRead idx stores m (store wincode idx s m')
            (Agrees-trans m m' (store wincode idx s m') a one) idle hidden,
      )

  -- stores to the fields of a slot, as one write
  abbrev pub store_fields : List Store → Slot → Slot
  store_fields [] slot = slot
  store_fields (s ∷ stores) slot = store_fields stores (store_field s slot)

  abbrev pub AllFields : List Store → Type 0
  AllFields [] = Unit
  AllFields (xattrs_page xattrs ∷ stores) = ⊥
  AllFields (_ ∷ stores) = AllFields stores

  store_all-set_slot :
      (idx : ℕ) (stores : List Store) (m : ShmInodeMap) (slot : Slot)
      → idx < length m.slots
      → AllFields stores
      → store_all wincode idx stores (set_slot m idx slot)
        ≡ set_slot m idx (store_fields stores slot)
  unfolding store_all store
  store_all-set_slot idx [] m slot inside fields = refl
  store_all-set_slot idx (xattrs_page xattrs ∷ stores) m slot inside fields = absurd fields
  store_all-set_slot idx (s ∷ stores) m slot inside fields =
      rw
        (
          get_or-set_self m.slots idx slot zeroed inside,
          set-set m.slots idx slot (store_field s slot),
        )
        (store_all-set_slot idx stores m (store_field s slot) inside fields)

  -- a page and the fields of its slot
  pub store_all-page :
      (idx : ℕ) (xattrs : Xattrs) (stores : List Store) (m : ShmInodeMap)
      → idx < length m.slots
      → AllFields stores
      → store_all wincode idx (xattrs_page xattrs ∷ stores) m
        ≡ set_slot
            (write_xattrs wincode m idx xattrs)
            idx
            (store_fields stores (slot_at m.slots idx))
  unfolding store_all store write_xattrs
  store_all-page idx xattrs stores m inside fields =
      let paged : ShmInodeMap = write_xattrs wincode m idx xattrs in
      let same : set_slot paged idx (slot_at m.slots idx) ≡ paged =
        ap (λ (slots : List Slot). record paged { slots = slots })
          (set-get_or m.slots idx zeroed inside) in
      ap (store_all wincode idx stores) (sym same)
      ∙ store_all-set_slot idx stores paged (slot_at m.slots idx) inside fields

module _ (wincode : Codec Xattrs) {m : ShmInodeMap} (valid : IsValid m) (key : InodeKey) (idx : ℕ)
    (e : probe m key ≡ vacant idx) where
  -- Where the probe of a valid table gives a slot to insert at, every table between the stores of
  -- upsert_inode, in the order of the source, reads as before, and the store that publishes the
  -- slot leaves the table that upsert_inode leaves.
  pub upsert_inode-published :
      (inode : FakeInode)
      → AllRead wincode m (states wincode idx (inode_stores key inode) m)
        × (store_all wincode idx (inode_stores key inode ++ publish ∷ []) m
            ≡ upsert_inode wincode m key inode)
  unfolding upsert_inode
  upsert_inode-published inode =
      let at = vacant-IsFreeFor valid key idx e in
      let inside : idx < length m.slots = omega (arith, valid.table.width, at.inside) in
      let hidden : AllHidden wincode (inode_stores key inode) =
        (tt, (tt, (tt, (tt, (tt, (tt, (tt, tt))))))) in
      (
        states-AllRead wincode idx (inode_stores key inode) m m (Agrees-refl m) at.idle hidden,
        rw (e, upsert_inode) (store_all-page wincode idx inode.xattrs _ m inside tt),
      )

  -- Where the probe of a valid table gives a slot to insert at, every table between the stores of
  -- upsert_chown reads as before, and the store that publishes the slot leaves the table of upsert_chown.
  upsert_chown-published :
      (uid gid default_uid default_gid : ℕ)
      → AllRead wincode m (states wincode idx (chown_stores key uid gid default_uid default_gid) m)
        × (store_all wincode idx
              (chown_stores key uid gid default_uid default_gid ++ publish ∷ [])
              m
            ≡ upsert_chown wincode m key uid gid default_uid default_gid)
  unfolding upsert_chown
  upsert_chown-published uid gid default_uid default_gid =
      let at = vacant-IsFreeFor valid key idx e in
      let inside : idx < length m.slots = omega (arith, valid.table.width, at.inside) in
      let hidden : AllHidden wincode (chown_stores key uid gid default_uid default_gid) =
        (tt, (tt, (tt, (tt, (tt, (tt, (tt, tt))))))) in
      (
        states-AllRead wincode idx (chown_stores key uid gid default_uid default_gid) m m
            (Agrees-refl m) at.idle hidden,
        rw (e, upsert_chown) (store_all-page wincode idx [] _ m inside tt),
      )
