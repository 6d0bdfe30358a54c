-- ===== src/Shm/Probing.antt =====
-- What the linear probe finds: walks through the slot table.
use pseudoroot.Prelude.{
  ℕ, zero, suc, ◌+◌, ◌%◌, ◌<◌, ◌≡◌, refl, ◌≢◌, ◌⊎◌, inl, inr, true, Option, none, some, List, arith,
  ◌==◌, Bool-cases,
}
use pseudoroot.Inode.{InodeKey}
use pseudoroot.Shm.Layout.{slot_empty, slot_live, slot_tombstone}
use pseudoroot.Shm.Table.{Slot, found, vacant, full, slot_at, matches, note_reuse, probe_loop}

-- slot `i` holds the live entry of `key`
abbrev pub Holds : List Slot → InodeKey → ℕ → Type 0
Holds slots key i =
    ((slot_at slots i).occupied ≡ slot_live)
    × ((slot_at slots i).dev ≡ key.0)
    × ((slot_at slots i).ino ≡ key.1)

-- a noted slot is not live
abbrev pub IsFree : List Slot → Option ℕ → Type 0
IsFree slots none = Unit
IsFree slots (some r) = (slot_at slots r).occupied ≢ slot_live

module _ (slots : List Slot) (n : ℕ) where
  -- a walk from `idx` of fewer than `k` steps comes to `i` before any empty slot
  abbrev pub Reaches : ℕ → ℕ → ℕ → Type 0
  Reaches zero idx i = ⊥
  Reaches (suc k) idx i =
      (idx ≡ i) ⊎ (((slot_at slots idx).occupied ≢ slot_empty) × Reaches k ((idx + 1) % n) i)

  pub Reaches-lt : (k idx i : ℕ) → idx < n → Reaches k idx i → i < n
  Reaches-lt zero idx i h r = absurd r
  Reaches-lt (suc k) idx i h (inl e) = omega arith
  Reaches-lt (suc k) idx i h (inr (busy, r)) = Reaches-lt k ((idx + 1) % n) i (omega arith) r

  module _ (key : InodeKey) where
    matches-Holds : (i : ℕ) → matches (slot_at slots i) key ≡ true → Holds slots key i
    matches-Holds i h = ground arith

    Holds-matches : (i : ℕ) → Holds slots key i → matches (slot_at slots i) key ≡ true
    Holds-matches i h = ground arith

    pub found-Holds :
        (k idx : ℕ) (reuse : Option ℕ) (i : ℕ)
        → probe_loop slots n key k idx reuse ≡ found i
        → Holds slots key i
    unfolding probe_loop
    found-Holds zero idx reuse i h = cc
    found-Holds (suc k) idx reuse i h =
        ground (arith, found-Holds k ((idx + 1) % n) (note_reuse (slot_at slots idx) idx reuse) i)

    -- the walk to a slot to insert at: the tombstone that was noted before, or one on the way
    pub vacant-Reaches :
        (k idx : ℕ) (reuse : Option ℕ) (i : ℕ)
        → probe_loop slots n key k idx reuse ≡ vacant i
        → (reuse ≡ some i) ⊎ ((reuse ≡ none) × Reaches k idx i)
    unfolding probe_loop
    vacant-Reaches zero idx reuse i h = cc
    vacant-Reaches (suc k) idx none i h =
        ground (arith, vacant-Reaches k ((idx + 1) % n) (note_reuse (slot_at slots idx) idx none) i)
    vacant-Reaches (suc k) idx (some r) i h =
        ground (arith, vacant-Reaches k ((idx + 1) % n) (some r) i)

    -- a slot to insert at is not live
    pub vacant-not_live :
        (k idx : ℕ) (reuse : Option ℕ) (i : ℕ)
        → IsFree slots reuse
        → probe_loop slots n key k idx reuse ≡ vacant i
        → (slot_at slots i).occupied ≢ slot_live
    unfolding probe_loop
    vacant-not_live zero idx reuse i free h = cc
    vacant-not_live (suc k) idx none i free h =
        elim (Bool-cases ((slot_at slots idx).occupied == slot_tombstone)) [
          | inl t ↦ ground (arith, vacant-not_live k ((idx + 1) % n) (some idx) i)
          | inr t ↦ ground (arith, vacant-not_live k ((idx + 1) % n) none i)
        ]
    vacant-not_live (suc k) idx (some r) i free h =
        ground (arith, vacant-not_live k ((idx + 1) % n) (some r) i)

    -- a live entry that a walk comes to is found, if no other slot holds its key
    pub Reaches-found :
        (k idx : ℕ) (reuse : Option ℕ) (i : ℕ)
        → Reaches k idx i
        → Holds slots key i
        → ((j : ℕ) → Holds slots key j → j ≡ i)
        → probe_loop slots n key k idx reuse ≡ found i
    unfolding probe_loop
    Reaches-found zero idx reuse i r h only = absurd r
    Reaches-found (suc k) idx reuse i (inl e) h only = ground arith
    Reaches-found (suc k) idx reuse i (inr (busy, r)) h only = ground (
      arith,
      only idx,
      Reaches-found k ((idx + 1) % n) (note_reuse (slot_at slots idx) idx reuse) i r h only,
    )

    -- with no empty slot and no slot of the key the probe gives up
    pub probe_loop-full :
        (k idx : ℕ) (reuse : Option ℕ)
        → idx < n
        → ((i : ℕ) → i < n → (slot_at slots i).occupied ≢ slot_empty)
        → ((i : ℕ) → ¬ Holds slots key i)
        → probe_loop slots n key k idx reuse ≡ full
    unfolding probe_loop
    probe_loop-full zero idx reuse inside busy none_holds = refl
    probe_loop-full (suc k) idx reuse inside busy none_holds = ground (
      arith,
      busy idx inside,
      none_holds idx,
      probe_loop-full k ((idx + 1) % n) (note_reuse (slot_at slots idx) idx reuse) (omega arith)
          busy none_holds,
    )
