-- ===== src/Shm/Valid.antt =====
-- The invariant of the shared table: one slot at most for a key, and no empty slot on the way to it.
use pseudoroot.Prelude.{
  ℕ, zero, suc, ◌+◌, ◌%◌, ◌<◌, ◌≡◌, refl, ◌≢◌, ◌⊎◌, inl, inr, Option, none, some, List, length, set,
  arith, get_or-set_self, get_or-set_ne, length-set, sym, ap, ◌∙◌, subst,
}
use native.Mathlib.Decide.{ℕ_discrete}
use pseudoroot.Inode.{InodeKey}
use pseudoroot.Shm.Layout.{slot_empty, slot_live}
use pseudoroot.Shm.Table.{
  Slot, ShmInodeMap, zeroed, Probe, found, vacant, full, slot_at, hash, probe,
}
use pseudoroot.Shm.Probing.{
  Holds, Reaches, Reaches-lt, found-Holds, vacant-Reaches, vacant-not_live, Reaches-found,
}

abbrev pub key_at : List Slot → ℕ → InodeKey
key_at slots i = ((slot_at slots i).dev, (slot_at slots i).ino)

pub record IsValidTable (slots : List Slot) (n : ℕ) : Type 0 where
  pub width : length slots ≡ n
  pub positive : 0 < n
  pub placed :
      (i : ℕ)
      → (slot_at slots i).occupied ≡ slot_live
      → Reaches slots n n (hash n (key_at slots i)) i
  pub unique : (key : InodeKey) (i j : ℕ) → Holds slots key i → Holds slots key j → i ≡ j

pub record IsValid (m : ShmInodeMap) : Type 0 where
  pub table : IsValidTable m.slots m.slot_count
  pub pages_width : length m.pages ≡ m.slot_count

pub hash-lt : (n : ℕ) (key : InodeKey) → 0 < n → hash n key < n
unfolding hash
hash-lt n key h = omega arith

-- What a probe of a valid table says.
pub data Lookup (m : ShmInodeMap) (key : InodeKey) : Type 0 where
  present : (i : ℕ) → Holds m.slots key i → i < m.slot_count → probe m key ≡ found i → Lookup m key
  free :
      (i : ℕ)
      → ((j : ℕ) → ¬ Holds m.slots key j)
      → (slot_at m.slots i).occupied ≢ slot_live
      → Reaches m.slots m.slot_count m.slot_count (hash m.slot_count key) i
      → i < m.slot_count
      → probe m key ≡ vacant i
      → Lookup m key
  crowded : ((j : ℕ) → ¬ Holds m.slots key j) → probe m key ≡ full → Lookup m key

module _ {m : ShmInodeMap} (valid : IsValid m) (key : InodeKey) where
  pub Holds-Reaches :
      (i : ℕ)
      → Holds m.slots key i
      → Reaches m.slots m.slot_count m.slot_count (hash m.slot_count key) i
  Holds-Reaches i (live, d, o) =
      let e : key_at m.slots i ≡ key = λ k. (d k, o k) in
      subst (λ (q : InodeKey). Reaches m.slots m.slot_count m.slot_count (hash m.slot_count q) i) e
        (valid.table.placed i live)

  pub Holds-found : (i : ℕ) → Holds m.slots key i → probe m key ≡ found i
  unfolding probe
  Holds-found i h =
      Reaches-found m.slots m.slot_count key m.slot_count (hash m.slot_count key) none i
        (Holds-Reaches i h) h (λ j hj. valid.table.unique key j i hj h)

  Holds-lt : (i : ℕ) → Holds m.slots key i → i < m.slot_count
  Holds-lt i h =
      Reaches-lt m.slots m.slot_count m.slot_count (hash m.slot_count key) i
        (hash-lt m.slot_count key valid.table.positive) (Holds-Reaches i h)

  Lookup-of : (r : Probe) → probe m key ≡ r → Lookup m key
  unfolding probe
  Lookup-of (found i) e =
      let h = found-Holds m.slots m.slot_count key m.slot_count _ none i e in
      present i h (Holds-lt i h) e
  Lookup-of (vacant i) e =
      let r = vacant-Reaches m.slots m.slot_count key m.slot_count _ none i e in
      let walk = reached r in
      free i (λ j h. cc (Holds-found j h))
        (vacant-not_live m.slots m.slot_count key m.slot_count _ none i tt e) walk
        (Reaches-lt m.slots m.slot_count m.slot_count _ i
          (hash-lt m.slot_count key valid.table.positive) walk)
        e
    where
      reached :
          (◌≡◌ {A = Option ℕ} none (some i))
            ⊎ ((◌≡◌ {A = Option ℕ} none none)
                × Reaches m.slots m.slot_count m.slot_count (hash m.slot_count key) i)
          → Reaches m.slots m.slot_count m.slot_count (hash m.slot_count key) i
      reached (inl x) = cc
      reached (inr (x, walk)) = walk
  Lookup-of full e = crowded (λ j h. cc (Holds-found j h)) e

  pub lookup : Lookup m key
  lookup = Lookup-of (probe m key) refl

index_of : Probe → ℕ
index_of (found i) = i
index_of (vacant i) = i
index_of full = 0

-- slot `i` is where `key` can be inserted
pub record IsFreeFor (m : ShmInodeMap) (key : InodeKey) (i : ℕ) : Type 0 where
  pub nowhere : (j : ℕ) → ¬ Holds m.slots key j
  pub idle : (slot_at m.slots i).occupied ≢ slot_live
  pub walk : Reaches m.slots m.slot_count m.slot_count (hash m.slot_count key) i
  pub inside : i < m.slot_count

pub vacant-IsFreeFor :
    {m : ShmInodeMap}
    → IsValid m
    → (key : InodeKey) (i : ℕ) → probe m key ≡ vacant i
    → IsFreeFor m key i
unfolding index_of
vacant-IsFreeFor {m} valid key i e = elim (lookup valid key) [
  | present j h inside e' ↦ cc
  | free j nowhere idle walk inside e' ↦
      subst (IsFreeFor m key) (ap index_of (sym e' ∙ e))
        (record { nowhere = nowhere; idle = idle; walk = walk; inside = inside })
  | crowded nowhere e' ↦ cc
]

module _ (slots : List Slot) (i : ℕ) (s : Slot) where
  pub Reaches-set :
      (n k idx j : ℕ)
      → i < length slots
      → s.occupied ≢ slot_empty
      → Reaches slots n k idx j
      → Reaches (set slots i s) n k idx j
  Reaches-set n zero idx j inside busy r = r
  Reaches-set n (suc k) idx j inside busy (inl e) = inl e
  Reaches-set n (suc k) idx j inside busy (inr (b, r)) =
      inr (kept, Reaches-set n k ((idx + 1) % n) j inside busy r)
    where
      kept : (slot_at (set slots i s) idx).occupied ≢ slot_empty
      kept = elim (ℕ_discrete i idx) [
        | yes e ↦ rw (← e, get_or-set_self slots i s zeroed inside) busy
        | no d ↦ rw (get_or-set_ne slots i idx s zeroed d) b
      ]

  pub Holds-set_ne :
      (key : InodeKey) (j : ℕ) → i ≢ j → Holds (set slots i s) key j → Holds slots key j
  Holds-set_ne key j d (live, e, f) =
      let same = get_or-set_ne slots i j s zeroed d in (rw same at live, rw same at e, rw same at f)

  pub Holds-set_self :
      (key : InodeKey) (j : ℕ)
      → i < length slots
      → i ≡ j
      → Holds (set slots i s) key j
      → (s.occupied ≡ slot_live) × (s.dev ≡ key.0) × (s.ino ≡ key.1)
  Holds-set_self key j inside e h =
      let (live, d, o) = subst (λ (k : ℕ). Holds (set slots i s) key k) (sym e) h in
      let same = get_or-set_self slots i s zeroed inside in
      (rw same at live, rw same at d, rw same at o)

  module _ (n : ℕ) (v : IsValidTable slots n) (inside : i < n)
      (busy : s.occupied ≢ slot_empty) where
    in_slots : i < length slots
    in_slots = rw v.width inside

    set-placed :
        (s.occupied ≡ slot_live → Reaches slots n n (hash n (s.dev, s.ino)) i)
        → (j : ℕ) → (slot_at (set slots i s) j).occupied ≡ slot_live
        → Reaches (set slots i s) n n (hash n (key_at (set slots i s) j)) j
    set-placed walk j live = elim (ℕ_discrete i j) [
      | yes e ↦ subst P e here live
      | no d ↦
          let same = get_or-set_ne slots i j s zeroed d in
          rw same (Reaches-set n n _ j in_slots busy (v.placed j (rw same at live)))
    ]
      where
        P : ℕ → Type 0
        P j =
            (slot_at (set slots i s) j).occupied ≡ slot_live
            → Reaches (set slots i s) n n (hash n (key_at (set slots i s) j)) j

        here : P i
        here l =
            let same = get_or-set_self slots i s zeroed in_slots in
            rw same (Reaches-set n n _ i in_slots busy (walk (rw same at l)))

    set_unique :
        ((j : ℕ) → s.occupied ≡ slot_live → Holds slots (s.dev, s.ino) j → j ≡ i)
        → (key : InodeKey) (a b : ℕ) → Holds (set slots i s) key a
        → Holds (set slots i s) key b
        → a ≡ b
    set_unique alone key a b ha hb = elim (ℕ_discrete i a) [
      | yes p ↦ elim (ℕ_discrete i b) [
        | yes q ↦ sym p ∙ q
        | no q ↦ sym p ∙ sym (other b a p ha (Holds-set_ne key b q hb))
      ]
      | no p ↦ elim (ℕ_discrete i b) [
        | yes q ↦ other a b q hb (Holds-set_ne key a p ha) ∙ q
        | no q ↦ v.unique key a b (Holds-set_ne key a p ha) (Holds-set_ne key b q hb)
      ]
    ]
      where
        other : (x y : ℕ) → i ≡ y → Holds (set slots i s) key y → Holds slots key x → x ≡ i
        other x y e hy (live, d, o) =
            let (sl, sd, so) = Holds-set_self key y in_slots e hy in
            alone x sl (live, d ∙ sym sd, o ∙ sym so)

    -- A slot may be rewritten to one that is not empty; if it is live, the walk to it must stand, and
    -- no other slot may hold its key.
    pub set-IsValidTable :
        (s.occupied ≡ slot_live → Reaches slots n n (hash n (s.dev, s.ino)) i)
        → ((j : ℕ) → s.occupied ≡ slot_live → Holds slots (s.dev, s.ino) j → j ≡ i)
        → IsValidTable (set slots i s) n
    set-IsValidTable walk alone = record {
      width = length-set slots i s ∙ v.width;
      positive = v.positive;
      placed = set-placed walk;
      unique = set_unique alone;
    }
