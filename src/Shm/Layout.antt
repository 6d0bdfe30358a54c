-- ===== src/Shm/Layout.antt =====
-- The constants of pseudoroot-core/src/shm_map.rs, the sizes of its `repr(C)` structs, and where a
-- slot and an xattr page stand in the mapping.
use pseudoroot.Prelude.{
  ℕ, zero, suc, ◌+◌, ◌*◌, ◌^◌, ◌≤◌, ◌<◌, ◌≡◌, Option, none, some, arith, ltb, leb, if◌then◌else◌,
  ◌>>=◌, Bool-cases, inl, inr, leb→le, le→leb,
}
use native.Mathlib.Nat.{add-zero, pow-succ', pow-le-pow_right}

abbrev pub shm_magic : ℕ
shm_magic = 0x5044_5253

abbrev pub shm_version : ℕ
shm_version = 3

abbrev pub xattr_page_size : ℕ
xattr_page_size = 4096

abbrev pub slot_empty : ℕ
slot_empty = 0

abbrev pub slot_live : ℕ
slot_live = 1

abbrev pub slot_tombstone : ℕ
slot_tombstone = 2

-- `size_of::<Header>()`: five `u32`s, aligned to 64
abbrev pub header_size : ℕ
header_size = 64

-- `size_of::<Slot>()`: 4 (+ 4) + 8 + 8 + 4 + 4 + 4 (+ 4) + 8
abbrev pub slot_size : ℕ
slot_size = 48

-- `usize::checked_mul` and `usize::checked_add` on a 64-bit target
abbrev pub checked_mul : ℕ → ℕ → Option ℕ
checked_mul a b = if ltb (a * b) (2 ^ 64) then some (a * b) else none

abbrev pub checked_add : ℕ → ℕ → Option ℕ
checked_add a b = if ltb (a + b) (2 ^ 64) then some (a + b) else none

-- `u32::next_power_of_two`: the doublings left, the power at hand; past 2 ^ 31 the result wraps to 0
unfoldable pub next_power : ℕ → ℕ → ℕ → ℕ
next_power zero power n = 0
next_power (suc k) power n =
    let rest = next_power k (2 * power) n in if leb n power then power else rest

-- `slot_count.next_power_of_two().max(1024)`
unfoldable pub round_slot_count : ℕ → ℕ
unfolding next_power
round_slot_count n = let p = next_power 32 1 n in if leb p 1024 then 1024 else p

-- the three checked steps that compute the length of the mapping
unfoldable pub map_size : ℕ → Option ℕ
map_size slot_count = do
  slots_size ← checked_mul slot_size slot_count
  xattr_region_size ← checked_mul xattr_page_size slot_count
  v ← checked_add header_size slots_size
  checked_add v xattr_region_size

unfoldable pub slot_offset : ℕ → ℕ
slot_offset index = header_size + slot_size * index

unfoldable pub xattr_region_offset : ℕ → ℕ
xattr_region_offset slot_count = header_size + slot_size * slot_count

unfoldable pub xattr_page_offset : ℕ → ℕ → ℕ
xattr_page_offset slot_count index = xattr_region_offset slot_count + xattr_page_size * index

-- with `k + 1` doublings left, a number up to `2 ^ (e + k)` is met
next_power-finds :
    (k e n : ℕ)
    → n ≤ 2 ^ (e + k)
    → (i : ℕ) × (next_power (suc k) (2 ^ e) n ≡ 2 ^ i) × (i ≤ e + k) × (n ≤ 2 ^ i)
unfolding next_power
next_power-finds zero e n h =
    let h' : n ≤ 2 ^ e = rw (add-zero e) at h in (e, rw (le→leb n (2 ^ e) h'), omega arith, h')
next_power-finds (suc k) e n h = elim (Bool-cases (leb n (2 ^ e))) [
  | inl small ↦ (e, rw small, omega arith, leb→le _ _ small)
  | inr big ↦
      let shift : e + suc k ≡ suc e + k = omega arith in
      let (i, run, lo, hi) = next_power-finds k (suc e) n (rw shift at h) in
      (i, rw (big, ← pow-succ' 2 e) run, omega arith, hi)
]

-- For at most 2^31 slots asked for, the rounded count is a power of two, at least what was asked
-- for, at least 1024 and at most 2^31.
pub round_slot_count-bounds :
    (n : ℕ)
    → n ≤ 2 ^ 31
    → (i : ℕ) × (round_slot_count n ≡ 2 ^ i)
      × (n ≤ round_slot_count n)
      × (1024 ≤ round_slot_count n)
      × (round_slot_count n ≤ 2 ^ 31)
unfolding round_slot_count
round_slot_count-bounds n h =
    let (i, run, lo, hi) = next_power-finds 31 0 n h in
    let found : next_power 32 1 n ≡ 2 ^ i = run in
    let top : 2 ^ i ≤ 2 ^ 31 = pow-le-pow_right {n = 2} (omega arith) lo in
    elim (Bool-cases (leb (2 ^ i) 1024)) [
      | inl small ↦
          let e : round_slot_count n ≡ 1024 = rw (found, small) in
          (10, e, rw e (ground arith), rw e (omega arith), rw e (omega arith))
      | inr big ↦
          let e : round_slot_count n ≡ 2 ^ i = rw (found, big) in
          (i, e, rw e hi, rw e (ground arith), rw e top)
    ]

pub map_size-eq-some :
    (n : ℕ) → n ≤ 2 ^ 32 → map_size n ≡ some (header_size + slot_size * n + xattr_page_size * n)
unfolding map_size
map_size-eq-some n h = ground arith

-- What create allocates holds every slot and every page, and no two of them overlap.
pub record IsLaidOut (n len : ℕ) : Type 0 where
  pub slot_inside : (i : ℕ) → i < n → slot_offset i + slot_size ≤ xattr_region_offset n
  pub page_inside : (i : ℕ) → i < n → xattr_page_offset n i + xattr_page_size ≤ len
  pub slots_apart : (i j : ℕ) → i < j → slot_offset i + slot_size ≤ slot_offset j
  pub pages_apart :
      (i j : ℕ) → i < j → xattr_page_offset n i + xattr_page_size ≤ xattr_page_offset n j
  pub header_apart : (i : ℕ) → header_size ≤ slot_offset i

-- Where map_size gives a length, every slot lies between the header and the page region, every
-- page lies within the length, and neither two slots nor two pages overlap.
pub map_size-IsLaidOut : (n len : ℕ) → map_size n ≡ some len → IsLaidOut n len
unfolding map_size slot_offset xattr_region_offset xattr_page_offset
map_size-IsLaidOut n len h = record {
  slot_inside = λ i p. omega arith;
  page_inside = λ i p. ground arith;
  slots_apart = λ i j p. omega arith;
  pages_apart = λ i j p. omega arith;
  header_apart = λ i. omega arith;
}
