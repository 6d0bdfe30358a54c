-- ===== src/Prelude/Bits.antt =====
-- A word that is put together from the upper bits of one number and the lower bits of another, with
-- masks. The masks and the parts are written by their digits, lowest first.
use Prim.Native.Nat.{
  ℕ, zero, suc, ◌+◌, ◌*◌, ◌/◌, ◌%◌, ◌≤◌, ◌<◌, ◌^◌, min, max, bit_and, bit_or, digits,
  bit_and-bitwise, bit_or-bitwise,
}
use mathlib.Core.Path.{◌≡◌, refl, ap, ◌∙◌}
use native.Mathlib.Omega.{arith}

-- 2 ^ k - 1
abbrev ones : ℕ → ℕ
ones zero = 0
ones (suc k) = ones k * 2 + 1

-- a * 2 ^ k
abbrev shl : ℕ → ℕ → ℕ
shl zero a = a
shl (suc k) a = shl k a * 2

-- a / 2 ^ k
abbrev shr : ℕ → ℕ → ℕ
shr zero a = a
shr (suc k) a = shr k (a / 2)

-- a % 2 ^ k
abbrev low_bits : ℕ → ℕ → ℕ
low_bits zero a = 0
low_bits (suc k) a = low_bits k (a / 2) * 2 + a % 2

low_bits-zero : (k : ℕ) → low_bits k 0 ≡ 0
low_bits-zero zero = refl
low_bits-zero (suc k) = omega (arith, low_bits-zero k)

pub low_bits_below : (k a : ℕ) → a < shl k 1 → low_bits k a ≡ a
low_bits_below zero a h = omega arith
low_bits_below (suc k) a h = omega (arith, low_bits_below k (a / 2) (omega arith))

-- The recursion of the library runs as many rounds as its first number says; more change nothing.
lower_mask :
    (width rounds a : ℕ)
    → a ≤ rounds
    → digits (λ _. zero) min rounds a (ones width) ≡ low_bits width a
lower_mask width zero a enough = omega (arith, ap (low_bits width) empty, low_bits-zero width)
  where
    empty : a ≡ 0
    empty = omega arith
lower_mask width (suc rounds) zero enough = omega (arith, low_bits-zero width)
lower_mask zero (suc rounds) (suc a) enough =
    omega (arith, lower_mask zero rounds (suc a / 2) (omega arith))
lower_mask (suc width) (suc rounds) (suc a) enough =
    let rest : (ones width * 2 + 1) / 2 ≡ ones width = omega arith in
    omega (
      arith,
      ap (digits (λ _. zero) min rounds (suc a / 2)) rest,
      lower_mask width rounds (suc a / 2) (omega arith),
    )

upper_mask :
    (k width rounds a : ℕ)
    → a ≤ rounds
    → digits (λ _. zero) min rounds a (shl k (ones width)) ≡ shl k (low_bits width (shr k a))
upper_mask zero width rounds a enough = lower_mask width rounds a enough
upper_mask (suc k) width zero a enough =
    omega (arith, upper_mask k width zero (a / 2) (omega arith))
upper_mask (suc k) width (suc rounds) zero enough =
    omega (arith, upper_mask k width zero 0 (omega arith))
upper_mask (suc k) width (suc rounds) (suc a) enough =
    let rest : (shl k (ones width) * 2) / 2 ≡ shl k (ones width) = omega arith in
    omega (
      arith,
      ap (digits (λ _. zero) min rounds (suc a / 2)) rest,
      upper_mask k width rounds (suc a / 2) (omega arith),
    )

-- one round of `bit_or`
or_round :
    (rounds a b : ℕ)
    → digits (λ y. y) max (suc rounds) a b
      ≡ digits (λ y. y) max rounds (a / 2) (b / 2) * 2 + max (a % 2) (b % 2)
or_round zero zero b = omega arith
or_round (suc rounds) zero b = omega arith
or_round rounds (suc a) b = refl

join :
    (k rounds a b : ℕ)
    → shl k a ≤ rounds
    → digits (λ y. y) max rounds (shl k a) (low_bits k b) ≡ shl k a + low_bits k b
join k zero a b enough = omega arith
join zero (suc rounds) a b enough =
    omega (arith, or_round rounds a 0, join zero rounds (a / 2) b (omega arith))
join (suc k) (suc rounds) a b enough =
    let upper : (shl k a * 2) / 2 ≡ shl k a = omega arith in
    let lower : (low_bits k (b / 2) * 2 + b % 2) / 2 ≡ low_bits k (b / 2) = omega arith in
    omega (
      arith,
      or_round rounds (shl k a * 2) (low_bits k (b / 2) * 2 + b % 2),
      ap (λ (x : ℕ). digits (λ y. y) max rounds x ((low_bits k (b / 2) * 2 + b % 2) / 2)) upper,
      ap (digits (λ y. y) max rounds (shl k a)) lower,
      join k rounds a (b / 2) (omega arith),
    )

-- The upper bits of one number and the lower twelve of another.
pub bit_or-masks :
    (a b : ℕ)
    → a < 2 ^ 32
    → bit_or (bit_and a 0xFFFFF000) (bit_and b 4095) ≡ a / 4096 * 4096 + b % 4096
bit_or-masks a b h =
    let word : low_bits 20 (shr 12 a) ≡ shr 12 a = low_bits_below 20 (shr 12 a) (omega arith) in
    let upper : bit_and a 0xFFFFF000 ≡ shl 12 (shr 12 a) =
      bit_and-bitwise a 0xFFFFF000 ∙ upper_mask 12 20 a a (omega arith) ∙ ap (shl 12) word in
    let lower : bit_and b 4095 ≡ low_bits 12 b =
      bit_and-bitwise b 4095 ∙ lower_mask 12 b b (omega arith) in
    rw
      (
        upper,
        lower,
        bit_or-bitwise (shl 12 (shr 12 a)) (low_bits 12 b),
        join 12 (shl 12 (shr 12 a)) (shr 12 a) b (omega arith),
      )
      (omega arith)
