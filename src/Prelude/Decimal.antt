-- ===== src/Prelude/Decimal.antt =====
-- `to_string` of an unsigned integer and `str::parse` into one, of the standard library.
use pseudoroot.Prelude.Tests.{leb, ltb, ◌==◌, if◌then◌else◌, Bool-cases, lt→ltb, ◌>>=◌}
use pseudoroot.Prelude.Bytes.{Bytes}
use Prim.Native.Nat.{ℕ, zero, suc, ◌+◌, ◌-◌, ◌*◌, ◌/◌, ◌%◌, ◌^◌, ◌≤◌, ◌<◌}
use mathlib.Core.Path.{◌≡◌, refl, ◌∙◌}
use mathlib.Core.Logic.{inl, inr}
use mathlib.Core.Bool.{Bool, false, not, ◌&&◌}
use mathlib.Core.Option.{Option, none, some}
use mathlib.Core.List.{[], ◌∷◌}
use native.Mathlib.Nat.{pow-suc}
use native.Mathlib.Omega.{arith}

-- the digits of `n` in front of `rest`, by the digits that are left
digits_before : ℕ → ℕ → Bytes → Bytes
digits_before zero n rest = rest
digits_before (suc k) n rest =
    let more = digits_before k (n / 10) ((b'0' + n % 10) ∷ rest) in
    if ltb n 10 then (b'0' + n) ∷ rest else more

-- for numbers below 10 ^ 20, which those of 64 bits are
unfoldable pub to_string : ℕ → Bytes
unfolding digits_before
to_string n = digits_before 20 n []

abbrev is_digit : ℕ → Bool
is_digit c = leb b'0' c && leb c b'9'

-- the digits that follow the value read so far, which stays below `limit`
parse_digits : ℕ → ℕ → Bytes → Option ℕ
parse_digits limit value [] = some value
parse_digits limit value (c ∷ bytes) =
    let next = value * 10 + (c - b'0') in
    let rest = parse_digits limit next bytes in
    if is_digit c then (if ltb next limit then rest else none) else none

-- at least one digit, behind a `+` or not
unfoldable pub parse : ℕ → Bytes → Option ℕ
unfolding parse_digits
parse limit [] = none
parse limit (c ∷ []) = parse_digits limit 0 (c ∷ [])
parse limit (c ∷ d ∷ bytes) =
    if c == b'+' then parse_digits limit 0 (d ∷ bytes) else parse_digits limit 0 (c ∷ d ∷ bytes)

-- into an `i32`: whether it is negative, and its magnitude
unfoldable pub parse_i32 : Bytes → Option (Bool × ℕ)
unfolding parse_digits parse
parse_i32 bytes =
    let positive = parse (2 ^ 31) bytes >>= λ n. some (false, n) in
    elim bytes [
      | [] ↦ none
      | ◌∷◌ c (digits → _) ↦ elim digits [
        | [] ↦ positive
        | ◌∷◌ d (more → _) ↦
            if c == b'-'
            then (parse_digits (2 ^ 31 + 1) 0 (d ∷ more) >>= λ n. some (not (n == 0), n))
            else positive
      ]
    ]

parse_digits-digit :
    (limit value d : ℕ) (rest : Bytes)
    → d < 10
    → value * 10 + d < limit
    → parse_digits limit value ((b'0' + d) ∷ rest) ≡ parse_digits limit (value * 10 + d) rest
unfolding parse_digits
parse_digits-digit limit value d rest h small =
    let digit : 48 + d - 48 ≡ d = omega arith in rw digit (ground arith)

parse_digits-digits_before :
    (limit k n : ℕ) (rest : Bytes)
    → n < 10 ^ suc k
    → n < limit
    → parse_digits limit 0 (digits_before (suc k) n rest) ≡ parse_digits limit n rest
unfolding digits_before
parse_digits-digits_before limit zero n rest h small =
    let zero_add : 0 * 10 + n ≡ n = omega arith in
    rw (lt→ltb n 10 (omega arith))
      (parse_digits-digit limit 0 n rest (omega arith) (omega arith) ∙ rw zero_add)
parse_digits-digits_before limit (suc k) n rest h small = elim (Bool-cases (ltb n 10)) [
  | inl e ↦
      let zero_add : 0 * 10 + n ≡ n = omega arith in
      rw e (parse_digits-digit limit 0 n rest (ground arith) (omega arith) ∙ rw zero_add)
  | inr e ↦
      let lower : n / 10 < 10 ^ suc k = omega (arith, pow-suc 10 (suc k)) in
      let same : n / 10 * 10 + n % 10 ≡ n = omega arith in
      rw e (
        parse_digits-digits_before limit k (n / 10) ((b'0' + n % 10) ∷ rest) lower (omega arith)
        ∙ parse_digits-digit limit (n / 10) (n % 10) rest (omega arith) (omega arith)
        ∙ rw same)
]

-- a digit stands first
starts_with_digit :
    (k n : ℕ) (rest : Bytes)
    → (c : ℕ) × (bytes : Bytes) × (digits_before (suc k) n rest ≡ c ∷ bytes) × (b'0' ≤ c)
unfolding digits_before
starts_with_digit zero n rest = elim (Bool-cases (ltb n 10)) [
  | inl e ↦ (b'0' + n, rest, rw e, omega arith)
  | inr e ↦ (b'0' + n % 10, rest, rw e, omega arith)
]
starts_with_digit (suc k) n rest = elim (Bool-cases (ltb n 10)) [
  | inl e ↦ (b'0' + n, rest, rw e, omega arith)
  | inr e ↦
      let (c, bytes, same, digit) = starts_with_digit k (n / 10) ((b'0' + n % 10) ∷ rest) in
      (c, bytes, rw e same, digit)
]

parse-digits :
    (limit c : ℕ) (bytes : Bytes)
    → b'0' ≤ c
    → parse limit (c ∷ bytes) ≡ parse_digits limit 0 (c ∷ bytes)
unfolding parse
parse-digits limit c [] h = refl
parse-digits limit c (d ∷ bytes) h = ground arith

-- A number below the limit and below 10 ^ 20 is parsed from its own digits.
pub parse-to_string : (limit n : ℕ) → n < limit → n < 10 ^ 20 → parse limit (to_string n) ≡ some n
unfolding to_string
parse-to_string limit n small fits =
    let (c, bytes, same, digit) = starts_with_digit 19 n [] in
    let read = parse_digits-digits_before limit 19 n [] fits small in
    rw (same, parse-digits limit c bytes digit, ← same) (read ∙ unfold parse_digits in refl)

parse_i32-digits :
    (c : ℕ) (bytes : Bytes)
    → b'0' ≤ c
    → parse_i32 (c ∷ bytes) ≡ (parse (2 ^ 31) (c ∷ bytes) >>= λ n. some (false, n))
unfolding parse_i32
parse_i32-digits c [] h = refl
parse_i32-digits c (d ∷ bytes) h = let positive : (c == b'-') ≡ false = ground arith in rw positive

pub parse_i32-to_string : (n : ℕ) → n < 2 ^ 31 → parse_i32 (to_string n) ≡ some (false, n)
unfolding to_string
parse_i32-to_string n small =
    let (c, bytes, same, digit) = starts_with_digit 19 n [] in
    rw
      (same, parse_i32-digits c bytes digit, ← same, parse-to_string (2 ^ 31) n small (omega arith))

pub parse-zero : (limit : ℕ) → 0 < limit → parse limit (b'0' ∷ []) ≡ some 0
unfolding parse parse_digits
parse-zero limit h = rw (lt→ltb 0 limit h)
