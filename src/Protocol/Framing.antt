-- ===== src/Protocol/Framing.antt =====
-- Frames on a stream: those that follow one another, and a stream that is cut short.
use pseudoroot.Prelude.{
  ℕ, ◌%◌, ◌^◌, ◌<◌, ◌≡◌, none, some, ◌++◌, arith, le→leb, length, take, take-append, drop-append,
  length-append, zero, suc, [], ◌∷◌, ◌≤◌,
}
use mathlib.Core.List.{append_assoc}
use pseudoroot.Prelude.Bytes.{Bytes, to_be_bytes, from_be_bytes-to_be_bytes}
use pseudoroot.Protocol.{write_framed, read_exact, read_framed}

read_exact-append :
    (bytes rest : Bytes) → read_exact (length bytes) (bytes ++ rest) ≡ some (bytes, rest)
unfolding read_exact
read_exact-append bytes rest =
    let fits =
      le→leb (length bytes) (length (bytes ++ rest)) (omega (arith, length-append bytes rest)) in
    rw (fits, take-append, drop-append)

read_exact-short : (n : ℕ) (stream : Bytes) → length stream < n → read_exact n stream ≡ none
unfolding read_exact
read_exact-short n stream h = ground arith

-- behind the length of `bytes`, the rest is read by that length
read_framed-header :
    (bytes stream : Bytes)
    → length bytes < 2 ^ 32
    → read_framed (to_be_bytes (length bytes % 2 ^ 32) ++ stream) ≡ read_exact (length bytes) stream
unfolding read_framed
read_framed-header bytes stream h =
    let n = length bytes % 2 ^ 32 in
    let same : n ≡ length bytes = omega arith in
    let head : read_exact 4 (to_be_bytes n ++ stream) ≡ some (to_be_bytes n, stream) =
      unfold to_be_bytes in read_exact-append (to_be_bytes n) stream in
    rw (head, same, from_be_bytes-to_be_bytes (length bytes) h)

-- A frame of less than 4 GiB is read back whole from the front of a stream, and what follows it
-- is left on the stream.
pub read_framed-write_framed :
    (bytes rest : Bytes)
    → length bytes < 2 ^ 32
    → read_framed (write_framed bytes ++ rest) ≡ some (bytes, rest)
unfolding write_framed
read_framed-write_framed bytes rest h =
    rw (append_assoc, read_framed-header bytes (bytes ++ rest) h) (read_exact-append bytes rest)

length-take-le : (n : ℕ) (xs : Bytes) → length (take n xs) ≤ n
length-take-le zero xs = omega arith
length-take-le (suc n) [] = omega arith
length-take-le (suc n) (x ∷ xs) = omega (arith, length-take-le n xs)

pub read_framed-short : (stream : Bytes) → length stream < 4 → read_framed stream ≡ none
unfolding read_framed
read_framed-short stream h = rw (read_exact-short 4 stream h)

-- A stream that ends inside a frame of less than 4 GiB gives no frame.
read_framed-cut_short :
    (bytes : Bytes) (n : ℕ)
    → length bytes < 2 ^ 32
    → n < length (write_framed bytes)
    → read_framed (take n (write_framed bytes)) ≡ none
unfolding write_framed to_be_bytes
read_framed-cut_short bytes (suc (suc (suc (suc n)))) h cut =
    rw (read_framed-header bytes (take n bytes) h)
      (read_exact-short (length bytes) (take n bytes) (omega (arith, length-take-le n bytes)))
read_framed-cut_short bytes n h cut =
    read_framed-short (take n (write_framed bytes))
      (omega (arith, length-take-le n (write_framed bytes)))
