-- ===== src/Codec.antt =====
-- The third-party serializer (wincode through serde) as an interface: what the program relies on is
-- that a value which serializes is read back from its bytes, and that the bytes are not empty (the
-- encoding of a map starts with its eight-byte length).
pub mod Sample
use pseudoroot.Prelude.{◌<◌, ◌≡◌, Option, some, length}
use pseudoroot.Prelude.Bytes.{Bytes}

pub record Codec (A : Type 0) : Type 0 where
  pub serialize : A → Option Bytes
  pub deserialize : Bytes → Option A
  pub roundtrip : (a : A) (bytes : Bytes) → serialize a ≡ some bytes → deserialize bytes ≡ some a
  pub nonempty : (a : A) (bytes : Bytes) → serialize a ≡ some bytes → 0 < length bytes
