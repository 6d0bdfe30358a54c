-- ===== src/Codec/Sample.antt =====
-- A concrete codec for the types that the program serializes: a field is written in front of a rest,
-- and read off it again.
use pseudoroot.Prelude.{
  ℕ, zero, suc, ◌<◌, ◌≡◌, refl, Option, none, some, List, [], ◌∷◌, length, arith, ◌>>=◌,
}
use pseudoroot.Prelude.Bytes.{Bytes}
use pseudoroot.Codec.{Codec}
use pseudoroot.Protocol.{Wire}

-- a writer in front of a rest, and the reader that takes it off
pub record Field (A : Type 0) : Type 0 where
  pub write : A → Bytes → Bytes
  pub read : Bytes → Option (A × Bytes)
  pub read-write : (a : A) (rest : Bytes) → read (write a rest) ≡ some (a, rest)

unfoldable pub read_number : Bytes → Option (ℕ × Bytes)
read_number [] = none
read_number (n ∷ rest) = some (n, rest)

unfoldable pub number : Field ℕ
unfolding read_number
number = record { write = λ n rest. n ∷ rest; read = read_number; read-write = λ n rest. refl }

module _ {A B : Type 0} (a : Field A) (b : Field B) where
  unfoldable pub read_pair : Bytes → Option (A × B × Bytes)
  read_pair bytes = a.read bytes >>= λ r. b.read r.1 >>= λ q. some (r.0, q.0, q.1)

  unfoldable pub regroup : Option (A × B × Bytes) → Option ((A × B) × Bytes)
  regroup none = none
  regroup (some t) = some ((t.0, t.1), t.2)

  pub read_pair-write :
      (p : A × B) (rest : Bytes)
      → regroup (read_pair (a.write p.0 (b.write p.1 rest))) ≡ some (p, rest)
  unfolding read_pair regroup
  read_pair-write p rest = rw (a.read-write, b.read-write)

  unfoldable pub pair : Field (A × B)
  pair = record {
    write = λ p rest. a.write p.0 (b.write p.1 rest);
    read = λ bytes. regroup (read_pair bytes);
    read-write = read_pair-write;
  }

module _ {A : Type 0} (a : Field A) where
  unfoldable pub write_items : List A → Bytes → Bytes
  write_items [] rest = rest
  write_items (x ∷ xs) rest = a.write x (write_items xs rest)

  unfoldable pub read_items : ℕ → Bytes → Option (List A × Bytes)
  read_items zero bytes = some ([], bytes)
  read_items (suc n) bytes = a.read bytes >>= λ r. read_items n r.1 >>= λ q. some (r.0 ∷ q.0, q.1)

  unfoldable pub read_list : Bytes → Option (List A × Bytes)
  read_list [] = none
  read_list (n ∷ bytes) = read_items n bytes

  pub read_items-write :
      (xs : List A) (rest : Bytes) → read_items (length xs) (write_items xs rest) ≡ some (xs, rest)
  unfolding read_items write_items
  read_items-write [] rest = refl
  read_items-write (x ∷ xs) rest = rw (a.read-write, read_items-write xs rest)

  unfoldable pub list : Field (List A)
  unfolding read_list
  list = record {
    write = λ xs rest. length xs ∷ write_items xs rest;
    read = read_list;
    read-write = read_items-write;
  }

  unfoldable pub write_option : Option A → Bytes → Bytes
  write_option none rest = 0 ∷ rest
  write_option (some x) rest = 1 ∷ a.write x rest

  unfoldable pub read_option : Bytes → Option (Option A × Bytes)
  read_option [] = none
  read_option (zero ∷ rest) = some (none, rest)
  read_option (suc n ∷ rest) = a.read rest >>= λ r. some (some r.0, r.1)

  pub read_option-write :
      (x : Option A) (rest : Bytes) → read_option (write_option x rest) ≡ some (x, rest)
  unfolding read_option write_option
  read_option-write none rest = refl
  read_option-write (some x) rest = rw (a.read-write)

  unfoldable pub option : Field (Option A)
  option = record { write = write_option; read = read_option; read-write = read_option-write }

  -- a type that is another one by name
  unfoldable pub via : {B : Type 0} (f : B → A) (g : A → B) → ((b : B) → g (f b) ≡ b) → Field B
  via f g back = record {
    write = λ x rest. a.write (f x) rest;
    read = λ bytes. a.read bytes >>= λ r. some (g r.0, r.1);
    read-write = λ x rest. rw (a.read-write, back x);
  }

  unfoldable pub deserialize_field : Bytes → Option A
  deserialize_field [] = none
  deserialize_field (n ∷ bytes) = a.read bytes >>= λ r. some r.0

  pub deserialize-serialize :
      (x : A) (bytes : Bytes)
      → some (1 ∷ a.write x []) ≡ some bytes
      → deserialize_field bytes ≡ some x
  unfolding deserialize_field
  deserialize-serialize x bytes e =
      let same : (1 ∷ a.write x []) ≡ bytes = cc in rw (← same, a.read-write)

  pub nonempty-serialize :
      (x : A) (bytes : Bytes) → some (1 ∷ a.write x []) ≡ some bytes → 0 < length bytes
  nonempty-serialize x bytes e =
      let same : (1 ∷ a.write x []) ≡ bytes = cc in rw (← same) (omega arith)

  unfoldable pub codec : Codec A
  codec = record {
    serialize = λ x. some (1 ∷ a.write x []);
    deserialize = deserialize_field;
    roundtrip = deserialize-serialize;
    nonempty = nonempty-serialize;
  }

  unfoldable pub read_total : Bytes → Option A
  read_total encoded = a.read encoded >>= λ r. some r.0

  pub read_total-write : (x : A) → read_total (a.write x []) ≡ some x
  unfolding read_total
  read_total-write x = rw (a.read-write)

  unfoldable pub codec_total : Wire A
  codec_total = record {
    to_bytes = λ x. a.write x [];
    from_bytes = read_total;
    roundtrip = read_total-write;
  }

unfoldable pub bytes : Field Bytes
bytes = list number

unfoldable pub xattrs : Codec (List (Bytes × Bytes))
xattrs = codec (list (pair bytes bytes))
