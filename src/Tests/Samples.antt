-- ===== src/Tests/Samples.antt =====
-- A concrete map and a concrete serializer for the parameters of the model.
use pseudoroot.Prelude.{
  ℕ, zero, suc, ◌≡◌, refl, Bool, true, false, Option, none, some, if◌then◌else◌,
}
use pseudoroot.Xattrs.{Xattrs}
use pseudoroot.Inode.{InodeKey, FakeInode, Table, put, delete, key_eq}
use pseudoroot.State.{DashMap}
use pseudoroot.Codec.Sample.{Field, number, pair, list, option, via, bytes, codec_total}
use pseudoroot.Protocol.{
  MessageType, register_ownership, set_current_uid_gid, get_current_uid_gid, ping, response, error,
  get_ownership, remove_ownership, init, upsert_chown, shutdown, Wincode,
}

-- the map of the dashmap crate as a function
abbrev pub changed : (FakeInode → FakeInode) → FakeInode → Option FakeInode → FakeInode
changed f g none = g
changed f g (some old) = f old

pub get-upsert :
    (k j : InodeKey) (f : FakeInode → FakeInode) (g old : FakeInode) (m : Table)
    → m k ≡ some old
    → put k (changed f g (m k)) m j ≡ (if key_eq k j then some (f old) else m j)
get-upsert k j f g old m e = rw e

pub get-upsert_absent :
    (k j : InodeKey) (f : FakeInode → FakeInode) (g : FakeInode) (m : Table)
    → m k ≡ none
    → put k (changed f g (m k)) m j ≡ (if key_eq k j then some g else m j)
get-upsert_absent k j f g m e = rw e

abbrev pub dash_map : DashMap
dash_map = record {
  Map = Table;
  empty = λ j. none;
  get = λ j m. m j;
  insert = put;
  remove = delete;
  upsert = λ k f g m. put k (changed f g (m k)) m;
  get-empty = λ j. refl;
  get-insert = λ k j v m. refl;
  get-remove = λ k j m. refl;
  get-upsert_some = get-upsert;
  get-upsert_none = get-upsert_absent;
}

unfoldable pub tag : MessageType → ℕ
tag register_ownership = 0
tag set_current_uid_gid = 1
tag get_current_uid_gid = 2
tag ping = 3
tag response = 4
tag error = 5
tag get_ownership = 6
tag remove_ownership = 7
tag init = 8
tag upsert_chown = 9
tag shutdown = 10

unfoldable pub untag : ℕ → MessageType
untag zero = register_ownership
untag (suc zero) = set_current_uid_gid
untag (suc (suc zero)) = get_current_uid_gid
untag (suc (suc (suc zero))) = ping
untag (suc (suc (suc (suc zero)))) = response
untag (suc (suc (suc (suc (suc zero))))) = error
untag (suc (suc (suc (suc (suc (suc zero)))))) = get_ownership
untag (suc (suc (suc (suc (suc (suc (suc zero))))))) = remove_ownership
untag (suc (suc (suc (suc (suc (suc (suc (suc zero)))))))) = init
untag (suc (suc (suc (suc (suc (suc (suc (suc (suc zero))))))))) = upsert_chown
untag _ = shutdown

pub untag-tag : (t : MessageType) → untag (tag t) ≡ t
unfolding tag untag
untag-tag ping = refl
untag-tag _ = refl

unfoldable pub bit : Bool → ℕ
bit true = 1
bit false = 0

unfoldable pub unbit : ℕ → Bool
unbit zero = false
unbit (suc n) = true

pub unbit-bit : (b : Bool) → unbit (bit b) ≡ b
unfolding bit unbit
unbit-bit true = refl
unbit-bit false = refl

unfoldable pub attributes : Field Xattrs
attributes = list (pair bytes bytes)

abbrev pub wincode : Wincode
wincode = record {
  message = codec_total (
      via (pair (via number tag untag untag-tag) (pair bytes number))
        (λ m. (m.message_type, (m.payload, m.request_id)))
        (λ p. record { message_type = p.0; payload = p.1.0; request_id = p.1.1 }) (λ m. refl));
  uid_gid = codec_total (
      via (pair number number) (λ m. (m.uid, m.gid)) (λ p. record { uid = p.0; gid = p.1 })
        (λ m. refl));
  inode_key = codec_total (
      via (pair number number) (λ m. (m.dev, m.ino)) (λ p. record { dev = p.0; ino = p.1 })
        (λ m. refl));
  inode_state = codec_total (
      via
        (pair (pair (pair number number) (pair number number))
          (pair (option number) (pair (option number) attributes)))
        (λ m. (((m.dev, m.ino), (m.uid, m.gid)), (m.mode, (m.rdev, m.xattrs))))
        (λ p. record {
          dev = p.0.0.0;
          ino = p.0.0.1;
          uid = p.0.1.0;
          gid = p.0.1.1;
          mode = p.1.0;
          rdev = p.1.1.0;
          xattrs = p.1.1.1;
        })
        (λ m. refl));
  inode_result = codec_total (
      via
        (pair (pair (via number bit unbit unbit-bit) (pair number number))
          (pair (option number) (pair (option number) attributes)))
        (λ m. ((m.found, (m.uid, m.gid)), (m.mode, (m.rdev, m.xattrs))))
        (λ p. record {
          found = p.0.0;
          uid = p.0.1.0;
          gid = p.0.1.1;
          mode = p.1.0;
          rdev = p.1.1.0;
          xattrs = p.1.1.1;
        })
        (λ m. refl));
  chown = codec_total (
      via (pair (pair number number) (pair (pair number number) (pair number number)))
        (λ m. ((m.dev, m.ino), ((m.uid, m.gid), (m.default_uid, m.default_gid))))
        (λ p. record {
          dev = p.0.0;
          ino = p.0.1;
          uid = p.1.0.0;
          gid = p.1.0.1;
          default_uid = p.1.1.0;
          default_gid = p.1.1.1;
        })
        (λ m. refl));
}
