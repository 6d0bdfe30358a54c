-- ===== src/Tests/Daemon.antt =====
-- The theorems on the local table, the frames, the daemon and its client at concrete inputs.
use pseudoroot.Prelude.{◌≡◌, refl, true, false, none, some, [], ◌∷◌, ◌++◌, leb→le}
use pseudoroot.Inode.{InodeKey, FakeInode}
use pseudoroot.State.{FakeRootState, set_inode, get_inode}
use pseudoroot.State.Refinement.{get_inode-set_inode}
use pseudoroot.Codec.Sample.{
  number, pair, list, option, via, bytes, codec_total, write_items, read_items, read_list,
  write_option, read_option, regroup, read_pair, read_total, read_number,
}
use pseudoroot.Protocol.{ping, init, ProtocolMessage, new, write_framed, read_framed}
use pseudoroot.Protocol.Framing.{read_framed-write_framed}
use pseudoroot.Prelude.Bytes.{Bytes}
use pseudoroot.Protocol.Channel.{request, ok, err, broken_pipe, not_connected, channel_new}
use pseudoroot.Daemon.{Daemon, handle_client, send_message, dispatch_message, dispatch}
use pseudoroot.Daemon.Serving.{frames, answer, handle_client-answer}
use pseudoroot.Client.{Client}
use pseudoroot.Client.Channel.{channel, request-dispatch}
use pseudoroot.Tests.Samples.{dash_map, wincode, tag, untag, bit, unbit, attributes}

abbrev passwd : InodeKey
passwd = (1, 42)

abbrev root_inode : FakeInode
root_inode = record { uid = 0; gid = 5; mode = some 420; rdev = none; xattrs = [] }

abbrev table : FakeRootState dash_map
table = record { inode_map = λ j. some root_inode; current_uid = 0; current_gid = 0 }

abbrev daemon : Daemon dash_map
daemon = record { state = table; stopping = false }

abbrev client : Client dash_map
client = record { enabled = true; connected = true; next_id = 1; up = true; daemon = daemon }

abbrev cut_off : Client dash_map
cut_off = record client { up = false }

abbrev ping_message : ProtocolMessage
ping_message = new ping [] 1

abbrev bad_init : ProtocolMessage
bad_init = new init [] 2

get_inode-set_inode_example : get_inode (set_inode table passwd root_inode) passwd ≡ some root_inode
get_inode-set_inode_example = get_inode-set_inode table passwd root_inode passwd

read_framed-write_framed_example :
    read_framed (write_framed (1 ∷ 2 ∷ []) ++ (9 ∷ [])) ≡ some (1 ∷ 2 ∷ [], 9 ∷ [])
read_framed-write_framed_example = read_framed-write_framed (1 ∷ 2 ∷ []) (9 ∷ []) (leb→le _ _ refl)

handle_client-answer_example :
    handle_client wincode 2 1 (frames wincode (ping_message ∷ [])) [] daemon
    ≡ some (
      (answer wincode (ping_message ∷ []) daemon).0,
      frames wincode (answer wincode (ping_message ∷ []) daemon).1,
    )
unfolding number pair list option via bytes codec_total write_items read_items read_list
    write_option read_option regroup read_pair read_total read_number tag untag bit unbit attributes
handle_client-answer_example =
    handle_client-answer wincode (ping_message ∷ []) 2 [] daemon (leb→le _ _ refl)
      (leb→le _ _ refl, tt)

request-dispatch_example :
    (served : Daemon dash_map × Bytes) × (handle_client wincode 2 1
        (send_message wincode ping_message)
        []
        daemon
      ≡ some served)
    × (served.0 ≡ (dispatch_message wincode ping_message daemon).0)
    × (request wincode ping_message (channel (47 ∷ []) true (9 ∷ []) (served.1 ++ (5 ∷ []))) ≡ (
      channel (47 ∷ []) true ((9 ∷ []) ++ send_message wincode ping_message) (5 ∷ []),
      ok (dispatch_message wincode ping_message daemon).1,
    ))
    × (request wincode ping_message (channel (47 ∷ []) false (9 ∷ []) (served.1 ++ (5 ∷ [])))
        ≡ (channel (47 ∷ []) false (9 ∷ []) (served.1 ++ (5 ∷ [])), err broken_pipe))
    × (request wincode ping_message (channel_new (47 ∷ []))
        ≡ (channel_new (47 ∷ []), err not_connected))
unfolding dispatch_message dispatch number pair list option via bytes codec_total write_items
    read_items read_list write_option read_option regroup read_pair read_total read_number tag untag
    bit unbit attributes
request-dispatch_example =
    request-dispatch wincode (47 ∷ []) (9 ∷ []) (5 ∷ []) ping_message daemon (leb→le _ _ refl)
      (leb→le _ _ refl)
