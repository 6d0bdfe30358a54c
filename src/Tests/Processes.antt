-- ===== src/Tests/Processes.antt =====
-- The theorems on what programs of one session see of each other's calls, at concrete inputs.
use pseudoroot.Prelude.{
  ℕ, ◌+◌, ◌^◌, ◌<◌, ◌≡◌, refl, true, false, some, [], ◌∷◌, unwrap_or, length, arith, leb→le,
}
use pseudoroot.Prelude.Bytes.{Bytes}
use pseudoroot.Inode.{new}
use pseudoroot.State.{get_inode}
use pseudoroot.Codec.Sample
use pseudoroot.Codec.Sample.{
  number, pair, list, option, via, bytes, codec_total, write_items, write_option,
}
use pseudoroot.Protocol
use pseudoroot.Protocol.{MessageType}
use pseudoroot.Shm.Map
use pseudoroot.Daemon.{Daemon}
use pseudoroot.Daemon.Serving.{Fits}
use pseudoroot.Interpose.{pos, Stat, Sys, Library}
use pseudoroot.Interpose.Inode.{at_fdcwd, resolve_path_at}
use pseudoroot.Interpose.Files.{zero_on_err}
use pseudoroot.Interpose.Hooks.{fchown, fchmod, fstat, mknod, stat}
use pseudoroot.Interpose.Calls.{owned}
use pseudoroot.Interpose.Modes.{on_sys, permitted, fchmod-fstat_shared}
use pseudoroot.Interpose.Nodes.{made, mknod-stat_shared}
use pseudoroot.Interpose.Remote.{IsCompact, IsRemote}
use pseudoroot.Interpose.Processes.{meets, fchown-fstat_session, fchown-fstat_remote}
use pseudoroot.Tests.Samples.{dash_map, wincode, bit, attributes}
use pseudoroot.Tests.Session.{session, session-IsValid, session-room, key}
use pseudoroot.Tests.Files.{
  file, one_file, platform, state, lone, in_session, in_session-IsShared, stat_path-file,
}

-- the file with other permissions, and a system with it
abbrev changed_file : Stat
changed_file = record file { st_mode = 0o100600 }

abbrev changed_sys : Sys
changed_sys = record one_file {
  real_stat = λ _. (pos 0, changed_file);
  real_fstat = λ _. (pos 0, changed_file);
}

fchmod-fstat_shared_example :
    ((fchmod platform (pos 3) 0o4755 in_session).1
      ≡ zero_on_err (platform.sys.real_fchmod (pos 3) 0o4755))
    × (fstat (on_sys platform changed_sys) (pos 3) (fchmod platform (pos 3) 0o4755 in_session).0 ≡ (
      (fchmod platform (pos 3) 0o4755 in_session).0,
      (
        pos 0,
        permitted
            (unwrap_or
              (Map.get_inode Sample.xattrs session key)
              (new session.header.current_uid session.header.current_gid))
            0o100644
            0o4755
            changed_file,
      ),
    ))
fchmod-fstat_shared_example =
    fchmod-fstat_shared platform changed_sys (pos 3) file changed_file refl refl refl 0o4755
      in_session-IsShared session-IsValid session-room (leb→le _ _ refl) (leb→le _ _ refl)

root-resolves : resolve_path_at one_file at_fdcwd (some (47 ∷ [])) ≡ some (47 ∷ [])
unfolding resolve_path_at
root-resolves = refl

mknod-stat_shared_example :
    ((mknod platform (some (47 ∷ [])) 0o20644 259 in_session).1 ≡ pos 0)
    × (stat
          (on_sys platform changed_sys)
          (some (47 ∷ []))
          (mknod platform (some (47 ∷ [])) 0o20644 259 in_session).0
        ≡ (
          (mknod platform (some (47 ∷ [])) 0o20644 259 in_session).0,
          (
            pos 0,
            made session.header.current_uid session.header.current_gid 0o20644 259 changed_file,
          ),
        ))
mknod-stat_shared_example =
    mknod-stat_shared platform changed_sys (some (47 ∷ [])) (47 ∷ []) file changed_file
      root-resolves refl stat_path-file refl refl 0o20644 259 in_session-IsShared session-IsValid
      session-room (leb→le _ _ refl)

fchown-fstat_session_example :
    ((fchown platform (pos 3) 7 8 in_session).1 ≡ pos 0)
    × ((fstat
          (on_sys platform changed_sys)
          (pos 4)
          (record in_session { shm = (fchown platform (pos 3) 7 8 in_session).0.shm })).1
        ≡ (
          pos 0,
          owned
              (unwrap_or
                (Map.get_inode Sample.xattrs session key)
                (new session.header.current_uid session.header.current_gid))
              7
              8
              changed_file,
        ))
fchown-fstat_session_example =
    fchown-fstat_session platform changed_sys (pos 3) (pos 4) file changed_file refl refl refl 7 8
      in_session-IsShared in_session-IsShared session-IsValid session-room

pub length-items : (xs rest : Bytes) → length (write_items number xs rest) ≡ length xs + length rest
unfolding write_items number
length-items [] rest = omega arith
length-items (x ∷ xs) rest = omega (arith, length-items xs rest)

message-Fits :
    (t : MessageType) (payload : Bytes) (id : ℕ)
    → length payload < 2 ^ 31
    → Fits wincode (Protocol.new t payload id)
unfolding codec_total via pair bytes list number write_items
message-Fits t payload id h = omega (arith, length-items payload (id ∷ []))

wincode-IsCompact : IsCompact wincode
unfolding codec_total via pair number
wincode-IsCompact = record {
  message = message-Fits;
  uid_gid = λ u. leb→le _ _ refl;
  inode_key = λ k. leb→le _ _ refl;
  chown = λ c. leb→le _ _ refl;
}

abbrev daemon : Daemon dash_map
daemon = record { state = state; stopping = false }

abbrev connected : Library dash_map
connected = record lone {
  client = record { enabled = true; connected = true; next_id = 1; up = true; daemon = daemon };
}

connected-IsRemote : IsRemote connected
connected-IsRemote = record {
  done = refl;
  idle = refl;
  session = refl;
  unshared = refl;
  enabled = refl;
  connected = refl;
  up = refl;
}

fchown-fstat_remote_example :
    ((fchown platform (pos 3) 7 8 connected).1 ≡ pos 0)
    × ((fstat
          (on_sys platform changed_sys)
          (pos 4)
          (meets (fchown platform (pos 3) 7 8 connected).0.client.daemon connected)).1
        ≡ (pos 0, owned (unwrap_or (get_inode state key) (new 0 0)) 7 8 changed_file))
unfolding get_inode codec_total via pair number bit option write_option attributes list write_items
    bytes
fchown-fstat_remote_example =
    fchown-fstat_remote platform changed_sys (pos 3) (pos 4) file changed_file refl refl refl 7 8
      wincode-IsCompact connected-IsRemote connected-IsRemote (leb→le _ _ refl)
