-- ===== src/Tests/Server.antt =====
-- The theorems on the threads of the daemon at concrete inputs.
use pseudoroot.Prelude.{
  ◌+◌, ◌≤◌, ◌≡◌, refl, true, false, none, some, List, ◌⊎◌, if◌then◌else◌, [], ◌∷◌, ◌++◌, length,
  arith, unwrap_or,
}
use pseudoroot.Prelude.Bytes.{Bytes, to_be_bytes, from_be_bytes}
use pseudoroot.Codec.Sample.{
  number, pair, list, option, via, bytes, codec_total, write_items, read_items, read_list,
  write_option, read_option, regroup, read_pair, read_total, read_number,
}
use pseudoroot.Protocol.{UidGidPayload, new, shutdown, ping, write_framed, read_framed, read_exact}
use pseudoroot.Daemon.{Daemon, handle_client, dispatch_message, dispatch, send_message}
use pseudoroot.Daemon.Server.{
  Server, Action, returned, load_flag, accepted, turn, step, run, handler_turn, drop, run_blocking,
  Socket, started_server, bind_listener, accept_loop,
}
use pseudoroot.Daemon.Shutdown.{
  pending, steps_left, has_ended, is_error, loop_steps, run-NotMore, drop-joins,
}
use pseudoroot.Pdrd
use pseudoroot.Pdrd.{main-stopped}
use pseudoroot.Daemon.Rounds.{handle_client-rounds}
use pseudoroot.Tests.Samples.{dash_map, wincode, tag, untag, bit, unbit, attributes}

abbrev start : Server dash_map
start = started_server 0 0

abbrev stopper : Bytes
stopper = send_message wincode (new shutdown [] 1)

-- two clients, of which the second one stops the daemon, before the loop takes a third
abbrev script : List Action
script =
    load_flag
    ∷ accepted (send_message wincode (new ping [] 1))
    ∷ load_flag
    ∷ accepted stopper
    ∷ turn 0 true
    ∷ turn 0 true
    ∷ load_flag
    ∷ turn 1 true
    ∷ turn 1 true
    ∷ []

abbrev stopped : Server dash_map
stopped = unwrap_or (run wincode script start) start

run-script : run wincode script start ≡ some stopped
unfolding run step accept_loop handler_turn read_framed read_exact write_framed to_be_bytes
    from_be_bytes dispatch_message dispatch number pair list option via bytes codec_total
    write_items read_items read_list write_option read_option regroup read_pair read_total
    read_number tag untag bit unbit attributes
run-script = refl

stopped-stopping : stopped.daemon.stopping ≡ true
unfolding run step accept_loop handler_turn read_framed read_exact write_framed to_be_bytes
    from_be_bytes dispatch_message dispatch number pair list option via bytes codec_total
    write_items read_items read_list write_option read_option regroup read_pair read_total
    read_number tag untag bit unbit attributes
stopped-stopping = refl

-- the loop takes the third client, and no more
abbrev late : List Action
late = accepted [] ∷ load_flag ∷ []

abbrev ended : Server dash_map
ended = unwrap_or (run wincode late stopped) stopped

run-late : run wincode late stopped ≡ some ended
unfolding run step accept_loop handler_turn read_framed read_exact write_framed to_be_bytes
    from_be_bytes dispatch_message dispatch number pair list option via bytes codec_total
    write_items read_items read_list write_option read_option regroup read_pair read_total
    read_number tag untag bit unbit attributes
run-late = refl

run-NotMore_example :
    (ended.daemon.stopping ≡ true)
    × (length ended.handlers + pending ended.loop ≤ length stopped.handlers + pending stopped.loop)
run-NotMore_example = run-NotMore wincode late stopped ended run-late stopped-stopping

abbrev socket : Socket
socket = record { stale = false; bind = true; set_nonblocking = true; remove_file = true }

abbrev told : Server dash_map
told = record start { daemon = record start.daemon { stopping = true } }

drop-joins_example :
    (loop_steps (load_flag ∷ []) + steps_left returned ≤ 2)
    × ((has_ended returned ≡ true)
        ⊎ ((a : Action) × (next : Server dash_map) × (is_error a ≡ false)
            × (loop_steps (a ∷ []) ≡ 1)
            × (step wincode a (record told { loop = returned }) ≡ some next)))
    × (drop wincode socket (load_flag ∷ []) start
        ≡ (if has_ended returned then some (record told { loop = returned }, false) else none))
unfolding step run accept_loop
drop-joins_example =
    drop-joins wincode socket (load_flag ∷ []) start told (record told { loop = returned }) refl
      refl

abbrev pdrd : Pdrd.Host
pdrd = record { set_handler = true; interrupted = false; socket = λ path. socket }

abbrev args : Pdrd.Args
args = record { socket_path = []; uid = 0; gid = 0; cleanup = false }

main-stopped_example :
    (true ≡ true)
    × (((false ≡ true) × (false ≡ true))
        ⊎ ((s : Server dash_map) × (run wincode (script ++ late) (started_server 0 0) ≡ some s)
            × (s.daemon.stopping ≡ true)
            × (false ≡ false)))
unfolding Pdrd.main run_blocking bind_listener run step accept_loop handler_turn read_framed
    read_exact write_framed to_be_bytes from_be_bytes dispatch_message dispatch number pair list
    option via bytes codec_total write_items read_items read_list write_option read_option regroup
    read_pair read_total read_number tag untag bit unbit attributes
main-stopped_example = main-stopped dash_map wincode pdrd args (script ++ late) false refl

handle_client-rounds_example :
    (done : Daemon dash_map × Bytes) × (handle_client wincode 4 1 (7 ∷ 7 ∷ 7 ∷ []) [] start.daemon
      ≡ some done)
    × (handle_client wincode 9 1 (7 ∷ 7 ∷ 7 ∷ []) [] start.daemon ≡ some done)
handle_client-rounds_example =
    handle_client-rounds wincode 4 9 1 (7 ∷ 7 ∷ 7 ∷ []) [] start.daemon (omega arith) (omega arith)

abbrev ids : UidGidPayload
ids = record { uid = 1; gid = 2 }

abbrev others : UidGidPayload
others = record { uid = 3; gid = 4 }
