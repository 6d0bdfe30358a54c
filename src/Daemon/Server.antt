-- ===== src/Daemon/Server.antt =====
-- The accept loop, the handler threads and the socket file of pseudoroot-core/src/daemon_server.rs, as
-- steps that the threads take one at a time: a turn of the accept loop is a load of the flag or an
-- accept, a turn of a handler one access to what the threads share, or the sending of an answer.
use pseudoroot.Prelude.{
  ℕ, zero, suc, Bool, true, false, ◌&&◌, ◌||◌, not, Option, none, some, List, [], ◌∷◌, ◌++◌,
  if◌then◌else◌, ◌>>=◌,
}
use pseudoroot.Prelude.Bytes.{Bytes, codes}
use pseudoroot.State.{DashMap}
use pseudoroot.Protocol.{
  MessageType, set_current_uid_gid, get_current_uid_gid, init, ProtocolMessage, UidGidPayload,
  Wincode, new_response, new_error, read_framed,
}
use pseudoroot.Daemon.{Daemon, new_shared_state, dispatch, send_message}

-- What a handler does next: it reads a request; it stores the gid of a request that has stored its
-- uid; it loads the gid behind the uid that it loaded; or it sends an answer.
pub data Phase : Type 0 where
  reading : Phase
  storing_gid : ℕ → ℕ → Phase
  loading_gid : ℕ → ℕ → Phase
  answering : ProtocolMessage → Phase

-- a handler thread: what its client sends, what the client was sent, whether the loop goes on, and
-- what it does next
pub record Handler : Type 0 where
  pub input : Bytes
  pub output : Bytes
  pub active : Bool
  pub phase : Phase

-- where the accept loop stands
pub data Loop : Type 0 where
  at_flag at_accept returned failed : Loop

pub record Server (D : DashMap) : Type 0 where
  pub daemon : Daemon D
  pub loop : Loop
  pub handlers : List Handler

-- What happens next. An accepted client is left out where its stream cannot be made blocking; a turn
-- of a handler has its number, and says whether the answer can be sent.
pub data Action : Type 0 where
  load_flag would_block not_blocking accept_error drop_session : Action
  accepted : Bytes → Action
  turn : ℕ → Bool → Action

abbrev pub handler_at : List Handler → ℕ → Option Handler
handler_at [] i = none
handler_at (h ∷ handlers) zero = some h
handler_at (h ∷ handlers) (suc i) = handler_at handlers i

abbrev pub put_handler : List Handler → ℕ → Handler → List Handler
put_handler [] i new = []
put_handler (h ∷ handlers) zero new = new ∷ handlers
put_handler (h ∷ handlers) (suc i) new = h ∷ put_handler handlers i new

-- the first store of `set_current`, where the payload can be read
abbrev pub begin_set : {D : DashMap} → Option UidGidPayload → ℕ → Daemon D → Daemon D × Phase
begin_set none id d = (d, answering (new_error id (codes "Invalid UidGidPayload")))
begin_set (some p) id d =
    (record d { state = record d.state { current_uid = p.uid } }, storing_gid p.gid id)

-- the handler of a new client
abbrev pub accepted_client : Bytes → Handler
accepted_client input = record { input = input; output = []; active = true; phase = reading }

module _ {D : DashMap} (w : Wincode) where
  -- the first access of a request: the first store of `set_current`, the first load for the ids, or
  -- the whole of a request that makes one access
  abbrev pub begin : MessageType → Bytes → ℕ → Daemon D → Daemon D × Phase
  begin get_current_uid_gid payload id d = (d, loading_gid d.state.current_uid id)
  begin set_current_uid_gid payload id d = begin_set (w.uid_gid.from_bytes payload) id d
  begin init payload id d = begin_set (w.uid_gid.from_bytes payload) id d
  begin t payload id d = let r = dispatch w t payload id d in (r.0, answering r.1)

  -- one turn of the thread of `handle_client`
  unfoldable pub handler_turn : Bool → Handler → Daemon D → Daemon D × Handler
  handler_turn sent h d = elim h.phase [
    | reading ↦ elim (read_framed h.input) [
      | none ↦ (d, record h { active = false })
      | some frame ↦ elim (w.message.from_bytes frame.0) [
        | none ↦ (d, record h { input = frame.1; active = false })
        | some message ↦
            let begun = begin message.message_type message.payload message.request_id d in
            (begun.0, record h { input = frame.1; phase = begun.1 })
      ]
    ]
    | storing_gid gid id ↦ (
      record d { state = record d.state { current_gid = gid } },
      record h { phase = answering (new_response id []) },
    )
    | loading_gid uid id ↦ (
      d,
      record h {
        phase = answering (
            new_response id (w.uid_gid.to_bytes (record { uid = uid; gid = d.state.current_gid })));
      },
    )
    | answering message ↦
        if sent
        then (d, record h { output = h.output ++ send_message w message; phase = reading })
        else (d, record h { active = false })
  ]

  -- the branches of `listener.accept()`, with the loop's state behind them
  unfoldable pub accept_loop : Action → Server D → Option (Server D)
  accept_loop load_flag s = elim s.loop [
    | at_flag ↦ some (record s { loop = if s.daemon.stopping then returned else at_accept })
    | _ ↦ none
  ]
  accept_loop (accepted input) s = elim s.loop [
    | at_accept ↦
        some (record s { loop = at_flag; handlers = s.handlers ++ accepted_client input ∷ [] })
    | _ ↦ none
  ]
  accept_loop accept_error s = elim s.loop [
    | at_accept ↦ some (record s { loop = failed })
    | _ ↦ none
  ]
  accept_loop a s = elim s.loop [ at_accept ↦ some (record s { loop = at_flag }) | _ ↦ none ]

  -- `none` where the action is not possible
  unfoldable pub step : Action → Server D → Option (Server D)
  unfolding handler_turn accept_loop
  step (turn i sent) s = handler_at s.handlers i >>= λ h.
      let served = handler_turn sent h s.daemon in
      if h.active
      then some (record s { daemon = served.0; handlers = put_handler s.handlers i served.1 })
      else none
  step drop_session s = some (record s { daemon = record s.daemon { stopping = true } })
  step a s = accept_loop a s

  unfoldable pub run : List Action → Server D → Option (Server D)
  unfolding step
  run [] s = some s
  run (a ∷ actions) s = step a s >>= λ next. run actions next

-- What the calls on the socket answer: whether a file is at the path where nothing is bound, and whether
-- the socket's file can be removed in the end.
pub record Socket : Type 0 where
  pub stale : Bool
  pub remove_file : Bool
  pub bind : Bool
  pub set_nonblocking : Bool

-- whether there is a listener, and the socket's file after the call
unfoldable pub bind_listener : Socket → Bool × Bool
bind_listener socket =
    if not socket.bind
    then (false, socket.stale)
    else if not socket.set_nonblocking
    then (false, true)
    else (true, true)

module _ {D : DashMap} where
  abbrev pub started_server : ℕ → ℕ → Server D
  started_server uid gid = record {
    daemon = record { state = new_shared_state uid gid; stopping = false };
    loop = at_flag;
    handlers = [];
  }

  -- the server of `SessionDaemon::start`, if it starts, and the socket's file
  unfoldable pub start : Socket → ℕ → ℕ → Option (Server D) × Bool
  unfolding bind_listener
  start socket uid gid =
      let bound = bind_listener socket in
      (if bound.0 then some (started_server uid gid) else none, bound.1)

  -- what `SessionDaemon::drop` leaves where the loop can be joined
  abbrev pub joined : Socket → Server D → Loop → Option (Server D × Bool)
  joined socket after returned = some (after, not socket.remove_file)
  joined socket after failed = some (after, not socket.remove_file)
  joined socket after _ = none

  -- `SessionDaemon::drop` with the steps that other threads take until the loop is joined: the server
  -- after them, and whether the socket's file is left; `none` where the loop still runs
  unfoldable pub drop : Wincode → Socket → List Action → Server D → Option (Server D × Bool)
  unfolding run
  drop w socket actions s = (step w drop_session s >>= λ told. run w actions told) >>= λ after.
      joined socket after after.loop

-- Whether `accept_loop` returned `Ok`, and whether `run_blocking` leaves the file: where it is not to
-- be removed, or cannot be. `ok` is whether the loop returned `Ok`.
abbrev pub ending : Socket → Bool → Bool → Bool × Bool
ending socket cleanup ok = (ok, not ((cleanup || ok) && socket.remove_file))

abbrev pub outcome : Socket → Bool → Loop → Option (Bool × Bool)
outcome socket cleanup returned = some (ending socket cleanup true)
outcome socket cleanup failed = some (ending socket cleanup false)
outcome socket cleanup _ = none

-- `run_blocking` behind the steps that its threads took: whether it returned `Ok`, and whether the
-- socket's file is left; `none` where the loop still runs or a step is not possible
unfoldable pub run_blocking :
    (D : DashMap) → Wincode → Socket → ℕ → ℕ → Bool → List Action → Option (Bool × Bool)
unfolding run bind_listener
run_blocking D w socket uid gid cleanup actions =
    let bound = bind_listener socket in
    if not bound.0
    then some (false, bound.1)
    else (run {D = D} w actions (started_server uid gid) >>= λ s. outcome socket cleanup s.loop)
