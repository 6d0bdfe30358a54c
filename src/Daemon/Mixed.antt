-- ===== src/Daemon/Mixed.antt =====
-- A request over the steps that its handler takes, and two clients that set the ids at once.
use pseudoroot.Prelude.{
  ℕ, zero, suc, ◌≤◌, ◌≡◌, refl, ap, ◌∙◌, arith, true, some, [], ◌∷◌, ◌++◌, Option-cases, inl, inr,
}
use pseudoroot.Prelude.Bytes.{Bytes}
use pseudoroot.State.{DashMap, set_current}
use pseudoroot.Protocol.{
  MessageType, ProtocolMessage, set_current_uid_gid, get_current_uid_gid, init, UidGidPayload,
  Wincode, new, read_framed,
}
use pseudoroot.Daemon.{Daemon, dispatch_message, dispatch, send_message}
use pseudoroot.Daemon.Server.{
  Handler, Server, Loop, storing_gid, reading, begin, handler_turn, accepted_client,
}

-- turns of one handler with no other step between them
abbrev turns : {D : DashMap} → Wincode → ℕ → Daemon D × Handler → Daemon D × Handler
turns w zero r = r
turns w (suc n) r = turns w n (handler_turn w true r.1 r.0)

-- The turns behind the first one of a request, for each of its kinds: the state that dispatch
-- leaves, and its answer sent.
begun-dispatch :
    {D : DashMap} (w : Wincode) (t : MessageType) (payload : Bytes) (id : ℕ) (h : Handler)
    (d : Daemon D)
    → (n : ℕ) × (n ≤ 2)
      × (turns w n ((begin w t payload id d).0, record h { phase = (begin w t payload id d).1 }) ≡ (
        (dispatch w t payload id d).0,
        record h {
          output = h.output ++ send_message w (dispatch w t payload id d).1;
          phase = reading;
        },
      ))
unfolding handler_turn dispatch set_current
begun-dispatch w get_current_uid_gid payload id h d = (2, omega arith, refl)
begun-dispatch w set_current_uid_gid payload id h d =
    elim (Option-cases (w.uid_gid.from_bytes payload)) [
      | inl e ↦ (1, omega arith, rw (e, dispatch) refl)
      | inr (p, e) ↦ (2, omega arith, rw (e, dispatch) refl)
    ]
begun-dispatch w init payload id h d = elim (Option-cases (w.uid_gid.from_bytes payload)) [
  | inl e ↦ (1, omega arith, rw (e, dispatch) refl)
  | inr (p, e) ↦ (2, omega arith, rw (e, dispatch) refl)
]
begun-dispatch w t payload id h d = (1, omega arith, refl)

handler_turn-reading :
    {D : DashMap} (w : Wincode) (h : Handler) (d : Daemon D) (frame : Bytes × Bytes)
    (message : ProtocolMessage)
    → h.phase ≡ reading
    → read_framed h.input ≡ some frame
    → w.message.from_bytes frame.0 ≡ some message
    → handler_turn w true h d ≡ (
        let begun = begin w message.message_type message.payload message.request_id d in
        (begun.0, record h { input = frame.1; phase = begun.1 }))
unfolding handler_turn
handler_turn-reading w h d frame message reads whole valid = rw (reads, handler_turn, whole, valid)

-- A request that a handler reads, and that no other step interrupts, is served within three turns of
-- the handler: what is left is what dispatch_message leaves, with its answer sent.
turns-dispatch_message :
    {D : DashMap} (w : Wincode) (h : Handler) (d : Daemon D) (frame : Bytes × Bytes)
    (message : ProtocolMessage)
    → h.phase ≡ reading
    → read_framed h.input ≡ some frame
    → w.message.from_bytes frame.0 ≡ some message
    → (n : ℕ) × (n ≤ 3)
      × (turns w n (d, h) ≡ (
        (dispatch_message w message d).0,
        record h {
          input = frame.1;
          output = h.output ++ send_message w (dispatch_message w message d).1;
          phase = reading;
        },
      ))
unfolding handler_turn dispatch_message
turns-dispatch_message w h d frame message reads whole valid =
    let (n, few, same) =
      begun-dispatch w message.message_type message.payload message.request_id
        (record h { input = frame.1 }) d in
    (
      suc n,
      omega arith,
      ap (turns w n) (handler_turn-reading w h d frame message reads whole valid) ∙ same,
    )

-- the request that sets these ids
abbrev pub set_request : Wincode → UidGidPayload → ℕ → ProtocolMessage
set_request w p id = new set_current_uid_gid (w.uid_gid.to_bytes p) id

-- two clients, each of which has sent one request
abbrev pub two_clients :
    {D : DashMap} → Wincode → ProtocolMessage → ProtocolMessage → Loop → Daemon D → Server D
two_clients w one two l d = record {
  daemon = d;
  loop = l;
  handlers = accepted_client (send_message w one) ∷ accepted_client (send_message w two) ∷ [];
}

-- the handler that has stored the uid
abbrev stored_uid : ℕ → ℕ → Handler
stored_uid gid id = record (accepted_client []) { phase = storing_gid gid id }
