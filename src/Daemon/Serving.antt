-- ===== src/Daemon/Serving.antt =====
-- The requests of one connection, in order.
use pseudoroot.Prelude.{ℕ, zero, suc, ◌<◌, ◌^◌, ◌≡◌, ◌∙◌, some, List, [], ◌∷◌, ◌++◌, arith, length}
use mathlib.Core.List.{append-nil, append_assoc}
use pseudoroot.Prelude.Bytes.{Bytes}
use pseudoroot.State.{DashMap}
use pseudoroot.Protocol.{ProtocolMessage, Wincode, read_framed}
use pseudoroot.Protocol.Framing.{read_framed-short, read_framed-write_framed}
use pseudoroot.Daemon.{Daemon, dispatch_message, send_message, handle_client}

-- the message is below the 4 GiB that a frame can hold
abbrev pub Fits : Wincode → ProtocolMessage → Type 0
Fits w message = length (w.message.to_bytes message) < 2 ^ 32

abbrev pub AllFit : Wincode → List ProtocolMessage → Type 0
AllFit w [] = Unit
AllFit w (m ∷ ms) = Fits w m × AllFit w ms

-- messages as they follow one another on a stream
abbrev pub frames : Wincode → List ProtocolMessage → Bytes
frames w [] = []
frames w (m ∷ ms) = send_message w m ++ frames w ms

module _ {D : DashMap} where
  -- The requests in order: the daemon after them, and the answers.
  abbrev pub answer : Wincode → List ProtocolMessage → Daemon D → Daemon D × List ProtocolMessage
  answer w [] d = (d, [])
  answer w (m ∷ ms) d =
      let turn = dispatch_message w m d in
      let rest = answer w ms turn.0 in (rest.0, turn.1 ∷ rest.1)

  -- one round of the loop
  handle_client-turn :
      (w : Wincode) (m : ProtocolMessage) (rounds left : ℕ) (input output rest : Bytes)
      (d : Daemon D)
      → read_framed input ≡ some (w.message.to_bytes m, rest)
      → handle_client w (suc rounds) (suc left) input output d
        ≡ handle_client w rounds left rest
            (output ++ send_message w (dispatch_message w m d).1)
            (dispatch_message w m d).0
  unfolding handle_client
  handle_client-turn w m rounds left input output rest d e =
      let read = w.message.roundtrip m in rw (e, handle_client) (rw (read, handle_client))

  -- For a client that sends a list of messages that fit in frames, reads every answer and then
  -- closes, handle_client with more rounds than messages answers them in order, one response for
  -- each, and leaves the daemon as the messages leave it one after the other.
  pub handle_client-answer :
      (w : Wincode) (ms : List ProtocolMessage) (rounds : ℕ) (output : Bytes) (d : Daemon D)
      → length ms < rounds
      → AllFit w ms
      → handle_client w rounds (length ms) (frames w ms) output d
        ≡ some ((answer w ms d).0, output ++ frames w (answer w ms d).1)
  handle_client-answer w ms zero output d more fits = absurd (omega arith)
  handle_client-answer w [] (suc rounds) output d more fits =
      let none_left = read_framed-short [] (omega arith) in
      unfold handle_client in rw (none_left, handle_client) (rw append-nil)
  handle_client-answer w (m ∷ ms) (suc rounds) output d more (fit, fits) =
      let turn = dispatch_message w m d in
      handle_client-turn w m rounds (length ms) (frames w (m ∷ ms)) output (frames w ms) d
        (read_framed-write_framed (w.message.to_bytes m) (frames w ms) fit)
      ∙ rw (
        handle_client-answer w ms rounds (output ++ send_message w turn.1) turn.0 (omega arith)
            fits,
        append_assoc,
      )
