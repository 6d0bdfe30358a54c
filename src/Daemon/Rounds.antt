-- ===== src/Daemon/Rounds.antt =====
-- The loop of handle_client ends, whatever the client sends: each round takes at least the length of
-- a frame from the stream.
use pseudoroot.Prelude.{
  ℕ, zero, suc, ◌+◌, ◌<◌, ◌≡◌, refl, sym, ap, arith, some, ◌++◌, length, length-drop, Option-cases,
  bind-some, if-some, inl, inr, drop, leb→le, leb,
}
use pseudoroot.Prelude.Bytes.{Bytes, from_be_bytes}
use pseudoroot.State.{DashMap}
use pseudoroot.Protocol.{Wincode, read_exact, read_framed}
use pseudoroot.Daemon.{Daemon, dispatch_message, send_message, handle_client}

read_exact-shrinks :
    (n : ℕ) (stream : Bytes) (read : Bytes × Bytes)
    → read_exact n stream ≡ some read
    → length read.1 + n ≡ length stream
unfolding read_exact
read_exact-shrinks n stream read e =
    let (fits, same) = if-some (leb n (length stream)) _ e in
    let enough = leb→le n (length stream) fits in
    let rest : read.1 ≡ drop n stream = ap (λ (p : Bytes × Bytes). p.1) (sym same) in
    rw rest (omega (arith, length-drop n stream))

read_framed-shrinks :
    (stream : Bytes) (frame : Bytes × Bytes)
    → read_framed stream ≡ some frame
    → length frame.1 < length stream
unfolding read_framed
read_framed-shrinks stream frame e =
    let (head, first, body) = bind-some (read_exact 4 stream) _ e in
    let a = read_exact-shrinks 4 stream head first in
    let b = read_exact-shrinks (from_be_bytes head.0) head.1 frame body in omega arith

module _ {D : DashMap} (w : Wincode) where
  -- Whatever the client sends and however many answers it takes, the loop of handle_client ends
  -- within any number of rounds that is greater than the number of bytes on the stream, and with
  -- the same result for all of these numbers.
  pub handle_client-rounds :
      (rounds more room : ℕ) (input output : Bytes) (d : Daemon D)
      → length input < rounds
      → length input < more
      → (ended : Daemon D × Bytes) × (handle_client w rounds room input output d ≡ some ended)
        × (handle_client w more room input output d ≡ some ended)
  unfolding handle_client
  handle_client-rounds zero more room input output d h h' = absurd (omega arith)
  handle_client-rounds (suc rounds) zero room input output d h h' = absurd (omega arith)
  handle_client-rounds (suc rounds) (suc more) room input output d h h' =
      elim (Option-cases (read_framed input)) [
        | inl e ↦ ((d, output), rw (handle_client, e) refl, rw (handle_client, e) refl)
        | inr (frame, e) ↦ elim (Option-cases (w.message.from_bytes frame.0)) [
          | inl invalid ↦ (
            (d, output),
            rw (handle_client, e, invalid) refl,
            rw (handle_client, e, invalid) refl,
          )
          | inr (message, valid) ↦
              let fewer = read_framed-shrinks input frame e in
              let served = dispatch_message w message d in
              elim room
                as (λ r.
                  (ended : Daemon D × Bytes) × (handle_client w (suc rounds) r input output d
                    ≡ some ended)
                  × (handle_client w (suc more) r input output d ≡ some ended)) [
                    | zero ↦ (
                      (served.0, output),
                      rw (handle_client, e, valid) refl,
                      rw (handle_client, e, valid) refl,
                    )
                    | suc (left → _) ↦
                        let (ended, one, two) =
                          handle_client-rounds rounds more left frame.1
                            (output ++ send_message w served.1) served.0 (omega arith)
                            (omega arith) in
                        (ended, rw (handle_client, e, valid) one, rw (handle_client, e, valid) two)
                  ]
        ]
      ]
