-- ===== src/Daemon/Shutdown.antt =====
-- What the accept loop does once the daemon was told to stop.
use pseudoroot.Prelude.{
  ℕ, zero, suc, ◌+◌, ◌≤◌, ◌≡◌, refl, ap, arith, Bool, true, false, none, some, List, [], ◌∷◌,
  length, length-append, Bool-cases, Option, Option-cases, subst, not, if◌then◌else◌, ◌⊎◌,
  bind-some, if-some, inl, inr,
}
use pseudoroot.Prelude.Bytes.{Bytes}
use pseudoroot.State.{DashMap}
use pseudoroot.Protocol.{
  MessageType, ping, set_current_uid_gid, get_current_uid_gid, init, UidGidPayload, Wincode,
  read_framed,
}
use pseudoroot.Daemon.{Daemon, dispatch}
use pseudoroot.Daemon.Server.{
  Handler, reading, storing_gid, loading_gid, answering, begin, begin_set, accepted_client,
  accept_error, Loop, at_flag, at_accept, returned, failed, Server, Action, load_flag, would_block,
  drop_session, accepted, turn, handler_turn, accept_loop, step, run, handler_at, put_handler, drop,
  joined, Socket,
}

-- the clients that the loop may still accept before it loads the flag
abbrev pub pending : Loop → ℕ
pending at_accept = 1
pending _ = 0

length-put_handler :
    (handlers : List Handler) (i : ℕ) (new : Handler)
    → length (put_handler handlers i new) ≡ length handlers
length-put_handler [] i new = refl
length-put_handler (h ∷ handlers) zero new = refl
length-put_handler (h ∷ handlers) (suc i) new = ap suc (length-put_handler handlers i new)

-- the steps that the accept loop still takes once the flag is set
abbrev pub steps_left : Loop → ℕ
steps_left at_accept = 2
steps_left at_flag = 1
steps_left _ = 0

abbrev pub has_ended : Loop → Bool
has_ended returned = true
has_ended failed = true
has_ended _ = false

abbrev pub is_error : Action → Bool
is_error accept_error = true
is_error _ = false

-- the steps of the accept loop among these
abbrev pub loop_steps : List Action → ℕ
loop_steps [] = 0
loop_steps (turn i sent ∷ actions) = loop_steps actions
loop_steps (drop_session ∷ actions) = loop_steps actions
loop_steps (a ∷ actions) = suc (loop_steps actions)

loop_steps-cons :
    (a : Action) (actions : List Action)
    → loop_steps (a ∷ actions) ≡ loop_steps (a ∷ []) + loop_steps actions
loop_steps-cons (turn i sent) actions = omega arith
loop_steps-cons a actions = omega arith

steps_left-most : (l : Loop) → steps_left l ≤ 2
steps_left-most at_accept = omega arith
steps_left-most at_flag = omega arith
steps_left-most l = omega arith

begin_set-stopping :
    {D : DashMap} (p : Option UidGidPayload) (id : ℕ) (d : Daemon D)
    → d.stopping ≡ true
    → (begin_set p id d).0.stopping ≡ true
begin_set-stopping none id d h = h
begin_set-stopping (some p) id d h = h

module _ {D : DashMap} (w : Wincode) where
  abbrev NotMore : Server D → Server D → Type 0
  NotMore s s' =
      (s'.daemon.stopping ≡ true)
      × (length s'.handlers + pending s'.loop ≤ length s.handlers + pending s.loop)

  dispatch-stopping :
      (t : MessageType) (payload : Bytes) (id : ℕ) (d : Daemon D)
      → d.stopping ≡ true
      → (dispatch w t payload id d).0.stopping ≡ true
  unfolding dispatch
  dispatch-stopping ping payload id d h = h
  dispatch-stopping t payload id d h = ground arith

  accept_loop-NotMore :
      (a : Action) (s s' : Server D)
      → accept_loop w a s ≡ some s'
      → s.daemon.stopping ≡ true
      → NotMore s s'
  unfolding accept_loop
  accept_loop-NotMore load_flag s s' e h = ground arith
  accept_loop-NotMore (accepted input) s s' e h =
      let new : Handler = accepted_client input in
      let longer = length-append s.handlers (new ∷ []) in ground arith
  accept_loop-NotMore a s s' e h = ground arith

  begin-stopping :
      (t : MessageType) (payload : Bytes) (id : ℕ) (d : Daemon D)
      → d.stopping ≡ true
      → (begin w t payload id d).0.stopping ≡ true
  unfolding dispatch
  begin-stopping get_current_uid_gid payload id d h = h
  begin-stopping set_current_uid_gid payload id d h = begin_set-stopping _ id d h
  begin-stopping init payload id d h = begin_set-stopping _ id d h
  begin-stopping ping payload id d h = h
  begin-stopping t payload id d h = dispatch-stopping t payload id d h

  pub handler_turn-stopping :
      (sent : Bool) (h : Handler) (d : Daemon D)
      → d.stopping ≡ true
      → (handler_turn w sent h d).0.stopping ≡ true
  unfolding handler_turn
  handler_turn-stopping sent h d stops =
      elim h.phase as (λ ph. (handler_turn w sent (record h { phase = ph }) d).0.stopping ≡ true) [
        | reading ↦ elim (Option-cases (read_framed h.input)) [
          | inl e ↦ rw (handler_turn, e) stops
          | inr (frame, e) ↦ elim (Option-cases (w.message.from_bytes frame.0)) [
            | inl invalid ↦ rw (handler_turn, e, invalid) stops
            | inr (message, valid) ↦
                rw (handler_turn, e, valid)
                  (begin-stopping message.message_type message.payload message.request_id d stops)
          ]
        ]
        | storing_gid gid id ↦ stops
        | loading_gid uid id ↦ stops
        | answering message ↦ elim (Bool-cases sent) [
          | inl went ↦ rw (handler_turn, went) stops
          | inr lost ↦ rw (handler_turn, lost) stops
        ]
      ]

  step-NotMore :
      (a : Action) (s s' : Server D)
      → step w a s ≡ some s'
      → s.daemon.stopping ≡ true
      → NotMore s s'
  unfolding step
  step-NotMore (turn i sent) s s' e h =
      let (old, here, goes) = bind-some (handler_at s.handlers i) _ e in
      let served = handler_turn w sent old s.daemon in
      let (active, same) = if-some old.active _ goes in
      subst (NotMore s) same (
        handler_turn-stopping sent old s.daemon h,
        omega (arith, length-put_handler s.handlers i served.1),
      )
  step-NotMore drop_session s s' e h = ground arith
  step-NotMore a s s' e h = accept_loop-NotMore a s s' e h

  -- Once the flag is set, it stays set whatever steps follow, and the accept loop takes no more
  -- clients than the one that it may have been about to accept.
  pub run-NotMore :
      (actions : List Action) (s s' : Server D)
      → run w actions s ≡ some s'
      → s.daemon.stopping ≡ true
      → (s'.daemon.stopping ≡ true)
        × (length s'.handlers + pending s'.loop ≤ length s.handlers + pending s.loop)
  unfolding run
  run-NotMore [] s s' e h = ground arith
  run-NotMore (a ∷ actions) s s' e h =
      let (next, one, rest) = bind-some (step w a s) (run w actions) e in
      let (stops, fewer) = step-NotMore a s next one h in
      let (still, fewest) = run-NotMore actions next s' rest stops in (still, omega arith)

  -- the loop has returned only where the flag is set
  -- Once the flag is set, each step of the accept loop takes it nearer to its end.
  step-nearer :
      (a : Action) (s s' : Server D)
      → step w a s ≡ some s'
      → s.daemon.stopping ≡ true
      → loop_steps (a ∷ []) + steps_left s'.loop ≤ steps_left s.loop
  unfolding step accept_loop
  step-nearer (turn i sent) s s' e h =
      let (old, here, goes) = bind-some (handler_at s.handlers i) _ e in
      let (active, same) = if-some old.active _ goes in
      subst (λ (n : Server D). 0 + steps_left n.loop ≤ steps_left s.loop) same (omega arith)
  step-nearer drop_session s s' e h = ground arith
  step-nearer a s s' e h = ground arith

  run-nearer :
      (actions : List Action) (s s' : Server D)
      → run w actions s ≡ some s'
      → s.daemon.stopping ≡ true
      → loop_steps actions + steps_left s'.loop ≤ steps_left s.loop
  unfolding run
  run-nearer [] s s' e h = let same = (if-some true s e).1 in rw (← same) (omega arith)
  run-nearer (a ∷ actions) s s' e h =
      let (next, one, rest) = bind-some (step w a s) (run w actions) e in
      let (stops, fewer) = step-NotMore a s next one h in
      let first = step-nearer a s next one h in
      let later = run-nearer actions next s' rest stops in omega (arith, loop_steps-cons a actions)

  GoesOn : Server D → Type 0
  GoesOn s =
      (has_ended s.loop ≡ true)
      ⊎ ((a : Action) × (next : Server D) × (is_error a ≡ false)
          × (loop_steps (a ∷ []) ≡ 1)
          × (step w a s ≡ some next))

  GoesOn-at :
      (d : Daemon D) (handlers : List Handler) (l : Loop)
      → GoesOn (record { daemon = d; loop = l; handlers = handlers })
  unfolding GoesOn step accept_loop
  GoesOn-at d handlers at_flag = inr (load_flag, _, refl, refl, refl)
  GoesOn-at d handlers at_accept = inr (would_block, _, refl, refl, refl)
  GoesOn-at d handlers returned = inl refl
  GoesOn-at d handlers failed = inl refl

  joined-ended :
      (socket : Socket) (after : Server D) (l : Loop)
      → joined socket after l ≡ (if has_ended l then some (after, not socket.remove_file) else none)
  joined-ended socket after returned = refl
  joined-ended socket after failed = refl
  joined-ended socket after at_flag = refl
  joined-ended socket after at_accept = refl

  -- However the threads take their steps once a session is dropped, the accept loop takes at most
  -- two more, and while it has not ended a step of it that is not an error is possible. The drop
  -- is through when it has ended, and the file of the socket is left only where it cannot be
  -- removed.
  pub drop-joins :
      (socket : Socket) (actions : List Action) (s told after : Server D)
      → step w drop_session s ≡ some told
      → run w actions told ≡ some after
      → (loop_steps actions + steps_left after.loop ≤ 2)
        × ((has_ended after.loop ≡ true)
            ⊎ ((a : Action) × (next : Server D) × (is_error a ≡ false)
                × (loop_steps (a ∷ []) ≡ 1)
                × (step w a after ≡ some next)))
        × (drop w socket actions s
            ≡ (if has_ended after.loop then some (after, not socket.remove_file) else none))
  unfolding drop step
  drop-joins socket actions s told after one rest =
      let same : record s { daemon = record s.daemon { stopping = true } } ≡ told =
        (if-some true _ one).1 in
      let stops : told.daemon.stopping ≡ true = rw (← same) refl in
      let few = run-nearer actions told after rest stops in
      let most = steps_left-most told.loop in
      (
        omega arith,
        unfold GoesOn in GoesOn-at after.daemon after.handlers after.loop,
        rw (same, rest) (joined-ended socket after after.loop),
      )
