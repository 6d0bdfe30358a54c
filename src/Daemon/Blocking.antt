-- ===== src/Daemon/Blocking.antt =====
-- What is true where run_blocking returns.
use pseudoroot.Prelude.{
  ℕ, ◌≡◌, refl, arith, Bool, true, false, some, List, [], ◌∷◌, Bool-cases, subst, not, bind-some,
  if-some, inl, inr,
}
use pseudoroot.State.{DashMap}
use pseudoroot.Protocol.{Wincode}
use pseudoroot.Daemon.Server.{
  Loop, at_flag, at_accept, returned, failed, Server, Action, load_flag, turn, accept_loop, step,
  run, handler_at, run_blocking, outcome, Socket, started_server, bind_listener,
}
use pseudoroot.Daemon.Shutdown.{handler_turn-stopping}

module _ {D : DashMap} (w : Wincode) where
  abbrev IsStopped : Server D → Type 0
  IsStopped s = s.loop ≡ returned → s.daemon.stopping ≡ true

  step-IsStopped :
      (a : Action) (s s' : Server D) → step w a s ≡ some s' → IsStopped s → IsStopped s'
  unfolding step accept_loop
  step-IsStopped (turn i sent) s s' e h =
      let (old, here, goes) = bind-some (handler_at s.handlers i) _ e in
      let (active, same) = if-some old.active _ goes in
      subst IsStopped same (λ back. handler_turn-stopping w sent old s.daemon (h back))
  step-IsStopped load_flag s s' e h = λ back. ground arith
  step-IsStopped a s s' e h = λ back. ground arith

  run-IsStopped :
      (actions : List Action) (s s' : Server D)
      → run w actions s ≡ some s'
      → IsStopped s
      → IsStopped s'
  unfolding run
  run-IsStopped [] s s' e h = subst IsStopped (if-some true s e).1 h
  run-IsStopped (a ∷ actions) s s' e h =
      let (next, one, rest) = bind-some (step w a s) (run w actions) e in
      run-IsStopped actions next s' rest (step-IsStopped a s next one h)

outcome-returned :
    (socket : Socket) (cleanup left : Bool) (l : Loop)
    → outcome socket cleanup l ≡ some (true, left)
    → (left ≡ not socket.remove_file) × (l ≡ returned)
outcome-returned socket true left returned e = (ground arith, refl)
outcome-returned socket false left returned e = (ground arith, refl)
outcome-returned socket cleanup left failed e = absurd (ground arith)
outcome-returned socket cleanup left at_flag e = absurd (cc)
outcome-returned socket cleanup left at_accept e = absurd (cc)

-- Where run_blocking returns Ok, the flag of the daemon is set, and the file of the socket is left
-- only where it cannot be removed.
pub run_blocking-stopped :
    (D : DashMap) (w : Wincode) (socket : Socket) (uid gid : ℕ) (cleanup left : Bool)
    (actions : List Action)
    → run_blocking D w socket uid gid cleanup actions ≡ some (true, left)
    → (left ≡ not socket.remove_file)
      × (s : Server D) × (run w actions (started_server uid gid) ≡ some s)
      × (s.daemon.stopping ≡ true)
unfolding run_blocking
run_blocking-stopped D w socket uid gid cleanup left actions e =
    elim (Bool-cases (bind_listener socket).0) [
      | inr unbound ↦ absurd (let refused = (rw (unbound, run_blocking) at e) in ground arith)
      | inl bound ↦
          let (s, ran, ended) =
            bind-some (run {D = D} w actions (started_server uid gid)) _
              (rw (bound, run_blocking) at e) in
          let (gone, back) = outcome-returned socket cleanup left s.loop ended in
          let start : IsStopped w (started_server {D = D} uid gid) = λ e. absurd (cc) in
          (gone, s, ran, run-IsStopped w actions (started_server uid gid) s ran start back)
    ]
