-- ===== src/Pdrd.antt =====
-- pseudoroot-daemon/src/main.rs: the daemon as a program of its own. The parser of the clap crate is
-- left out: parsed arguments are given.
use pseudoroot.Prelude.{
  ℕ, Bool, ◌≡◌, true, false, ◌&&◌, not, ◌⊎◌, Option, none, some, List, if◌then◌else◌, Bool-cases,
  inl, inr, ◌>>=◌, arith,
}
use pseudoroot.Prelude.Bytes.{Bytes}
use pseudoroot.State.{DashMap}
use pseudoroot.Protocol.{Wincode}
use pseudoroot.Daemon.Server.{Server, Action, Socket, started_server, run, run_blocking}
use pseudoroot.Daemon.Blocking.{run_blocking-stopped}

pub record Args : Type 0 where
  pub socket_path : Bytes
  pub uid : ℕ
  pub gid : ℕ
  pub cleanup : Bool

-- what the calls that leave the program answer, and whether Ctrl+C is pressed before it exits
pub record Host : Type 0 where
  pub set_handler : Bool
  pub interrupted : Bool
  pub socket : Bytes → Socket

abbrev exit_code : Bool → ℕ
exit_code ok = if ok then 0 else 1

abbrev exit_with : Bool × Bool → ℕ × Bool
exit_with result = (exit_code result.0, result.1)

-- The code of the exit behind the steps that the daemon's threads took, and whether the socket's file
-- is left, where the program had come to the socket. The handler of Ctrl+C exits as soon as it runs.
unfoldable pub main : (D : DashMap) → Wincode → Host → Args → List Action → Option (ℕ × Bool)
main D w h args actions =
    let socket = h.socket args.socket_path in
    let served = run_blocking D w socket args.uid args.gid args.cleanup actions in
    if not h.set_handler
    then some (1, socket.stale)
    else if h.interrupted
    then some (0, not (args.cleanup && socket.remove_file))
    else served >>= λ result. some (exit_with result)

returned_ok :
    (served : Option (Bool × Bool)) (left : Bool)
    → (served >>= λ result. some (exit_with result)) ≡ some (0, left)
    → served ≡ some (true, left)
returned_ok none left e = absurd (cc)
returned_ok (some (true, kept)) left e = ground arith
returned_ok (some (false, kept)) left e = absurd (ground arith)

-- Where the standalone daemon exits with 0 behind the steps that its threads took, its handler
-- was set, and there are two ways: Ctrl+C was pressed, and the file of the socket is left unless
-- it is to be removed and can be; or the flag of the server that these steps lead to from the ids
-- of the arguments is set, and the file is left only where it cannot be removed.
pub main-stopped :
    (D : DashMap) (w : Wincode) (h : Host) (args : Args) (actions : List Action) (left : Bool)
    → main D w h args actions ≡ some (0, left)
    → (h.set_handler ≡ true)
      × (((h.interrupted ≡ true)
            × (left ≡ not (args.cleanup && (h.socket args.socket_path).remove_file)))
          ⊎ ((s : Server D) × (run w actions (started_server args.uid args.gid) ≡ some s)
              × (s.daemon.stopping ≡ true)
              × (left ≡ not (h.socket args.socket_path).remove_file)))
unfolding main
main-stopped D w h args actions left e = elim (Bool-cases h.set_handler) [
  | inr unset ↦ absurd (let refused = (rw (unset, main) at e) in ground arith)
  | inl handled ↦ elim (Bool-cases h.interrupted) [
    | inl pressed ↦
        (handled, inl (pressed, let quit = (rw (handled, main, pressed) at e) in ground arith))
    | inr quiet ↦
        let socket = h.socket args.socket_path in
        let served = run_blocking D w socket args.uid args.gid args.cleanup actions in
        let done = returned_ok served left (rw (handled, main, quiet) at e) in
        let (gone, s, ran, stops) =
          run_blocking-stopped D w socket args.uid args.gid args.cleanup left actions done in
        (handled, inr (s, ran, stops, gone))
  ]
]
