-- ===== src/FileTransfer/Daemon/Invariant.antt =====
-- What holds of the processes of the server at any time.
use iteso_codigos.Common.{
  ℕ, ◌+◌, ◌≡◌, refl, ap, Option, none, some, List, [], ◌∷◌, ◌++◌, ==_iff, All, All-append, arith,
}
use iteso_codigos.Common.Run.{Run}
use iteso_codigos.Device.{Device}
use iteso_codigos.FileTransfer.Daemon.{
  Phase, waiting, returned, crashed, connected, serving, Process, close, start, Step, accept_fails,
  accepts, forks, fork_fails, serves, crashes, Reach, here, next,
}

-- A process holds the connection that it works on, and no other.
pub HoldsOwn : Phase → List ℕ → Type 0
HoldsOwn waiting fds = fds ≡ []
HoldsOwn (connected fd) fds = fds ≡ fd ∷ []
HoldsOwn (serving fd) fds = fds ≡ fd ∷ []
HoldsOwn returned fds = fds ≡ []
HoldsOwn crashed fds = fds ≡ []

abbrev pub IsClean : Process → Type 0
IsClean p = HoldsOwn p.phase p.open_fds

pub close_own : (fd : ℕ) (fds : List ℕ) → fds ≡ fd ∷ [] → close fd fds ≡ []
unfolding close
close_own fd fds e = rw (e, close) (rw ((==_iff fd fd).1 refl) refl)

-- The lists of a system, split around the process that moves.
All-middle :
    (P : Process → Type 0) (before after : List Process) (p : Process)
    → All P (before ++ p ∷ after)
    → All P before × P p × All P after
All-middle P [] after p (h, hs) = (tt, h, hs)
All-middle P (q ∷ before) after p (h, hs) =
    let (b, m, a) = All-middle P before after p hs in ((h, b), m, a)

module _ (D : Device) (session : D.State → Run D.State) (connection : ℕ → D.State) where
  Step-IsClean :
      {p : Process} {ps : List Process}
      → Step D session connection p ps
      → IsClean p
      → All IsClean ps
  unfolding HoldsOwn
  Step-IsClean accept_fails h = (h, tt)
  Step-IsClean (accepts fd other) h = (ap (λ (r : List ℕ). fd ∷ r) h, tt)
  Step-IsClean (forks {fd} {fds}) h = (close_own fd fds h, (h, tt))
  Step-IsClean fork_fails h = (refl, tt)
  Step-IsClean (serves {fd} {fds} s e) h = (close_own fd fds h, tt)
  Step-IsClean (crashes e) h = (refl, tt)

  start-IsClean : (server_socket : Option ℕ) → All IsClean (start server_socket)
  unfolding start HoldsOwn
  start-IsClean none = (refl, tt)
  start-IsClean (some server_socket) = (refl, tt)

  -- In whatever order the processes move and whichever calls fail, every process holds the connection
  -- that it works on and no other: a process that waits for a client has none open.
  pub Reach-IsClean :
      (server_socket : Option ℕ) {ps : List Process}
      → Reach D session connection (start server_socket) ps
      → All IsClean ps
  Reach-IsClean server_socket here = start-IsClean server_socket
  Reach-IsClean server_socket (next before after {ps} {p} r step) =
      let (b, m, a) = All-middle IsClean before after p (Reach-IsClean server_socket r) in
      All-append IsClean before (ps ++ after) b
        (All-append IsClean ps after (Step-IsClean step m) a)

-- The processes that have not ended.
unfoldable pub is_live : Phase → ℕ
is_live waiting = 1
is_live (connected fd) = 1
is_live (serving fd) = 1
is_live returned = 0
is_live crashed = 0

unfoldable pub live : List Process → ℕ
live [] = 0
live (p ∷ ps) = is_live p.phase + live ps

live-append : (ps qs : List Process) → live (ps ++ qs) ≡ live ps + live qs
unfolding live
live-append [] qs = omega arith
live-append (p ∷ ps) qs = omega (arith, live-append ps qs)

module _ (D : Device) (session : D.State → Run D.State) (connection : ℕ → D.State) where
  -- The forks that have succeeded, and the processes that have ended.
  unfoldable pub forked : {p : Process} {ps : List Process} → Step D session connection p ps → ℕ
  forked accept_fails = 0
  forked (accepts fd other) = 0
  forked forks = 1
  forked fork_fails = 0
  forked (serves s e) = 0
  forked (crashes e) = 0

  unfoldable pub ended : {p : Process} {ps : List Process} → Step D session connection p ps → ℕ
  ended accept_fails = 0
  ended (accepts fd other) = 0
  ended forks = 0
  ended fork_fails = 1
  ended (serves s e) = 0
  ended (crashes e) = 1

  unfoldable pub all_forked : {first ps : List Process} → Reach D session connection first ps → ℕ
  all_forked here = 0
  all_forked (next before after r step) = forked step + all_forked r

  unfoldable pub all_ended : {first ps : List Process} → Reach D session connection first ps → ℕ
  all_ended here = 0
  all_ended (next before after r step) = ended step + all_ended r

  Step-live :
      {p : Process} {ps : List Process} (step : Step D session connection p ps)
      → live ps + ended step ≡ is_live p.phase + forked step
  unfolding live is_live forked ended
  Step-live accept_fails = refl
  Step-live (accepts fd other) = refl
  Step-live forks = refl
  Step-live fork_fails = refl
  Step-live (serves s e) = refl
  Step-live (crashes e) = refl

  -- On every path of steps, the processes that run now and those that ended on it, by a crash or behind
  -- a fork that failed, are together as many as those that ran at its start and those that were
  -- forked: a child that has served its client to the end stays in the loop.
  pub Reach-live :
      {first ps : List Process} (r : Reach D session connection first ps)
      → live ps + all_ended r ≡ live first + all_forked r
  unfolding all_forked all_ended live
  Reach-live here = refl
  Reach-live (next before after {ps} {p} r step) = omega (
    arith,
    live-append before (ps ++ after),
    live-append ps after,
    live-append before (p ∷ after),
    Step-live step,
    Reach-live r,
  )
