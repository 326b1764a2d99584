-- ===== src/FileTransfer/Daemon/Serving.antt =====
-- The loop of the server with its own sessions.
use iteso_codigos.Common.{ℕ, ◌<◌, ◌≡◌, refl, List, [], ◌∷◌, ◌++◌, length, replicate, All}
use mathlib.Core.Path.{subst}
use iteso_codigos.Common.Text.{Bytes}
use iteso_codigos.Common.Run.{Run, done}
use iteso_codigos.Device.{Device, IsLawful, IsReliable}
use iteso_codigos.FileTransfer.Files.{FileSystem, IsFaithful}
use iteso_codigos.FileTransfer.Receive.{blank_line}
use iteso_codigos.FileTransfer.Receive.Pattern.{IsCalm}
use iteso_codigos.FileTransfer.Server.{start_protocol}
use iteso_codigos.FileTransfer.Server.Spec.{requests, replies, IsServed}
use iteso_codigos.FileTransfer.Server.Session.{
  Serves, quit_line, start_protocol-Serves, start_protocol_closed,
}
use iteso_codigos.FileTransfer.Daemon.{
  waiting, serving, crashed, Process, accepts, forks, serves, crashes, Reach, here, next,
}
use iteso_codigos.FileTransfer.Daemon.Invariant.{close_own}

-- A process at `accept`.
abbrev pub idle : Process
idle = record { phase = waiting; open_fds = [] }

module _ (D : Device) (session : D.State → Run D.State) (connection : ℕ → D.State) where
  -- The first process accepts a client and forks, whatever other processes there are.
  pub serving_child :
      {first ps : List Process} (fd : ℕ)
      → Reach D session connection first (idle ∷ ps)
      → Reach D session connection first
          (idle ∷ record { phase = serving fd; open_fds = fd ∷ [] } ∷ ps)
  serving_child {first} {ps} fd reached =
      subst
        (λ fds. Reach D session connection first (
          record { phase = waiting; open_fds = fds }
          ∷ record { phase = serving fd; open_fds = fd ∷ [] }
          ∷ ps))
        (close_own fd (fd ∷ []) refl) (next [] ps (next [] ps reached (accepts fd tt)) forks)

  -- A child whose session ends waits for the next client, as the first process does.
  pub child_waits :
      {first ps : List Process} (fd : ℕ) (s : D.State)
      → session (connection fd) ≡ done s
      → Reach D session connection first (idle ∷ ps)
      → Reach D session connection first (idle ∷ idle ∷ ps)
  child_waits {first} {ps} fd s ends reached =
      subst
        (λ fds.
          Reach D session connection first (idle ∷ record { phase = waiting; open_fds = fds } ∷ ps))
        (close_own fd (fd ∷ []) refl)
        (next (idle ∷ []) ps (serving_child fd reached) (serves s ends))

module _ (FS : FileSystem) (F : IsFaithful FS) (D : Device) (L : IsLawful D) (R : IsReliable D)
    (fuel : ℕ) (front : Bytes → Bytes) (calm : IsCalm front) (base : Bytes) (rounds : ℕ)
    (connection : ℕ → D.State) where
  -- A client with the descriptor of its connection: its requests have a specified reply, come within
  -- the fuel and the rounds, and are followed by QUIT.
  abbrev pub IsClient : ℕ × List Bytes → Type 0
  IsClient (fd, rs) =
      All (IsServed FS F base fuel) rs
      × (length rs < rounds)
      × (L.pending (connection fd) ≡ requests FS F base rs ++ (quit_line ++ (blank_line ++ [])))

  -- Its session ends, with all its replies sent.
  abbrev pub IsReplied : ℕ × List Bytes → Type 0
  IsReplied (fd, rs) =
      Serves D L (connection fd) (replies FS F base rs) []
        (start_protocol FS D fuel front base rounds (connection fd))

  -- Over reliable connections: any number of clients, each of which sends requests with a specified
  -- reply, within the fuel and the rounds, and then QUIT. The server can go on from waiting for the
  -- first of them to where the first process waits for the next client, and as many forked processes
  -- wait as well; and each client gets all its replies.
  pub Reach-idle :
      (clients : List (ℕ × List Bytes))
      → 8 < fuel
      → All IsClient clients
      → Reach D
          (start_protocol FS D fuel front base rounds)
          connection
          (idle ∷ [])
          (idle ∷ replicate (length clients) idle)
        × All IsReplied clients
  Reach-idle [] enough _ = (here, tt)
  Reach-idle ((fd, rs) ∷ clients) enough ((served, long, input), others) =
      let session =
        start_protocol-Serves FS F D L R fuel front calm base rs [] rounds (connection fd) served
          enough long input in
      let (reached, replied) = Reach-idle clients enough others in
      (
        child_waits D (start_protocol FS D fuel front base rounds) connection fd session.final
            session.returns reached,
        (session, replied),
      )

  -- A client that hangs up without QUIT takes only the process that was forked for it: the server can
  -- go on to where the first process waits for the next client.
  pub Reach-crashed :
      (rs : List Bytes) (fd : ℕ)
      → All (IsServed FS F base fuel) rs
      → 0 < fuel
      → length rs < rounds
      → L.pending (connection fd) ≡ requests FS F base rs
      → Reach D
          (start_protocol FS D fuel front base rounds)
          connection
          (idle ∷ [])
          (idle ∷ record { phase = crashed; open_fds = [] } ∷ [])
  Reach-crashed rs fd served enough long input =
      next (idle ∷ []) []
        (serving_child D (start_protocol FS D fuel front base rounds) connection fd here)
        (crashes
          (start_protocol_closed FS F D L R fuel front calm base rs rounds (connection fd) served
            enough long input).1)
