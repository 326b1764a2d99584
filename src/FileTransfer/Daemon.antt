-- ===== src/FileTransfer/Daemon.antt =====
-- `start_server` of FileTransfer_Proyecto/server.c: the loop that accepts connections and forks, as a
-- step relation on the processes that run it. The system chooses which process moves, which
-- descriptor `accept` gives and whether a call fails.
pub mod Invariant
pub mod Serving
use iteso_codigos.Common.{
  ℕ, ◌≡◌, ◌≢◌, Option, none, some, List, [], ◌∷◌, ◌++◌, if◌then◌else◌, ◌==◌, All,
}
use iteso_codigos.Common.Run.{Run, done, fault}
use iteso_codigos.Device.{Device}

-- Where a process stands: at `accept`, between `accept` and `fork`, in the branch of the child, or
-- ended, by `return 1` or by a crash in the session.
pub data Phase : Type 0 where
  waiting returned crashed : Phase
  connected serving : ℕ → Phase

-- `open` are the descriptors that the process has open besides the server socket.
pub record Process : Type 0 where
  pub phase : Phase
  pub open_fds : List ℕ

-- closeTCPSocket
unfoldable pub close : ℕ → List ℕ → List ℕ
close fd [] = []
close fd (x ∷ fds) = let rest = close fd fds in if x == fd then fds else x ∷ rest

-- What the first process does with the result of newTCPServerSocket4: -1 is `return 1`.
unfoldable pub start : Option ℕ → List Process
start none = record { phase = returned; open_fds = [] } ∷ []
start (some server_socket) = record { phase = waiting; open_fds = [] } ∷ []

-- `session` is `start_protocol`, and `connection` what stands behind a descriptor that was accepted.
module _ (D : Device) (session : D.State → Run D.State) (connection : ℕ → D.State) where
  -- One move of a process, and the processes that are there after it.
  pub data Step : Process → List Process → Type 0 where
    accept_fails :
        {fds : List ℕ}
        → Step
            (record { phase = waiting; open_fds = fds })
            (record { phase = waiting; open_fds = fds } ∷ [])
    accepts :
        {fds : List ℕ} (fd : ℕ)
        → All (λ x. x ≢ fd) fds
        → Step
            (record { phase = waiting; open_fds = fds })
            (record { phase = connected fd; open_fds = fd ∷ fds } ∷ [])
    forks :
        {fd : ℕ} {fds : List ℕ}
        → Step
            (record { phase = connected fd; open_fds = fds })
            (record { phase = waiting; open_fds = close fd fds }
              ∷ record { phase = serving fd; open_fds = fds }
              ∷ [])
    fork_fails :
        {fd : ℕ} {fds : List ℕ}
        → Step
            (record { phase = connected fd; open_fds = fds })
            (record { phase = returned; open_fds = [] } ∷ [])
    -- The child does not leave the loop: it goes on to `accept`.
    serves :
        {fd : ℕ} {fds : List ℕ} (s : D.State)
        → session (connection fd) ≡ done s
        → Step
            (record { phase = serving fd; open_fds = fds })
            (record { phase = waiting; open_fds = close fd fds } ∷ [])
    crashes :
        {fd : ℕ} {fds : List ℕ}
        → session (connection fd) ≡ fault
        → Step
            (record { phase = serving fd; open_fds = fds })
            (record { phase = crashed; open_fds = [] } ∷ [])

  -- The processes that come from the first one.
  pub data Reach (first : List Process) : List Process → Type 0 where
    here : Reach first first
    next :
        (before after : List Process) {ps : List Process} {p : Process}
        → Reach first (before ++ p ∷ after)
        → Step p ps
        → Reach first (before ++ (ps ++ after))
