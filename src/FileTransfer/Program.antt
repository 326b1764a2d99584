-- ===== src/FileTransfer/Program.antt =====
-- `start_client` and `get_list` of FileTransfer_Proyecto/client.c, with the sockets that they open, and
-- a download from start to end.
use iteso_codigos.Common.{ℕ, suc, ◌^◌, ◌<◌, ◌≡◌, refl, Option, none, some, [], ◌++◌, length}
use iteso_codigos.Common.Text.{Bytes}
use iteso_codigos.Common.Run.{Run, done, ◌>>=◌}
use iteso_codigos.Device.{Device, IsLawful, IsReliable}
use iteso_codigos.Netlib.{Network, new_client_socket}
use iteso_codigos.FileTransfer.Receive.Pattern.{IsCalm}
use iteso_codigos.FileTransfer.Files.{FileSystem, IsFaithful}
use iteso_codigos.FileTransfer.Server
use iteso_codigos.FileTransfer.Server.{get_file}
use iteso_codigos.FileTransfer.Server.Spec.{reply, header}
use iteso_codigos.FileTransfer.Server.Session.{Serves}
use iteso_codigos.FileTransfer.Client
use iteso_codigos.FileTransfer.Client.{get_text, quit_text}
use iteso_codigos.FileTransfer.Transfer.{IsName}
use iteso_codigos.FileTransfer.Transfer.Found.{conversation}

-- `connection` is what stands behind a descriptor. `none` is `return 1`.
module _ (N : Network) (C W : Device) (open_write : Bytes → Option W.State)
    (connection : ℕ → C.State) (fuel : ℕ) where
  unfoldable pub start_client :
      (Bytes → Bytes)
      → Bytes
      → ℕ
      → Bytes
      → Bytes
      → Bytes
      → N.State
      → Run (Option (C.State × Option W.State))
  start_client front stale port ip remote local n =
      let (fd, _) = new_client_socket N ip port n in
      elim fd [
        | none ↦ done none
        | some socket ↦ do
          r ← Client.start_protocol C W open_write fuel front stale remote local (connection socket)
          done (some r)
      ]

  start_client_steps :
      (front : Bytes → Bytes) (port fd : ℕ) (ip remote local : Bytes) (n : N.State)
      (r : C.State × Option W.State)
      → (new_client_socket N ip port n).0 ≡ some fd
      → Client.start_protocol C W open_write fuel front [] remote local (connection fd) ≡ done r
      → start_client front [] port ip remote local n ≡ done (some r)
  unfolding start_client
  start_client_steps front port fd ip remote local n r connected run =
      rw (connected, start_client) (rw run refl)

-- `get_list`: the text that it prints. `none` is `return 1`.
module _ (N : Network) (C : Device) (connection : ℕ → C.State) (fuel : ℕ) where
  unfoldable pub get_list :
      (Bytes → Bytes) → Bytes → ℕ → Bytes → N.State → Run (Option (Bytes × C.State))
  get_list front stale port ip n =
      let (fd, _) = new_client_socket N ip port n in
      elim fd [
        | none ↦ done none
        | some socket ↦ do r ← Client.get_list C fuel front stale (connection socket); done (some r)
      ]

module _ (FS : FileSystem) (F : IsFaithful FS) (base : Bytes) (front : Bytes → Bytes)
    (calm : IsCalm front) (fuel : ℕ) (S : Device) (LS : IsLawful S) (RS : IsReliable S) (C : Device)
    (LC : IsLawful C) (RC : IsReliable C) (W : Device) (LW : IsLawful W) (RW : IsReliable W)
    (open_write : Bytes → Option W.State) (N : Network) (connection : ℕ → C.State) where
  -- A download from start to end: what `conversation` says of the sessions, with the client's socket
  -- and the whole run of `start_client`.
  pub download :
      (ip name local later : Bytes) (port fd rounds : ℕ) (f : FS.File.State) (w : W.State)
      (t : S.State) (n : N.State)
      → (new_client_socket N ip port n).0 ≡ some fd
      → IsName name
      → FS.open_read (base ++ name) ≡ some f
      → open_write local ≡ some w
      → length (F.lawful.pending f) < 2 ^ 32
      → length (get_text name) < 1024
      → length (get_text name) < fuel
      → length (header (FS.size f) ++ F.lawful.pending f) < fuel
      → 1 < rounds
      → LS.pending t ≡ get_text name ++ later
      → ((t1 : S.State)
          → ((k : ℕ)
              → Server.start_protocol FS S fuel front base (suc k) t
                ≡ Server.start_protocol FS S fuel front base k t1)
          → LS.pending t1 ≡ later
          → LS.sent t1 ≡ LS.sent t ++ LC.pending (connection fd))
      → ((s' : C.State) (w' : W.State)
          → start_client N C W open_write connection fuel front [] port ip name local n
            ≡ done (some (s', some w'))
          → LC.sent s' ≡ LC.sent (connection fd) ++ LS.pending t)
      → (s' : C.State) × (w' : W.State) × (start_client N C W open_write connection fuel front []
            port ip name local n
          ≡ done (some (s', some w')))
        × (LW.sent w' ≡ LW.sent w ++ F.lawful.pending f)
        × Serves S LS t
            (reply FS F base (get_file name))
            []
            (Server.start_protocol FS S fuel front base rounds t)
  download ip name local later port fd rounds f w t n connected word found opened small room enough
        fits more asked reaches_client reaches_server =
      let runs : (r : C.State × Option W.State)
          → Client.start_protocol C W open_write fuel front [] name local (connection fd) ≡ done r
          → start_client N C W open_write connection fuel front [] port ip name local n
            ≡ done (some r) =
        λ r run.
          start_client_steps N C W open_write connection fuel front port fd ip name local n r
            connected run in
      let (serves, gets) =
        conversation FS F base front calm fuel S LS RS C LC RC W LW RW open_write name local later f
          w t (connection fd) rounds word found opened small room enough fits more asked
          reaches_client (λ s' w' run. reaches_server s' w' (runs (s', some w') run)) in
      (gets.socket, gets.file, runs _ gets.returns, gets.saves, serves)
