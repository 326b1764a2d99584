-- ===== src/FileTransfer/Main/Downloads.antt =====
-- A download by the two programs, from their command lines on.
use iteso_codigos.Common.{
  ℕ, suc, ◌^◌, ◌≤◌, ◌<◌, ◌≡◌, refl, true, false, Option, some, List, [], ◌∷◌, ◌++◌, length,
  length-append, All, arith,
}
use iteso_codigos.Common.Text.{Bytes, codes}
use iteso_codigos.Common.Run.{done}
use iteso_codigos.Device.{Device, IsLawful, IsReliable}
use iteso_codigos.Netlib.{Network, new_server_socket, new_client_socket}
use iteso_codigos.FileTransfer.Receive.{blank_line}
use iteso_codigos.FileTransfer.Receive.Pattern.{IsCalm}
use iteso_codigos.FileTransfer.Files.{FileSystem, IsFaithful}
use iteso_codigos.FileTransfer.Arguments.{Request, ready, defaults, client_arguments}
use iteso_codigos.FileTransfer.Arguments.Laws.{
  Choice, arguments, settings_of, IsAccepted, server_arguments-arguments,
  client_arguments-arguments,
}
use iteso_codigos.FileTransfer.Server.{get_file, start_protocol}
use iteso_codigos.FileTransfer.Server.Spec.{reply, header}
use iteso_codigos.FileTransfer.Server.Session.{Serves}
use iteso_codigos.FileTransfer.Client.{get_text}
use iteso_codigos.FileTransfer.Transfer.{IsName}
use iteso_codigos.FileTransfer.Daemon.{start, Reach, here}
use iteso_codigos.FileTransfer.Daemon.Serving.{idle, child_waits}
use iteso_codigos.FileTransfer.Program.{start_client, download}
use iteso_codigos.FileTransfer.Main.{ran, serve_with, server_main, get_with, client_main}

server_main_steps :
    (N : Network) (serving : List Choice) (fd : ℕ) (n : N.State)
    → All (IsAccepted true) serving
    → (new_server_socket N (codes "0.0.0.0") (settings_of serving defaults).port 5 n).0 ≡ some fd
    → server_main N (arguments serving) n
      ≡ done (ran (idle ∷ [], (settings_of serving defaults).directory))
unfolding server_main serve_with start
server_main_steps N serving fd n accepted listens =
    rw (server_arguments-arguments serving accepted) (rw listens refl)

module _ (N : Network) (C W : Device) (open_write : Bytes → Option W.State)
    (connection : ℕ → C.State) (fuel : ℕ) (front : Bytes → Bytes) where
  client_main_steps :
      (argv : List Bytes) (r : Request) (n : N.State) (x : Option (C.State × Option W.State))
      → client_arguments argv ≡ ready r
      → start_client N C W open_write connection fuel front [] r.settings.port r.ip r.remote r.local
          n
        ≡ done x
      → client_main N C W open_write connection fuel front [] argv n ≡ done (ran x)
  unfolding client_main get_with
  client_main_steps argv r n x e run = rw e (rw run refl)

module _ (FS : FileSystem) (F : IsFaithful FS) (front : Bytes → Bytes) (calm : IsCalm front)
    (fuel : ℕ) (S : Device) (LS : IsLawful S) (RS : IsReliable S) (C : Device) (LC : IsLawful C)
    (RC : IsReliable C) (W : Device) (LW : IsLawful W) (RW : IsReliable W)
    (open_write : Bytes → Option W.State) (N : Network) (outgoing : ℕ → C.State)
    (incoming : ℕ → S.State) (rounds : ℕ) where
  -- The two programs have run, the server as far as both its processes wait for the next client.
  pub record Downloaded (serving argv : List Bytes) (base content : Bytes) (peer : ℕ)
      (reply : Bytes) (n k : N.State) (w : W.State) : Type 0 where
    pub socket : C.State
    pub file : W.State
    pub client_ends :
        client_main N C W open_write outgoing fuel front [] argv n
        ≡ done (ran (some (socket, some file)))
    pub saves : LW.sent file ≡ LW.sent w ++ content
    pub server_starts : server_main N serving k ≡ done (ran (idle ∷ [], base))
    pub server_waits :
        Reach S (start_protocol FS S fuel front base rounds) incoming (idle ∷ []) (idle ∷ idle ∷ [])
    pub session_serves :
        Serves S LS
          (incoming peer)
          reply
          []
          (start_protocol FS S fuel front base rounds (incoming peer))

  -- Two command lines with options that are accepted, the client's with an address and two names that
  -- fit their buffers, over reliable devices, with the memory that the code reads and has not written
  -- zero, or at least not an end of line, for a file of the server's directory below 4 GB whose name
  -- is one token. The server listens, the client connects, and its request comes in at a connection of
  -- the server, with anything behind it. If what the session has sent when it waits for more is what
  -- comes in at the client, and what the client has sent when it ends is what comes in at the server,
  -- then the client ends with exactly the bytes of the file written to the local file; and the server
  -- starts, and can accept that connection, fork, send its reply and go on until both its processes
  -- wait for the next client.
  pub main-Downloaded :
      (serving cs : List Choice) (ip name local later : Bytes) (server_socket fd peer : ℕ)
      (f : FS.File.State) (w : W.State) (n k : N.State)
      → All (IsAccepted true) serving
      → All (IsAccepted false) cs
      → length ip ≤ 18
      → length name ≤ 254
      → length local ≤ 254
      → (new_server_socket N (codes "0.0.0.0") (settings_of serving defaults).port 5 k).0
        ≡ some server_socket
      → (new_client_socket N ip (settings_of cs defaults).port n).0 ≡ some fd
      → IsName name
      → FS.open_read ((settings_of serving defaults).directory ++ name) ≡ some f
      → open_write local ≡ some w
      → length (F.lawful.pending f) < 2 ^ 32
      → length (get_text name) < fuel
      → length (header (FS.size f) ++ F.lawful.pending f) < fuel
      → 1 < rounds
      → LS.pending (incoming peer) ≡ get_text name ++ later
      → ((t : S.State)
          → ((m : ℕ)
              → start_protocol FS S fuel front
                  (settings_of serving defaults).directory
                  (suc m)
                  (incoming peer)
                ≡ start_protocol FS S fuel front (settings_of serving defaults).directory m t)
          → LS.pending t ≡ later
          → LS.sent t ≡ LS.sent (incoming peer) ++ LC.pending (outgoing fd))
      → ((s : C.State) (file : W.State)
          → client_main N C W open_write outgoing fuel front []
              (arguments cs ++ ip ∷ name ∷ local ∷ [])
              n
            ≡ done (ran (some (s, some file)))
          → LC.sent s ≡ LC.sent (outgoing fd) ++ LS.pending (incoming peer))
      → Downloaded
          (arguments serving)
          (arguments cs ++ ip ∷ name ∷ local ∷ [])
          (settings_of serving defaults).directory
          (F.lawful.pending f)
          peer
          (reply FS F (settings_of serving defaults).directory (get_file name))
          n
          k
          w
  main-Downloaded serving cs ip name local later server_socket fd peer f w n k served accepted i r l
        listens connected word found opened small enough fits more asked reaches_client
        reaches_server =
      let base = (settings_of serving defaults).directory in
      let port = (settings_of cs defaults).port in
      let argv = arguments cs ++ ip ∷ name ∷ local ∷ [] in
      let runs : (x : Option (C.State × Option W.State))
          → start_client N C W open_write outgoing fuel front [] port ip name local n ≡ done x
          → client_main N C W open_write outgoing fuel front [] argv n ≡ done (ran x) =
        λ x run.
          client_main_steps N C W open_write outgoing fuel front argv _ n x
            (client_arguments-arguments cs ip name local accepted i r l) run in
      let (s', w', gets, saves, session) =
        download FS F base front calm fuel S LS RS C LC RC W LW RW open_write N outgoing ip name
          local later port fd rounds f w (incoming peer) n connected word found opened small
          (omega (arith, length-append name blank_line)) enough fits more asked reaches_client
          (λ s file run. reaches_server s file (runs (some (s, some file)) run)) in
      record {
        socket = s';
        file = w';
        client_ends = runs (some (s', some w')) gets;
        saves = saves;
        server_starts = server_main_steps N serving server_socket k served listens;
        server_waits =
            child_waits S (start_protocol FS S fuel front base rounds) incoming peer session.final
              session.returns here;
        session_serves = session;
      }
