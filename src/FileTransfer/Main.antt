-- ===== src/FileTransfer/Main.antt =====
-- `main` of FileTransfer_Proyecto/main_server.c, main_client.c and main_list.c: the command line, and
-- then the program. The result of the program is not used.
pub mod Downloads
pub mod Lists
use iteso_codigos.Common.{ℕ, Option, List, [], ◌∷◌}
use iteso_codigos.Common.Text.{Bytes, codes}
use iteso_codigos.Common.Run.{Run, done, fault, ◌>>=◌}
use iteso_codigos.Device.{Device}
use iteso_codigos.Netlib.{Network, new_server_socket}
use iteso_codigos.FileTransfer.Arguments.{
  Settings, Outcome, ready, helped, refused, null_pointer, Request, server_arguments,
  client_arguments, list_arguments,
}
use iteso_codigos.FileTransfer.Daemon.{Process, start}
use iteso_codigos.FileTransfer.Program.{start_client, get_list}

-- The return of -1, or the end of `main`.
pub data Exit (A : Type 0) : Type 0 where
  not_started : Exit A
  ran : A → Exit A

module _ (N : Network) where
  -- start_server(port,baseDir): the processes in front of its loop, and the directory of the sessions.
  unfoldable pub serve_with :
      Outcome (Settings × List Bytes) → N.State → Run (Exit (List Process × Bytes))
  serve_with (ready (s, _)) n =
      done (ran (start (new_server_socket N (codes "0.0.0.0") s.port 5 n).0, s.directory))
  serve_with (helped (s, _)) n =
      done (ran (start (new_server_socket N (codes "0.0.0.0") s.port 5 n).0, s.directory))
  serve_with refused n = done not_started
  serve_with null_pointer n = fault

  unfoldable pub server_main : List Bytes → N.State → Run (Exit (List Process × Bytes))
  server_main argv n = serve_with (server_arguments argv) n

module _ (N : Network) (C W : Device) (open_write : Bytes → Option W.State)
    (connection : ℕ → C.State) (fuel : ℕ) (front : Bytes → Bytes) (stale : Bytes) where
  unfoldable pub get_with :
      Outcome Request → N.State → Run (Exit (Option (C.State × Option W.State)))
  get_with (ready r) n = do
    x ←
        start_client N C W open_write connection fuel front stale r.settings.port r.ip r.remote
          r.local n
    done (ran x)
  get_with (helped r) n = do
    x ←
        start_client N C W open_write connection fuel front stale r.settings.port r.ip r.remote
          r.local n
    done (ran x)
  get_with refused n = done not_started
  get_with null_pointer n = fault

  unfoldable pub client_main : List Bytes → N.State → Run (Exit (Option (C.State × Option W.State)))
  client_main argv n = get_with (client_arguments argv) n

module _ (N : Network) (C : Device) (connection : ℕ → C.State) (fuel : ℕ) (front : Bytes → Bytes)
    (stale : Bytes) where
  unfoldable pub list_with :
      Outcome (Settings × Bytes) → N.State → Run (Exit (Option (Bytes × C.State)))
  list_with (ready (s, ip)) n = do
    x ← get_list N C connection fuel front stale s.port ip n
    done (ran x)
  list_with (helped (s, ip)) n = do
    x ← get_list N C connection fuel front stale s.port ip n
    done (ran x)
  list_with refused n = done not_started
  list_with null_pointer n = fault

  unfoldable pub list_main : List Bytes → N.State → Run (Exit (Option (Bytes × C.State)))
  list_main argv n = list_with (list_arguments argv) n
