-- ===== src/FileStream/Program.antt =====
-- `start_server` of file_transfer/server.c, and `start_client` of client.c. What stands behind a
-- descriptor is a parameter: the connection of a socket, also of the descriptor -1, and the files.
pub mod Transfer
use iteso_codigos.Common.{ℕ, Bool, true, false, Option, none, some}
use iteso_codigos.Common.Text.{Bytes}
use iteso_codigos.Common.Run.{Run, done, ◌>>=◌}
use iteso_codigos.Device.{Device}
use iteso_codigos.Libc.Array.{array_string}
use iteso_codigos.Netlib.{Network, Peer, new_server_socket, new_client_socket, wait_connection}
use iteso_codigos.FileStream.Copy.{Clock, current_time_millis, receive_blocks, send_blocks}

-- The descriptor that `waitConnection4` gives; it is not tested.
abbrev pub client_of : Option Peer → Option ℕ
client_of none = none
client_of (some peer) = some peer.client

module _ (N : Network) (D W : Device) (connection : Option ℕ → D.State)
    (create : Bytes → Option W.State) (fuel : ℕ) where
  -- The receiver: the result of the function, and the connection and the file as they are then.
  unfoldable pub start_server :
      Bytes → ℕ → ℕ → Bytes → N.State → Run (Bool × Option (D.State × W.State))
  start_server iface port max_clients filename n =
      let (fd, n') = new_server_socket N iface port max_clients n in
      elim fd [
        | none ↦ done (false, none)
        | some server_socket ↦ elim (create filename) [
          | none ↦ done (false, none)
          | some w ↦
              let (peer, _) = wait_connection N true true server_socket n' in
              do
                r ← receive_blocks D W fuel fuel 0 (connection (client_of peer)) w
                done (true, some r)
        ]
      ]

module _ (N : Network) (F D : Device) (connection : Option ℕ → D.State)
    (open_read : Bytes → Option F.State) (clock : Clock) (stale fuel : ℕ) where
  -- The sender. Its address is an array of 18 bytes. The descriptor of the connection is not tested, and
  -- `stale` is what totalReadBytes holds, plus 2^31.
  unfoldable pub start_client :
      Bytes → ℕ → Bytes → N.State → Run (Bool × Option (F.State × D.State))
  start_client ip port filename n = elim (open_read filename) [
    | none ↦ done (false, none)
    | some f ↦ do
      text ← array_string 18 ip
      let fd = (new_client_socket N text port n).0
      r ← send_blocks F D clock fuel fuel stale 1 (current_time_millis clock 0) f (connection fd)
      done (true, some r)
  ]
