-- ===== src/TcpPing/Program.antt =====
-- `start_client` of tcp_ping/client.c and `start_server` of tcp_ping/server.c. What stands behind the
-- descriptor of the i-th connection is a parameter, also behind the descriptor -1, which neither
-- program tests for.
pub mod Echoes
pub mod Pings
mod Tests
use iteso_codigos.Common.{
  ℕ, zero, suc, ◌+◌, ◌-◌, ◌*◌, ◌%◌, ◌^◌, Bool, true, false, Option, none, some, List, [], ◌∷◌,
}
use iteso_codigos.Common.Text.{Bytes}
use iteso_codigos.Common.Run.{Run, done, ◌>>=◌}
use iteso_codigos.Device.{Device}
use iteso_codigos.Netlib.{Network, new_server_socket, new_client_socket, wait_connection}
use iteso_codigos.FileStream.Copy.{Clock, current_time_millis}
use iteso_codigos.FileStream.Program.{client_of}
use iteso_codigos.TcpPing.{ping_listen}
use iteso_codigos.TcpPing.Send.{ping_send}

-- A line that the client prints: the number of the message, and the time of a success.
pub data Report : Type 0 where
  pong : ℕ → ℕ → Report
  ping_error : ℕ → Report

abbrev pub report : Bool → ℕ → ℕ → Report
report true i time = pong i time
report false i time = ping_error i

-- end-start, as an `unsigned long`. The clock is read twice for each message.
unfoldable pub elapsed : Clock → ℕ → ℕ
elapsed clock i =
    (current_time_millis clock (2 * i + 1) + 2 ^ 64 - current_time_millis clock (2 * i)) % 2 ^ 64

-- The lines alone.
abbrev pub lines_of : {S : Type 0} → List (Report × S) → List Report
lines_of [] = []
lines_of ((line, s) ∷ rest) = line ∷ lines_of rest

module _ (N : Network) (D : Device) (connection : ℕ → Option ℕ → D.State) (fuel : ℕ) where
  -- The loop of the client, with `count` messages left. Each goes over a connection of its own, which
  -- the result holds beside the line, as it is when it is closed.
  unfoldable pub send_pings :
      Clock → Bytes → ℕ → ℕ → ℕ → ℕ → N.State → Run (List (Report × D.State))
  send_pings clock ip port msg_size zero i n = done []
  send_pings clock ip port msg_size (suc count) i n =
      let (fd, n') = new_client_socket N ip port n in
      do
        r ← ping_send D fuel msg_size (connection i fd)
        rest ← send_pings clock ip port msg_size count (i + 1) n'
        done ((report (r.0) i (elapsed clock i), r.1) ∷ rest)

  abbrev pub start_client : Clock → Bytes → ℕ → ℕ → ℕ → N.State → Run (List (Report × D.State))
  start_client clock ip port msg_count msg_size n = send_pings clock ip port msg_size msg_count 0 n

  -- The first `rounds` rounds of the loop of the server, which does not end. The result are the
  -- connections as they are when they are closed.
  unfoldable pub serve_clients : ℕ → ℕ → ℕ → N.State → Run (List D.State)
  serve_clients server_socket zero i n = done []
  serve_clients server_socket (suc rounds) i n =
      let (peer, n') = wait_connection N true true server_socket n in
      do
        r ← ping_listen D fuel (connection i (client_of peer))
        rest ← serve_clients server_socket rounds (i + 1) n'
        done (r.1 ∷ rest)

  -- `none` is `return 1`.
  unfoldable pub start_server : Bytes → ℕ → ℕ → ℕ → N.State → Run (Option (List D.State))
  start_server iface port max_clients rounds n =
      let (fd, n') = new_server_socket N iface port max_clients n in
      elim fd [
        | none ↦ done none
        | some server_socket ↦ do
          served ← serve_clients server_socket rounds 0 n'
          done (some served)
      ]
