-- ===== src/SimpleSocket/EchoServer.antt =====
-- `main` of simple_socket/echo_server.c: it serves one client after the other, each until its QUIT.
pub mod Session
pub mod Clients
mod Tests
use iteso_codigos.Common.{
  ℕ, zero, suc, ◌+◌, ◌%◌, ◌^◌, Bool, true, false, ◌||◌, Option, none, some, List, [], ◌∷◌,
  if◌then◌else◌, ltb, ◌==◌,
}
use iteso_codigos.Common.Text.{Bytes, codes, same}
use iteso_codigos.Common.Run.{Run, done, unfinished, ◌>>=◌}
use iteso_codigos.Device.{Device}
use iteso_codigos.Libc.Number.{strtol}
use iteso_codigos.Libc.Search.{string_of}
use iteso_codigos.Netlib.{Network, Address}
use iteso_codigos.Packet.Word.{htons}

abbrev pub quit_text : Bytes
quit_text = codes "QUIT\r\n"

module _ (D : Device) where
  -- do … while(strcmp(mensaje,"QUIT\r\n")!=0). A read that fails or that gives nothing leaves the buffer
  -- empty, and the loop goes on. The result of `write` is only printed.
  unfoldable pub echo_session : ℕ → D.State → Run D.State
  echo_session zero s = unfinished
  echo_session (suc fuel) s =
      let (answer, s') = D.read s 255 in
      elim answer [
        | none ↦ echo_session fuel s'
        | some [] ↦ echo_session fuel s'
        | some (c ∷ b) ↦
            let (_, t) = D.write s' (c ∷ b) in
            let more = echo_session fuel t in
            if same (string_of (c ∷ b)) quit_text then done t else more
      ]

-- Why the program returns -1. The last case has the connections that were served.
pub data Exit (S : Type 0) : Type 0 where
  missing_argument bad_port cannot_bind cannot_listen : Exit S
  cannot_accept : List S → Exit S

-- INADDR_ANY
abbrev pub any_address : ℕ → Address
any_address port = record { ip = 0 ∷ 0 ∷ 0 ∷ 0 ∷ []; port = htons port }

-- `accept` on the descriptor -1 fails.
abbrev pub accept_on : (N : Network) → Option ℕ → N.State → Option (ℕ × Address) × N.State
accept_on N none n = (none, n)
accept_on N (some fd) n = N.accept n fd

-- `connection` is what stands behind the descriptor of the i-th client.
module _ (N : Network) (D : Device) (connection : ℕ → ℕ → D.State) (fuel : ℕ) where
  unfoldable pub accept_loop : ℕ → ℕ → Option ℕ → N.State → Run (List D.State)
  accept_loop zero i fd n = unfinished
  accept_loop (suc rounds) i fd n =
      let (answer, n') = accept_on N fd n in
      elim answer [
        | none ↦ done []
        | some (client, addr) ↦ do
          s ← echo_session D fuel (connection i client)
          rest ← accept_loop rounds (i + 1) fd n'
          done (s ∷ rest)
      ]

  unfoldable pub listen_loop : Option ℕ → N.State → Run (Exit D.State)
  listen_loop fd n =
      let (listens, n') = N.listen n fd 5 in
      let serve : Run (Exit D.State) = (do
        served ← accept_loop fuel 0 fd n'
        done (cannot_accept served)) in
      if listens then serve else done cannot_listen

  -- A failed `socket` is reported, and the program goes on.
  unfoldable pub bind_port : ℕ → N.State → Run (Exit D.State)
  bind_port port n =
      let (fd, n1) = N.socket n in
      let (bound, n2) = N.bind n1 fd (any_address port) in
      let listening = listen_loop fd n2 in if bound then listening else done cannot_bind

  -- The arguments behind the name of the program. The port is a `u_int`.
  unfoldable pub main : List Bytes → N.State → Run (Exit D.State)
  main [] n = done missing_argument
  main (a ∷ b ∷ args) n = done missing_argument
  main (a ∷ []) n =
      let port = strtol a % 2 ^ 32 in
      let run = bind_port port n in if ltb port 1 || ltb 65535 port then done bad_port else run
