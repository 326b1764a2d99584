-- ===== src/SimpleSocket/Hello.antt =====
-- `main` of simple_socket/simple_hello.c: a server that sends each client a text, and the client.
pub mod Talk
mod Tests
use iteso_codigos.Common.{
  ℕ, zero, suc, ◌+◌, ◌-◌, ◌%◌, ◌^◌, Bool, true, false, ◌||◌, Option, none, some, List, [], ◌∷◌,
  ◌++◌, if◌then◌else◌, ltb, ◌==◌, length, drop,
}
use iteso_codigos.Common.Text.{Bytes, codes, same}
use iteso_codigos.Common.Run.{Run, done, fault, unfinished, ◌>>=◌}
use iteso_codigos.Device.{Device}
use iteso_codigos.Libc.Number.{strtol}
use iteso_codigos.Libc.Search.{string_of}
use iteso_codigos.Netlib.{Network, Address}
use iteso_codigos.Packet.Word.{htons}
use iteso_codigos.SimpleSocket.EchoServer.{any_address, accept_on}

-- The array `mensaje`, with its closing zero.
abbrev pub hello_text : Bytes
hello_text = codes "HOLA!" ++ 0 ∷ []

abbrev pub goodbye_text : Bytes
goodbye_text = codes "ADIOS!!!\n"

-- How the program ends: all but the last case are a return of -1. The clients that were served, or the
-- text that the client printed.
pub data Exit (S : Type 0) : Type 0 where
  missing_argument bad_port cannot_bind cannot_listen cannot_connect : Exit S
  cannot_accept : List S → Exit S
  talked : Bytes → S → Exit S

-- The address of the client's peer: the memory was zeroed, and the result of inet_pton is not tested.
abbrev pub peer_address : (N : Network) → Bytes → ℕ → Address
peer_address N ip port = elim (N.inet_pton ip) [
  | none ↦ any_address port
  | some a ↦ record { ip = a; port = htons port }
]

module _ (N : Network) (D : Device) (connection : ℕ → ℕ → D.State) where
  -- One round of the server for each client, until `accept` fails. The result of `write` is only printed.
  unfoldable pub hello_loop : ℕ → ℕ → Option ℕ → N.State → Run (List D.State)
  hello_loop zero i fd n = unfinished
  hello_loop (suc rounds) i fd n =
      let (answer, n') = accept_on N fd n in
      let rest = hello_loop rounds (i + 1) fd n' in
      elim answer [
        | none ↦ done []
        | some (client, addr) ↦ do
          served ← rest
          done ((D.write (connection i client) hello_text).1 ∷ served)
      ]

  unfoldable pub server : ℕ → ℕ → Option ℕ → N.State → Run (Exit D.State)
  server rounds port fd n =
      let (bound, n1) = N.bind n fd (any_address port) in
      let (listens, n2) = N.listen n1 fd 5 in
      let serve : Run (Exit D.State) = (do
        served ← hello_loop rounds 0 fd n2
        done (cannot_accept served)) in
      let listening = if listens then serve else done cannot_listen in
      if bound then listening else done cannot_bind

module _ (N : Network) (D : Device) (connection : Option ℕ → D.State) where
  -- `printf` of the array mensajeIN, which is not initialised: `memory` is what it holds. Without a zero
  -- in it the print leaves the array.
  unfoldable pub read_hello : Bytes → D.State → Run (Exit D.State)
  read_hello memory s =
      let (answer, s') = D.read s 255 in
      let b : Bytes = elim answer [ none ↦ [] | some b ↦ b ] in
      let text = string_of (b ++ drop (length b) memory) in
      if length text == 255 then fault else done (talked text (D.write s' goodbye_text).1)

  unfoldable pub client : Bytes → ℕ → Option ℕ → Bytes → N.State → Run (Exit D.State)
  client memory port fd ip n =
      let (connected, _) = N.connect n fd (peer_address N ip port) in
      let talk = read_hello memory (connection fd) in
      if connected then talk else done cannot_connect

-- `accepted` is what stands behind the descriptor of the i-th client of the server, and `connection`
-- behind the socket of the client. The arguments are those behind the name of the program; the client
-- takes a third one without a test. A failed `socket` is reported, and the program goes on.
module _ (N : Network) (D : Device) (accepted : ℕ → ℕ → D.State) (connection : Option ℕ → D.State)
    (rounds : ℕ) (memory : Bytes) where
  unfoldable pub main : List Bytes → N.State → Run (Exit D.State)
  main [] n = done missing_argument
  main (mode ∷ []) n = done missing_argument
  main (mode ∷ a ∷ more) n =
      let port = strtol a % 2 ^ 32 in
      let (fd, n') = N.socket n in
      let serve = server N D accepted rounds port fd n' in
      let talk : Run (Exit D.State) = elim more [
        | [] ↦ fault
        | ip ∷ _ ↦ client N D connection memory port fd ip n'
      ] in
      let run = if same mode (codes "-s") then serve else talk in
      if ltb port 1 || ltb 65535 port then done bad_port else run
