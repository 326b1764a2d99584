-- ===== src/FileTransfer/Tests/Processes.antt =====
-- The processes of the server in runs with one client.
use iteso_codigos.Common.{ℕ, ◌+◌, ◌≡◌, refl, some, List, [], ◌∷◌, All, arith}
use iteso_codigos.Common.Text.{Bytes, codes, same}
use iteso_codigos.Libc.Number.{print_u, decimal}
use iteso_codigos.Libc.Search.{strtok, span}
use iteso_codigos.Device.Memory.{Pipe, memory, memory-IsLawful, memory-IsReliable}
use iteso_codigos.FileTransfer.Server.{start_protocol, parse_command, word_command, get_command}
use iteso_codigos.FileTransfer.Server.Spec.{reply, get_reply, requests, IsServed}
use iteso_codigos.FileTransfer.Tests.{disk, disk-IsFaithful, zeros, zeros-IsCalm, base}
use iteso_codigos.FileTransfer.Daemon.{
  Reach, here, next, start, accepts, forks, waiting, serving, close,
}
use iteso_codigos.FileTransfer.Daemon.Invariant.{
  IsClean, Reach-IsClean, Reach-live, live, is_live, all_ended, all_forked, forked, ended,
}
use iteso_codigos.FileTransfer.Daemon.Serving.{idle, IsReplied, Reach-idle}

-- Every client asks for the same file and quits.
abbrev connection : ℕ → Pipe
connection fd = record { pending = codes "GET a\r\n\r\nQUIT\r\n\r\n"; sent = [] }

get_a-IsServed : IsServed disk disk-IsFaithful base 99 (codes "GET a")
unfolding parse_command word_command get_command strtok span same reply get_reply print_u decimal
get_a-IsServed = ((cc, omega arith), tt, omega arith, omega arith)

abbrev two_clients : List (ℕ × List Bytes)
two_clients = (4, codes "GET a" ∷ []) ∷ (5, codes "GET a" ∷ []) ∷ []

Reach-idle_example :
    Reach
      (memory 0)
      (start_protocol disk (memory 0) 99 zeros base 2)
      connection
      (idle ∷ [])
      (idle ∷ idle ∷ idle ∷ [])
    × All
        (IsReplied disk disk-IsFaithful
          (memory 0)
          (memory-IsLawful 0)
          (memory-IsReliable 0)
          99
          zeros
          zeros-IsCalm
          base
          2
          connection)
        two_clients
unfolding requests
Reach-idle_example =
    Reach-idle disk disk-IsFaithful (memory 0) (memory-IsLawful 0) (memory-IsReliable 0) 99 zeros
      zeros-IsCalm base 2 connection two_clients (omega arith)
      (((get_a-IsServed, tt), omega arith, refl), (((get_a-IsServed, tt), omega arith, refl), tt))

-- A client is accepted, and a process forked for it.
abbrev one_client :
    Reach (memory 0) (start_protocol disk (memory 0) 99 zeros base 2) connection (idle ∷ []) (
      record { phase = waiting; open_fds = close 4 (4 ∷ []) }
      ∷ record { phase = serving 4; open_fds = 4 ∷ [] }
      ∷ [])
one_client = next [] [] (next [] [] here (accepts 4 tt)) forks

Reach-IsClean_example : All IsClean (
    record { phase = waiting; open_fds = close 4 (4 ∷ []) }
    ∷ record { phase = serving 4; open_fds = 4 ∷ [] }
    ∷ [])
unfolding start
Reach-IsClean_example =
    Reach-IsClean (memory 0) (start_protocol disk (memory 0) 99 zeros base 2) connection (some 3)
      one_client

Reach-live_example :
    live (
        record { phase = waiting; open_fds = close 4 (4 ∷ []) }
        ∷ record { phase = serving 4; open_fds = 4 ∷ [] }
        ∷ [])
      + 0
    ≡ 1 + 1
unfolding live is_live all_ended all_forked forked ended
Reach-live_example =
    Reach-live (memory 0) (start_protocol disk (memory 0) 99 zeros base 2) connection one_client
