-- ===== src/TcpPing/Tests.antt =====
-- A message that comes back over a socket in memory, and command lines of tcp_ping.
use iteso_codigos.Common.{ℕ, ◌≡◌, ◌<◌, refl, some, [], ◌∷◌, ◌++◌, arith}
use iteso_codigos.Common.Text.{codes, same}
use iteso_codigos.Common.Run.{done}
use iteso_codigos.Libc.Search.{strstr}
use iteso_codigos.Libc.Number.{strtol, signed_value, digits_value}
use iteso_codigos.Device.Memory.{Pipe, memory, memory-IsLawful, memory-IsReliable}
use iteso_codigos.FileTransfer.Arguments.{ready}
use iteso_codigos.FileTransfer.Arguments.Starts.{Starts}
use iteso_codigos.TcpPing.{ping_listen}
use iteso_codigos.TcpPing.Listen.{ping_listen-text}
use iteso_codigos.TcpPing.Arguments.{
  client, process_arguments, read_options, kind_of, read_field, number,
}
use iteso_codigos.TcpPing.Arguments.Bounds.{IsInRange, process_arguments-IsInRange}

abbrev hello : Pipe
hello = record { pending = codes "hello" ++ 0 ∷ []; sent = [] }

ping_listen-text_example :
    (n : ℕ) × (s' : Pipe) × (ping_listen (memory 2) 9 hello ≡ done (n, s'))
    × (0 < n)
    × (s'.pending ≡ [])
    × (s'.sent ≡ [] ++ (codes "hello" ++ 0 ∷ []))
ping_listen-text_example =
    ping_listen-text (memory 2) (memory-IsLawful 2) (memory-IsReliable 2) 9 (codes "hello") hello
      (omega arith) refl (omega arith) (omega arith)

process_arguments_run :
    process_arguments
      (codes "-c" ∷ codes "-p" ∷ codes "8080" ∷ codes "-n" ∷ codes "3" ∷ codes "-v" ∷ [])
    ≡ (
      some client,
      ready (record { port = 8080; verbosity = 1; count = 3; size = 64; target = [] }),
    )
unfolding process_arguments read_options kind_of read_field number same strstr strtol signed_value
    digits_value
process_arguments_run = refl

process_arguments-IsInRange_example : Starts IsInRange (
    (process_arguments
      (codes "-c" ∷ codes "-p" ∷ codes "8080" ∷ codes "-d" ∷ codes "10.0.0.1" ∷ [])).1)
process_arguments-IsInRange_example =
    process_arguments-IsInRange
      (codes "-c" ∷ codes "-p" ∷ codes "8080" ∷ codes "-d" ∷ codes "10.0.0.1" ∷ [])
