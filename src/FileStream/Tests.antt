-- ===== src/FileStream/Tests.antt =====
-- A file that is sent and received in memory, and command lines of file_transfer.
use iteso_codigos.Common.{
  ◌%◌, ◌^◌, ◌≡◌, refl, sym, ap, true, Option, none, some, List, [], ◌∷◌, ◌++◌, arith, if◌then◌else◌,
}
use iteso_codigos.Common.Text.{Bytes, codes, same}
use iteso_codigos.Common.Run.{Run, done, fault, unfinished}
use iteso_codigos.Libc.Array.{array_string}
use iteso_codigos.Libc.Search.{strstr}
use iteso_codigos.Libc.Number.{strtol, signed_value, digits_value}
use iteso_codigos.Device.Memory.{Pipe, memory, memory-IsLawful, memory-IsReliable}
use iteso_codigos.Netlib.Memory.{loopback}
use iteso_codigos.Netlib.{
  build_address, listen_on, bind_to, new_server_socket, connect_to, new_client_socket,
  wait_connection,
}
use iteso_codigos.Packet.Word.{htons}
use iteso_codigos.FileTransfer.Arguments.{ready, null_pointer}
use iteso_codigos.FileTransfer.Arguments.Starts.{Starts}
use iteso_codigos.FileStream.Copy.{Clock, current_time_millis, write_block, send_blocks}
use iteso_codigos.FileStream.Copy.Sends.{Ticks, send_blocks_same_time}
use iteso_codigos.FileStream.Program.{start_client}
use iteso_codigos.FileStream.Start.{
  Ending, not_started, received, transmitted, run_mode, started, start,
}
use iteso_codigos.FileStream.Start.Arrives.{start-file_arrives}
use iteso_codigos.FileStream.Arguments.{
  defaults, server, client, process_arguments, read_options, kind_of, read_port, read_field,
}
use iteso_codigos.FileStream.Arguments.Bounds.{Fits, process_arguments-Fits}

-- A clock that counts seconds, and one that stands still.
abbrev seconds : Clock
seconds n = (n % 2, 0)

abbrev stopped : Clock
stopped n = (0, 0)

seconds-Ticks : Ticks seconds
unfolding Ticks current_time_millis
seconds-Ticks n = omega arith

abbrev pipe : Bytes → Pipe
pipe b = record { pending = b; sent = [] }

abbrev open_source : Bytes → Option Pipe
open_source name = if same name (codes "a") then some (pipe (codes "hello")) else none

-- What the connection of a sender that has returned has sent.
abbrev sent_by : Run (Ending Pipe Pipe Pipe) → Bytes
sent_by (done (transmitted (_, some (_, s)))) = s.sent
sent_by (done (transmitted (_, none))) = []
sent_by (done (received _)) = []
sent_by (done not_started) = []
sent_by fault = []
sent_by unfinished = []

abbrev receiving : List Bytes
receiving = codes "-r" ∷ codes "-v" ∷ codes "b" ∷ []

abbrev sending : List Bytes
sending = codes "-t" ∷ codes "-d" ∷ codes "127.0.0.1" ∷ codes "a" ∷ []

client_sends :
    (f' s' : Pipe)
    → start loopback
        (memory 1)
        (memory 2)
        (memory 0)
        (λ fd. pipe [])
        open_source
        (λ name. some (pipe []))
        seconds
        (2 ^ 31)
        9
        sending
        7
      ≡ done (transmitted (true, some (f', s')))
    → s'.sent ≡ [] ++ codes "hello"
unfolding start started run_mode start_client array_string new_client_socket build_address
    connect_to send_blocks write_block current_time_millis same process_arguments read_options
    kind_of read_field strstr
client_sends f' s' e = sym (ap sent_by e)

start-file_arrives_example :
    (f' : Pipe) × (s' : Pipe) × (t' : Pipe) × (w' : Pipe) × (start loopback
        (memory 1)
        (memory 2)
        (memory 0)
        (λ fd. pipe [])
        open_source
        (λ name. some (pipe []))
        seconds
        (2 ^ 31)
        9
        sending
        7
      ≡ done (transmitted (true, some (f', s'))))
    × (start loopback
          (memory 1)
          (memory 3)
          (memory 0)
          (λ fd. pipe (codes "hello"))
          open_source
          (λ name. some (pipe []))
          seconds
          (2 ^ 31)
          9
          receiving
          3
        ≡ done (received (true, some (t', w'))))
    × (s'.sent ≡ codes "hello")
    × (w'.sent ≡ [] ++ codes "hello")
unfolding new_server_socket new_client_socket build_address bind_to listen_on connect_to
    wait_connection same htons process_arguments read_options kind_of read_field strstr
start-file_arrives_example =
    start-file_arrives loopback (memory 1) (memory-IsLawful 1) (memory-IsReliable 1) (memory 0)
      (memory-IsLawful 0) (memory-IsReliable 0) (memory 2) (memory-IsLawful 2) (memory-IsReliable 2)
      (memory 3) (memory-IsLawful 3) (memory-IsReliable 3) seconds open_source
      (λ name. some (pipe [])) (λ fd. pipe []) (λ fd. pipe (codes "hello")) (2 ^ 31) 9 receiving
      sending (record defaults { filename = codes "b" })
      (record defaults { target = codes "127.0.0.1"; filename = codes "a" }) 3 7 3 7
      (record { client = 4; client_ip = some (codes "127.0.0.1"); client_port = some 0 })
      (pipe (codes "hello")) (pipe []) refl refl seconds-Ticks refl refl refl refl refl
      (omega arith) (omega arith) (omega arith) (omega arith) client_sends refl

send_blocks_same_time_example :
    send_blocks
      (memory 1)
      (memory 2)
      stopped
      9
      9
      (2 ^ 31)
      1
      (current_time_millis stopped 0)
      (pipe (codes "hello"))
      (pipe [])
    ≡ fault
unfolding current_time_millis
send_blocks_same_time_example =
    send_blocks_same_time (memory 1) (memory 2) stopped 9 (memory-IsLawful 1) (memory-IsReliable 1)
      (memory-IsLawful 2) (memory-IsReliable 2) 8 (2 ^ 31) 0 (pipe (codes "hello")) (pipe []) (cc)
      refl (omega arith)

command_line :
    process_arguments
      (codes "-t" ∷ codes "-p" ∷ codes "8080" ∷ codes "-d" ∷ codes "10.0.0.1" ∷ codes "a" ∷ [])
    ≡ (
      some client,
      ready (record {
        port = 8080;
        verbosity = 1;
        target = codes "10.0.0.1";
        listen = codes "0.0.0.0";
        filename = codes "a";
      }),
    )
unfolding process_arguments read_options kind_of read_field read_port same strstr strtol
    signed_value digits_value
command_line = refl

-- The value of an option is the last argument: there is no name left.
no_name :
    process_arguments (codes "-r" ∷ codes "-i" ∷ codes "127.0.0.1" ∷ [])
    ≡ (some server, null_pointer)
unfolding process_arguments read_options kind_of read_field same strstr
no_name = refl

process_arguments-Fits_example :
    Starts Fits ((process_arguments (codes "-r" ∷ codes "-p" ∷ codes "8080" ∷ codes "a" ∷ [])).1)
process_arguments-Fits_example =
    process_arguments-Fits (codes "-r" ∷ codes "-p" ∷ codes "8080" ∷ codes "a" ∷ [])
