-- ===== src/FileTransfer/Tests.antt =====
-- Runs of the server and of its clients in memory, and the theorems at concrete data.
mod Witnesses
mod Processes
mod Clients
mod Programs
mod Sessions
use iteso_codigos.Common.{
  ◌≡◌, refl, false, none, some, [], ◌∷◌, ◌++◌, if◌then◌else◌, length, drop, arith, ◌<◌,
}
use iteso_codigos.Common.Text.{Bytes, codes, same}
use iteso_codigos.Common.Run.{Run, done, fault}
use iteso_codigos.Libc.Number.{print_u, decimal}
use iteso_codigos.Libc.Search.{strtok, span}
use iteso_codigos.Device.Memory.{Pipe, memory, memory-IsLawful, memory-IsReliable}
use iteso_codigos.FileTransfer.Files.{FileSystem, IsFaithful}
use iteso_codigos.FileTransfer.Send.{send_line, write_while, write_step, returned}
use iteso_codigos.FileTransfer.Receive.{
  blank_line, read_until, at_blank_line, cut_blank_line, add_byte, byte_of,
}
use iteso_codigos.FileTransfer.Receive.Pattern.{IsCalm}
use iteso_codigos.FileTransfer.Server
use iteso_codigos.FileTransfer.Server.{parse_command, word_command, get_command, copy_file}
use iteso_codigos.FileTransfer.Client

abbrev content : Bytes
content = codes "hello"

-- One file, "./a", read three bytes at a time.
abbrev disk : FileSystem
disk = record {
  File = memory 2;
  open_read = λ path.
      if same path (codes "./a") then some (record { pending = content; sent = [] }) else none;
  size = λ f. length f.pending;
  entries = λ path. some (codes "." ∷ codes ".." ∷ codes "a" ∷ codes "b" ∷ []);
}

abbrev disk-IsFaithful : IsFaithful disk
disk-IsFaithful = record {
  lawful = memory-IsLawful 2;
  reads = (memory-IsReliable 2).reads;
  size-pending = λ path f opened. refl;
}

abbrev zeros : Bytes → Bytes
zeros _ = 0 ∷ 0 ∷ 0 ∷ 0 ∷ []

zeros_no_match :
    (cmd : Bytes) → length cmd < 4 → same (drop (length cmd) (zeros cmd) ++ cmd) blank_line ≡ false
unfolding same
zeros_no_match [] h = refl
zeros_no_match (a ∷ []) h = refl
zeros_no_match (a ∷ b ∷ []) h = refl
zeros_no_match (a ∷ b ∷ c ∷ []) h = refl
zeros_no_match (a ∷ b ∷ c ∷ d ∷ cmd) h = absurd (omega arith)

zeros-IsCalm : IsCalm zeros
zeros-IsCalm = record { no_match = zeros_no_match }

abbrev base : Bytes
base = codes "./"

-- What the server says to a whole session, over a socket that moves one byte in a call.
session : Bytes → Run Pipe
unfolding Server.start_protocol Server.serve Server.answer Server.do_get Server.do_list
    Server.send_file Server.send_not_found Server.send_names Server.copy_file Server.send
    Server.print_into Server.is_hidden Server.parse_command Server.word_command Server.get_command
    send_line write_while write_step returned read_until at_blank_line cut_blank_line add_byte
    byte_of strtok span same print_u decimal
session input =
    Server.start_protocol disk (memory 0) 200 zeros base 5 (record { pending = input; sent = [] })

session_runs :
    session (codes "LIST\r\n\r\nGET a\r\n\r\nGET\r\n\r\nBYE\r\n\r\nQUIT\r\n\r\nrest")
    ≡ done (record {
      pending = codes "rest";
      sent =
          codes
            "a\r\nb\r\n\r\nOK\r\nSize: 5\r\n\r\nhelloERROR ( Missing FileName )\r\n\r\nUNKOWN METHOD\r\n\r\n";
    })
unfolding session
session_runs = refl

-- A client that hangs up leaves a null pointer in the hands of `strcmp`.
session_hang_up : session (codes "GET x\r\n\r\n") ≡ fault
unfolding session
session_hang_up = refl

-- A socket that moves one byte in a call, with this much to read.
abbrev at : Bytes → Pipe
at b = record { pending = b; sent = [] }

abbrev blank : Pipe
blank = at []
