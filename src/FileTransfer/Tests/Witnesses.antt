-- ===== src/FileTransfer/Tests/Witnesses.antt =====
-- The theorems about the file server and its clients, applied to the runs of the tests.
use iteso_codigos.Common.{◌≡◌, [], ◌∷◌, arith, refl}
use iteso_codigos.Common.Text.{Bytes, codes, same}
use iteso_codigos.Common.Run.{fault}
use iteso_codigos.Libc.Number.{print_u, decimal}
use iteso_codigos.Libc.Search.{strtok, span}
use iteso_codigos.Device.Memory.{memory, memory-IsLawful, memory-IsReliable}
use iteso_codigos.FileTransfer.Receive.{read_until}
use iteso_codigos.FileTransfer.Receive.Lines.{join_lines, read_until-join_lines}
use iteso_codigos.FileTransfer.Receive.Loop.{Reads}
use iteso_codigos.FileTransfer.Server
use iteso_codigos.FileTransfer.Server.{
  get_file, list_files, parse_command, word_command, get_command,
}
use iteso_codigos.FileTransfer.Server.Spec.{
  reply, get_reply, replies, requests, list_reply, listing, IsServed,
}
use iteso_codigos.FileTransfer.Server.Deliver.{Answers, copy_file-Answers}
use iteso_codigos.FileTransfer.Server.Answer.{answer-Answers}
use iteso_codigos.FileTransfer.Server.Session.{
  Serves, Prompt, start_protocol-Prompt, start_protocol-Serves, start_protocol_closed,
}
use iteso_codigos.FileTransfer.Tests.{
  at, blank, disk, disk-IsFaithful, content, zeros, zeros-IsCalm, base,
}

read_until-join_lines_example :
    Reads
      (memory 0)
      (memory-IsLawful 0)
      (at (codes "a\r\nb\r\n\r\nc"))
      (join_lines (codes "a" ∷ codes "b" ∷ []))
      (codes "c")
      (read_until zeros (memory 0) 20 [] (at (codes "a\r\nb\r\n\r\nc")))
unfolding join_lines
read_until-join_lines_example =
    read_until-join_lines zeros zeros-IsCalm (memory 0) (memory-IsLawful 0) (memory-IsReliable 0)
      (codes "a") (codes "c") (codes "b" ∷ []) 20 (at (codes "a\r\nb\r\n\r\nc"))
      ((cc, omega arith), ((cc, omega arith), tt)) refl (omega arith)

copy_file-Answers_example :
    Answers
      (memory 0)
      (memory-IsLawful 0)
      blank
      content
      (Server.copy_file disk (memory 0) 9 9 (at content) blank)
copy_file-Answers_example =
    copy_file-Answers disk disk-IsFaithful (memory 0) (memory-IsLawful 0) (memory-IsReliable 0) 9 9
      (at content) blank (omega arith) (omega arith)

answer-Answers_example :
    Answers
      (memory 0)
      (memory-IsLawful 0)
      blank
      (codes "a\r\nb\r\n\r\n")
      (Server.answer disk (memory 0) 99 base list_files blank)
unfolding reply list_reply listing Server.is_hidden same
answer-Answers_example =
    answer-Answers disk disk-IsFaithful (memory 0) (memory-IsLawful 0) (memory-IsReliable 0) 99 base
      list_files blank (omega arith) (omega arith)

abbrev script : Bytes
script = codes "GET a\r\n\r\nQUIT\r\n\r\n"

a_request-IsServed : IsServed disk disk-IsFaithful base 99 (codes "GET a")
unfolding parse_command word_command get_command strtok span same reply get_reply print_u decimal
a_request-IsServed = ((cc, omega arith), tt, omega arith, omega arith)

start_protocol-Serves_example :
    Serves
      (memory 0)
      (memory-IsLawful 0)
      (at script)
      (codes "OK\r\nSize: 5\r\n\r\nhello")
      []
      (Server.start_protocol disk (memory 0) 99 zeros base 2 (at script))
unfolding requests replies parse_command word_command get_command strtok span same reply get_reply
    print_u decimal
start_protocol-Serves_example =
    start_protocol-Serves disk disk-IsFaithful (memory 0) (memory-IsLawful 0) (memory-IsReliable 0)
      99 zeros zeros-IsCalm base (codes "GET a" ∷ []) [] 2 (at script) (a_request-IsServed, tt)
      (omega arith) (omega arith) refl

-- The bytes behind the request are no request at all.
start_protocol-Prompt_example :
    Prompt disk disk-IsFaithful
      (memory 0)
      (memory-IsLawful 0)
      (memory-IsReliable 0)
      99
      zeros
      zeros-IsCalm
      base
      (codes "GET a" ∷ [])
      (at (codes "GET a\r\n\r\n\n\nLI"))
      (codes "\n\nLI")
unfolding requests
start_protocol-Prompt_example =
    start_protocol-Prompt disk disk-IsFaithful (memory 0) (memory-IsLawful 0) (memory-IsReliable 0)
      99 zeros zeros-IsCalm base (codes "GET a" ∷ []) (codes "\n\nLI")
      (at (codes "GET a\r\n\r\n\n\nLI")) (a_request-IsServed, tt) refl

start_protocol_closed_example :
    Prompt disk disk-IsFaithful
      (memory 0)
      (memory-IsLawful 0)
      (memory-IsReliable 0)
      99
      zeros
      zeros-IsCalm
      base
      (codes "GET a" ∷ [])
      (at (codes "GET a\r\n\r\n"))
      []
    × (Server.start_protocol disk (memory 0) 99 zeros base 2 (at (codes "GET a\r\n\r\n")) ≡ fault)
unfolding requests
start_protocol_closed_example =
    start_protocol_closed disk disk-IsFaithful (memory 0) (memory-IsLawful 0) (memory-IsReliable 0)
      99 zeros zeros-IsCalm base (codes "GET a" ∷ []) 2 (at (codes "GET a\r\n\r\n"))
      (a_request-IsServed, tt) (omega arith) (omega arith) refl
