-- ===== src/FileTransfer/Tests/Clients.antt =====
-- Theorems on the clients at concrete data.
use iteso_codigos.Common.{◌≡◌, Option, some, [], arith, refl}
use iteso_codigos.Common.Text.{Bytes, codes}
use iteso_codigos.Common.Run.{unfinished}
use iteso_codigos.Libc.Number.{print_u, decimal}
use iteso_codigos.Device.Memory.{Pipe, memory, memory-IsLawful, memory-IsReliable}
use iteso_codigos.FileTransfer.Receive.{crlf, read_until}
use iteso_codigos.FileTransfer.Server.Spec.{listing}
use iteso_codigos.FileTransfer.Client
use iteso_codigos.FileTransfer.Client.{
  get_text, quit_text, list_text, get_list, receive, parse_answer, unknown_answer, file_size,
}
use iteso_codigos.FileTransfer.Client.Receive.{Saves, receive-Saves, receive_closed}
use iteso_codigos.FileTransfer.Client.Get.{Gets, start_protocol-Gets}
use iteso_codigos.FileTransfer.Client.Names.{get_list_empty}
use iteso_codigos.FileTransfer.Tests.{at, blank, content, zeros, zeros-IsCalm}

abbrev open_local : Bytes → Option Pipe
open_local path = some blank

receive-Saves_example :
    Saves
      (memory 0)
      (memory 2)
      (memory-IsLawful 0)
      (memory-IsLawful 2)
      (at content)
      blank
      (receive (memory 0) (memory 2) open_local 9 9 5 0 (at content) blank)
receive-Saves_example =
    receive-Saves (memory 0) (memory 2) open_local 9 (memory-IsLawful 0) (memory-IsReliable 0)
      (memory-IsLawful 2) (memory-IsReliable 2) 9 5 0 (at content) blank (omega arith) (omega arith)
      (omega arith) (omega arith)

receive_closed_example : receive (memory 0) (memory 2) open_local 9 9 5 3 (at []) blank ≡ unfinished
receive_closed_example =
    receive_closed (memory 0) (memory 2) open_local 9 (memory-IsLawful 0) (memory-IsReliable 0)
      (memory-IsLawful 2) (memory-IsReliable 2) 9 5 3 (at []) blank (omega arith) refl

abbrev ok_answer_text : Bytes
ok_answer_text = codes "OK\r\nSize: 5\r\n\r\nhello"

start_protocol-Gets_example :
    Gets
      (memory 0)
      (memory 2)
      (memory-IsLawful 0)
      (memory-IsLawful 2)
      (at ok_answer_text)
      blank
      (codes "a")
      content
      (Client.start_protocol
        (memory 0)
        (memory 2)
        open_local
        99
        zeros
        []
        (codes "a")
        (codes "b")
        (at ok_answer_text))
unfolding print_u decimal
start_protocol-Gets_example =
    start_protocol-Gets (memory 0) (memory 2) open_local 99 (memory-IsLawful 0)
      (memory-IsReliable 0) (memory-IsLawful 2) (memory-IsReliable 2) zeros zeros-IsCalm (codes "a")
      (codes "b") content (at ok_answer_text) blank refl refl (omega arith) (omega arith)
      (omega arith) (omega arith)

get_list_empty_example :
    (s' : Pipe) × (get_list (memory 0) 99 zeros [] (at crlf)
      ≡ read_until zeros (memory 0) 97 crlf s')
    × (s'.pending ≡ [])
unfolding listing
get_list_empty_example =
    get_list_empty (memory 0) (memory-IsLawful 0) (memory-IsReliable 0) zeros zeros-IsCalm 99
      (at crlf) 97 refl (omega arith) refl
