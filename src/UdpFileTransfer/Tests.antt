-- ===== src/UdpFileTransfer/Tests.antt =====
-- A file in datagrams, in memory.
use iteso_codigos.Common.{
  ℕ, ◌+◌, ◌^◌, ◌≤◌, ◌≡◌, refl, Option, none, some, List, [], ◌∷◌, ◌++◌, if◌then◌else◌, length, take,
  All, arith,
}
use iteso_codigos.Common.Text.{Bytes, codes, concat, same}
use iteso_codigos.Common.Run.{done}
use iteso_codigos.Device.Memory.{Pipe, memory, memory-IsLawful, memory-IsReliable}
use iteso_codigos.Libc.Number.{print_u, decimal, strtol}
use iteso_codigos.Libc.Search.{string_of, strtok_at}
use iteso_codigos.FileStream.Copy.{write_block}
use iteso_codigos.UdpFileTransfer.Memory.{Mailbox, datagrams, datagrams-IsUdp}
use iteso_codigos.UdpFileTransfer.{
  print_i, ready_text, ok_text, bye_text, sent_file, not_ok, receive_string, copy_file, send_file,
  main,
}
use iteso_codigos.UdpFileTransfer.Answer.{main-Copied}
use iteso_codigos.UdpFileTransfer.Transfer.{transfer-Fetched}
use iteso_codigos.UdpFileTransfer.Client.Saves.{Fetched}
use iteso_codigos.UdpFileTransfer.Client.{
  int_zero, atoi, add_int, saved, write_rest, receive_file, save_file, read_size, read_answer,
}
use iteso_codigos.UdpFileTransfer.Client as Client

abbrev greeting : Pipe
greeting = record { pending = codes "hello"; sent = [] }

abbrev one_file : Bytes → Option (Pipe × ℕ)
one_file name = if same name (codes "a") then some (greeting, 5) else none

abbrev asked_by : List Bytes → Mailbox
asked_by ms = record { arriving = ms; departed = [] }

main-Copied_example :
    (s' : Mailbox) × (blocks : List Bytes) × (main
        (memory 2)
        datagrams
        9
        (some (asked_by (codes "a" ∷ ok_text ∷ [])))
        one_file
        (2 ^ 31)
      ≡ done (sent_file s'))
    × (s'.departed ≡ [] ++ ready_text 5 ∷ (blocks ++ bye_text ∷ []))
    × (concat blocks ≡ codes "hello")
    × All (λ b. length b ≤ 10240) blocks
unfolding same
main-Copied_example =
    main-Copied (memory 2) (memory-IsLawful 2) (memory-IsReliable 2) datagrams datagrams-IsUdp 9
      (codes "a") [] one_file greeting (asked_by (codes "a" ∷ ok_text ∷ [])) refl ((λ z. cc), tt)
      (omega arith) refl (omega arith) (omega arith) (omega arith)

-- When totalSendBytes happens to hold 5, nothing of the file is sent.
main_stale :
    main (memory 2) datagrams 9 (some (asked_by (codes "a" ∷ ok_text ∷ []))) one_file (5 + 2 ^ 31)
    ≡ done (sent_file (record { arriving = []; departed = codes "READY 5\r\n" ∷ codes "BYE" ∷ [] }))
unfolding main send_file copy_file receive_string write_block string_of same print_i print_u decimal
main_stale = refl

-- An OK with an end of line behind it is refused.
main_not_ok :
    main (memory 2) datagrams 9 (some (asked_by (codes "a" ∷ codes "OK\n" ∷ []))) one_file (2 ^ 31)
    ≡ done (not_ok (record { arriving = []; departed = codes "READY 5\r\n" ∷ [] }))
unfolding main send_file copy_file receive_string write_block string_of same print_i print_u decimal
main_not_ok = refl

-- The server's file when reads give all that is asked for.
abbrev answered : Mailbox
answered = record { arriving = []; departed = ready_text 5 ∷ codes "hello" ∷ bye_text ∷ [] }

abbrev fresh : Pipe
fresh = record { pending = []; sent = [] }

abbrev create_any : Bytes → Option Pipe
create_any name = some fresh

serves_hello :
    main (memory 10239) datagrams 9 (some (asked_by (codes "a" ∷ ok_text ∷ []))) one_file (2 ^ 31)
    ≡ done (sent_file answered)
unfolding main send_file copy_file receive_string write_block string_of same print_i print_u decimal
serves_hello = refl

transfer-Fetched_example :
    Fetched datagrams datagrams-IsUdp
      (memory 2)
      (memory-IsLawful 2)
      (memory-IsReliable 2)
      9
      (asked_by (answered.departed ++ []))
      fresh
      (codes "a")
      (take 10240 (codes "hello"))
      []
      (Client.main datagrams
        (memory 2)
        9
        create_any
        int_zero
        (codes "a" ∷ codes "b" ∷ [])
        (some (asked_by (answered.departed ++ []))))
unfolding same
transfer-Fetched_example =
    transfer-Fetched (memory 10239) (memory-IsLawful 10239) (memory-IsReliable 10239) datagrams
      datagrams-IsUdp datagrams datagrams-IsUdp (memory 2) (memory-IsLawful 2) (memory-IsReliable 2)
      9 (codes "a") (codes "b") [] [] [] answered.departed one_file create_any greeting fresh
      (asked_by (codes "a" ∷ ok_text ∷ [])) answered (asked_by (answered.departed ++ [])) refl
      serves_hello refl refl ((λ z. cc), tt) (λ z. cc) (omega arith) refl refl (λ f. refl)
      (omega arith) (omega arith) (omega arith)

-- The second datagram is written from the place where the first one ended.
client_pieces :
    Client.main datagrams
      (memory 9)
      9
      create_any
      int_zero
      (codes "a" ∷ codes "b" ∷ [])
      (some (asked_by (codes "READY 5\r\n" ∷ codes "he" ∷ codes "llo" ∷ codes "BYE" ∷ [])))
    ≡ done (
        saved
          (record { arriving = []; departed = codes "a" ∷ codes "OK" ∷ [] })
          (record { pending = []; sent = codes "heo" }))
unfolding Client.main read_answer read_size save_file receive_file write_rest receive_string atoi
    add_int strtok_at string_of same strtol
client_pieces = refl
