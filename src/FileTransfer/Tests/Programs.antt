-- ===== src/FileTransfer/Tests/Programs.antt =====
-- The programs from their command lines on, at concrete data.
use iteso_codigos.Common.{
  ℕ, suc, ◌≡◌, refl, sym, ap, Option, none, some, List, [], ◌∷◌, ◌++◌, arith,
}
use iteso_codigos.Common.Text.{Bytes, codes, same}
use iteso_codigos.Common.Run.{Run, done, fault, unfinished}
use iteso_codigos.Libc.Search.{strtok, span, strsep, strstr}
use iteso_codigos.Libc.Number.{print_u, decimal, strtol, digits_value, signed_value}
use iteso_codigos.Device.Memory.{Pipe, memory, memory-IsLawful, memory-IsReliable}
use iteso_codigos.Netlib.{
  new_server_socket, new_client_socket, build_address, bind_to, listen_on, connect_to,
}
use iteso_codigos.Netlib.Memory.{loopback}
use iteso_codigos.FileTransfer.Send.{send_line, write_while, write_step, returned}
use iteso_codigos.FileTransfer.Receive.{
  read_until, at_blank_line, cut_blank_line, add_byte, byte_of,
}
use iteso_codigos.FileTransfer.Receive.Lines.{join_lines}
use iteso_codigos.FileTransfer.Server
use iteso_codigos.FileTransfer.Server.Spec.{
  reply, get_reply, list_reply, listing, requests, replies, IsServed,
}
use iteso_codigos.FileTransfer.Client
use iteso_codigos.FileTransfer.Client.{list_text}
use iteso_codigos.FileTransfer.Transfer.{IsName}
use iteso_codigos.FileTransfer.Arguments.{
  read_options, kind_of, read_port, client_arguments, client_names, finish_client,
}
use iteso_codigos.FileTransfer.Arguments.Laws.{
  use_port, use_verbosity, use_directory, IsAccepted, settings_of, arguments,
}
use iteso_codigos.FileTransfer.Program.{start_client}
use iteso_codigos.FileTransfer.Main.{Exit, not_started, ran, get_with, client_main, list_main}
use iteso_codigos.FileTransfer.Main.Downloads.{Downloaded, main-Downloaded}
use iteso_codigos.FileTransfer.Main.Lists.{list_main-Lists}
use iteso_codigos.FileTransfer.Tests.Sessions.{one_reply}
use iteso_codigos.FileTransfer.Tests.{
  at, blank, disk, disk-IsFaithful, content, zeros, zeros-IsCalm, base,
}

a-IsName : IsName (codes "a")
a-IsName = record { some_byte = cc; plain = omega arith; token = (refl, tt) }

abbrev ok_answer_text : Bytes
ok_answer_text = codes "OK\r\nSize: 5\r\n\r\nhello"

abbrev script : Bytes
script = codes "GET a\r\n\r\nQUIT\r\n\r\n"

a_request-IsServed : IsServed disk disk-IsFaithful base 99 (codes "GET a")
unfolding Server.parse_command Server.word_command Server.get_command strtok span same reply
    get_reply print_u decimal
a_request-IsServed = ((cc, omega arith), tt, omega arith, omega arith)

reaches_client :
    (t : Pipe)
    → ((m : ℕ)
        → Server.start_protocol disk (memory 0) 99 zeros base (suc m) (at script)
          ≡ Server.start_protocol disk (memory 0) 99 zeros base m t)
    → t.pending ≡ codes "QUIT\r\n\r\n"
    → t.sent ≡ [] ++ ok_answer_text
unfolding requests replies Server.parse_command Server.word_command Server.get_command strtok span
    same reply get_reply print_u decimal
reaches_client t =
    one_reply (codes "GET a") ok_answer_text (at script) t a_request-IsServed refl refl refl

abbrev getting : List Bytes
getting = codes "-p" ∷ codes "80" ∷ codes "-vv" ∷ codes "127.0.0.1" ∷ codes "a" ∷ codes "b" ∷ []

-- What the connection of a client that has ended has sent.
abbrev sent_by : Run (Exit (Option (Pipe × Option Pipe))) → Bytes
sent_by (done (ran (some (s, _)))) = s.sent
sent_by (done (ran none)) = []
sent_by (done not_started) = []
sent_by fault = []
sent_by unfinished = []

reaches_server :
    (s file : Pipe)
    → client_main loopback
        (memory 1)
        (memory 2)
        (λ path. some blank)
        (λ fd. at ok_answer_text)
        99
        zeros
        []
        getting
        7
      ≡ done (ran (some (s, some file)))
    → s.sent ≡ [] ++ script
unfolding client_main get_with client_arguments finish_client client_names read_options kind_of
    read_port start_client new_client_socket build_address connect_to Client.start_protocol
    Client.finish Client.do_get Client.receive Client.parse_answer Client.line_answer
    Client.ok_answer Client.size_field strsep strstr strtol digits_value signed_value send_line
    write_while write_step returned read_until at_blank_line cut_blank_line add_byte byte_of same
reaches_server s file e = sym (ap sent_by e)

main-Downloaded_example :
    Downloaded disk disk-IsFaithful zeros zeros-IsCalm 99
      (memory 0)
      (memory-IsLawful 0)
      (memory-IsReliable 0)
      (memory 1)
      (memory-IsLawful 1)
      (memory-IsReliable 1)
      (memory 2)
      (memory-IsLawful 2)
      (memory-IsReliable 2)
      (λ path. some blank)
      loopback
      (λ fd. at ok_answer_text)
      (λ fd. at script)
      2
      (codes "-p" ∷ codes "80" ∷ codes "-d" ∷ codes "./" ∷ [])
      getting
      base
      content
      4
      ok_answer_text
      7
      3
      blank
unfolding same reply get_reply print_u decimal new_server_socket new_client_socket build_address
    bind_to listen_on connect_to arguments settings_of IsAccepted
main-Downloaded_example =
    main-Downloaded disk disk-IsFaithful zeros zeros-IsCalm 99 (memory 0) (memory-IsLawful 0)
      (memory-IsReliable 0) (memory 1) (memory-IsLawful 1) (memory-IsReliable 1) (memory 2)
      (memory-IsLawful 2) (memory-IsReliable 2) (λ path. some blank) loopback
      (λ fd. at ok_answer_text) (λ fd. at script) 2 (use_port 80 ∷ use_directory (codes "./") ∷ [])
      (use_port 80 ∷ use_verbosity 1 ∷ []) (codes "127.0.0.1") (codes "a") (codes "b")
      (codes "QUIT\r\n\r\n") 3 7 4 (at content) blank 7 3
      ((omega arith, omega arith), ((refl, omega arith), tt))
      ((omega arith, omega arith), (omega arith, tt)) (omega arith) (omega arith) (omega arith) refl
      refl a-IsName refl refl (omega arith) (omega arith) (omega arith) (omega arith) refl
      reaches_client reaches_server

list_main-Lists_example :
    (s' : Pipe) × (list_main loopback
        (memory 0)
        (λ fd. at (codes "a\r\nb\r\n\r\n"))
        99
        zeros
        []
        (codes "127.0.0.1" ∷ [])
        7
      ≡ done (ran (some (codes "a\r\nb", s'))))
    × (s'.sent ≡ [] ++ list_text)
    × ((t1 : Pipe) × ((m : ℕ)
          → Server.start_protocol disk (memory 0) 99 zeros base (suc m) (at list_text)
            ≡ Server.start_protocol disk (memory 0) 99 zeros base m t1)
        × (t1.sent ≡ [] ++ codes "a\r\nb\r\n\r\n"))
    × (Server.start_protocol disk (memory 0) 99 zeros base 2 (at list_text) ≡ fault)
unfolding same reply list_reply listing join_lines Server.is_hidden new_client_socket build_address
    connect_to
list_main-Lists_example =
    list_main-Lists disk disk-IsFaithful zeros zeros-IsCalm 99 (memory 0) (memory-IsLawful 0)
      (memory-IsReliable 0) (memory 0) (memory-IsLawful 0) (memory-IsReliable 0) loopback
      (λ fd. at (codes "a\r\nb\r\n\r\n")) base (codes "127.0.0.1") (codes "a")
      (codes "." ∷ codes ".." ∷ codes "a" ∷ codes "b" ∷ []) (codes "b" ∷ []) 7 2 7 (at list_text)
      (omega arith) refl refl refl ((cc, omega arith), ((cc, omega arith), tt)) (omega arith)
      (omega arith) (omega arith) (omega arith) refl refl
