-- ===== src/TcpPing/Program/Tests.antt =====
-- Three pings between the two programs, in memory.
use iteso_codigos.Common.{ℕ, ◌*◌, ◌≡◌, refl, sym, ap, ◌∙◌, Option, some, List, [], length, arith}
use iteso_codigos.Common.Text.{codes}
use iteso_codigos.Common.Run.{Run, done}
use iteso_codigos.Device.Memory.{Pipe, memory, memory-IsLawful, memory-IsReliable}
use iteso_codigos.Netlib.{
  build_address, listen_on, bind_to, new_server_socket, connect_to, new_client_socket,
  wait_connection,
}
use iteso_codigos.Netlib.Memory.{loopback}
use iteso_codigos.FileStream.Copy.{Clock}
use iteso_codigos.TcpPing.{ping_listen}
use iteso_codigos.TcpPing.Listen.{ping_listen-text}
use iteso_codigos.FileTransfer.Send.{write_step}
use iteso_codigos.TcpPing.Send.{letters, message, send_message}
use iteso_codigos.TcpPing.Send.Laws.{letters-IsText, length-letters}
use iteso_codigos.FileTransfer.Arguments.{ready}
use iteso_codigos.Libc.Search.{strstr}
use iteso_codigos.Libc.Number.{strtol, signed_value, digits_value}
use iteso_codigos.Common.Text.{same, Bytes}
use iteso_codigos.Common.{◌<◌, ◌∷◌}
use iteso_codigos.TcpPing.Arguments.{
  Settings, client, process_arguments, read_options, kind_of, read_field, number,
}
use iteso_codigos.TcpPing.Start.{pinged, start, start-pongs}
use iteso_codigos.TcpPing.Program.{Report, lines_of, start_client, start_server}
use iteso_codigos.TcpPing.Program.Echoes.{Echoes, Accepts}
use iteso_codigos.TcpPing.Program.Pings.{pongs, Each, Connects, pings_echoed}

-- A clock that advances by 5 ms.
abbrev ticking : Clock
ticking n = (0, n * 5)

abbrev with_message : ℕ → Option ℕ → Pipe
with_message i fd = record { pending = message 1024; sent = [] }

loopback-Accepts : Accepts loopback
unfolding wait_connection
loopback-Accepts fd n = (_, refl)

loopback-Connects : Connects loopback (codes "127.0.0.1") 5001
unfolding new_client_socket build_address connect_to
loopback-Connects n = (n, refl)

loopback_listens : (new_server_socket loopback (codes "0.0.0.0") 5001 5 0).0 ≡ some 0
unfolding new_server_socket build_address bind_to listen_on
loopback_listens = refl

state_of : Run (ℕ × Pipe) → Pipe → Pipe
state_of (done (_, s)) t = s
state_of r t = t

position_of : Run (ℕ × Pipe) → ℕ
position_of (done (k, s)) = k
position_of r = 0

abbrev idle : Pipe
idle = record { pending = message 1024; sent = [] }

abbrev sending : Run (ℕ × Pipe)
sending = send_message (memory 99) 2000 (message 1024) (0, idle)

-- Eleven writes, the last of 24 bytes.
whole_message : position_of sending ≡ 1024
unfolding position_of send_message write_step letters
whole_message = refl

sent_text : (state_of sending idle).sent ≡ message 1024
unfolding state_of send_message write_step letters
sent_text = refl

message_goes :
    (i fd fd' k : ℕ) (s : Pipe)
    → send_message (memory 99) 2000 (message 1024) (0, with_message i (some fd)) ≡ done (k, s)
    → (k ≡ 1024) × ((with_message i (some fd')).pending ≡ s.sent)
unfolding state_of position_of
message_goes i fd fd' k s e = (
  sym (ap position_of e) ∙ whole_message,
  sym sent_text ∙ ap (λ (r : Run (ℕ × Pipe)). (state_of r idle).sent) e,
)

message_back :
    (i fd fd' k : ℕ) (t : Pipe)
    → ping_listen (memory 99) 2000 (with_message i (some fd')) ≡ done (k, t)
    → message 1024 ≡ t.sent
unfolding state_of
message_back i fd fd' k t e =
    let len = length-letters 1023 0 in
    let (m, s, run, _, _, sent) =
      ping_listen-text (memory 99) (memory-IsLawful 99) (memory-IsReliable 99) 2000 (letters 0 1023)
        (with_message i (some fd')) (letters-IsText 1023 0) refl (omega (arith, len))
        (omega (arith, len)) in
    sym sent ∙ ap (λ (r : Run (ℕ × Pipe)). (state_of r t).sent) (sym run ∙ e)

pings_echoed_example :
    ((rs : List (Report × Pipe)) × (start_client loopback
          (memory 99)
          with_message
          2000
          ticking
          (codes "127.0.0.1")
          5001
          3
          1
          0
        ≡ done rs)
      × (lines_of rs ≡ pongs ticking 3 0)
      × Each (λ i s. s.sent ≡ message 1024) 0 rs)
    × ((ss : List Pipe) × (start_server loopback
            (memory 99)
            with_message
            2000
            (codes "0.0.0.0")
            5001
            5
            3
            0
          ≡ done (some ss))
        × (length ss ≡ 3)
        × Echoes (memory 99) (memory-IsLawful 99) (λ i. letters 0 1023) 0 ss)
pings_echoed_example =
    pings_echoed loopback loopback (memory 99) (memory-IsLawful 99) (memory-IsReliable 99)
      (memory 99) (memory-IsLawful 99) (memory-IsReliable 99) with_message with_message 2000 ticking
      (codes "0.0.0.0") (codes "127.0.0.1") 5001 5 0 3 1 0 0 (omega arith) (omega arith)
      (omega arith) loopback-Connects loopback-Accepts loopback_listens (λ i fd. refl)
      (λ i fd. refl) message_goes message_back

abbrev started_with : Settings
started_with = record {
  port = 5001;
  verbosity = 1;
  count = 3;
  size = 1;
  target = codes "127.0.0.1";
}

abbrev command_line : List Bytes
command_line =
    codes "-c"
    ∷ codes "-n"
    ∷ codes "3"
    ∷ codes "-s"
    ∷ codes "1"
    ∷ codes "-d"
    ∷ codes "127.0.0.1"
    ∷ []

is_command_line : process_arguments command_line ≡ (some client, ready started_with)
unfolding process_arguments read_options kind_of read_field number same strstr strtol signed_value
    digits_value
is_command_line = refl

start-pongs_example :
    (start loopback (memory 99) with_message 2000 ticking 0 command_line 0
      ≡ done (pinged (pongs ticking 3 0)))
    × (0 < 3)
start-pongs_example =
    start-pongs loopback (memory 99) (memory-IsLawful 99) (memory-IsReliable 99) with_message 2000
      ticking 0 command_line started_with 0 is_command_line (omega arith) (omega arith)
      (omega arith) loopback-Connects (λ i fd. refl)
