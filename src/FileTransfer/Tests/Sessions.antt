-- ===== src/FileTransfer/Tests/Sessions.antt =====
-- A session that answers one request in memory, and a request for a file that is not there.
use iteso_codigos.Common.{
  ℕ, suc, ◌≡◌, refl, sym, ap, ◌∙◌, Option, none, some, [], ◌∷◌, ◌++◌, append-nil, arith,
}
use iteso_codigos.Common.Text.{Bytes, codes, same}
use iteso_codigos.Common.Run.{Run, done, fault, unfinished}
use iteso_codigos.Libc.Search.{strtok, span, strsep, strstr}
use iteso_codigos.Libc.Number.{strtol, digits_value, signed_value}
use iteso_codigos.Device.Memory.{Pipe, memory, memory-IsLawful, memory-IsReliable}
use iteso_codigos.FileTransfer.Send.{send_line, write_while, write_step, returned}
use iteso_codigos.FileTransfer.Receive.{
  read_until, at_blank_line, cut_blank_line, add_byte, byte_of,
}
use iteso_codigos.FileTransfer.Server
use iteso_codigos.FileTransfer.Server.Spec.{reply, get_reply, requests, replies, IsServed}
use iteso_codigos.FileTransfer.Server.Session.{Serves, start_protocol-Serves}
use iteso_codigos.FileTransfer.Client
use iteso_codigos.FileTransfer.Client.{list_text}
use iteso_codigos.FileTransfer.Transfer.Missing.{Refused, conversation-Refused}
use iteso_codigos.FileTransfer.Tests.{at, blank, disk, disk-IsFaithful, zeros, zeros-IsCalm, base}

-- What the session has sent when it has left QUIT.
pub one_reply :
    (r answer : Bytes) (first t : Pipe)
    → IsServed disk disk-IsFaithful base 99 r
    → first.pending ≡ requests disk disk-IsFaithful base (r ∷ []) ++ codes "QUIT\r\n\r\n"
    → first.sent ≡ []
    → replies disk disk-IsFaithful base (r ∷ []) ≡ answer
    → ((m : ℕ)
        → Server.start_protocol disk (memory 0) 99 zeros base (suc m) first
          ≡ Server.start_protocol disk (memory 0) 99 zeros base m t)
    → t.pending ≡ codes "QUIT\r\n\r\n"
    → t.sent ≡ [] ++ answer
unfolding requests replies
one_reply r answer first t served input fresh told goes_on left =
    let whole =
      start_protocol-Serves disk disk-IsFaithful (memory 0) (memory-IsLawful 0)
        (memory-IsReliable 0) 99 zeros zeros-IsCalm base (r ∷ []) [] 2 first (served, tt)
        (omega arith) (omega arith) input in
    let last =
      start_protocol-Serves disk disk-IsFaithful (memory 0) (memory-IsLawful 0)
        (memory-IsReliable 0) 99 zeros zeros-IsCalm base [] [] 1 t tt (omega arith) (omega arith)
        left in
    let same_end : done last.final ≡ done whole.final =
      sym last.returns ∙ sym (goes_on 1) ∙ whole.returns in
    let end : last.final ≡ whole.final = cc in
    sym (append-nil t.sent)
    ∙ sym last.delivers
    ∙ ap (λ (p : Pipe). p.sent) end
    ∙ whole.delivers
    ∙ ap (λ (b : Bytes). b ++ replies disk disk-IsFaithful base (r ∷ [])) fresh
    ∙ told

-- A request for a file that is not there.
abbrev other_script : Bytes
other_script = codes "GET x\r\n\r\nQUIT\r\n\r\n"

abbrev refusal : Bytes
refusal = codes "NOT_FOUND x\r\n\r\n"

x_request-IsServed : IsServed disk disk-IsFaithful base 99 (codes "GET x")
unfolding Server.parse_command Server.word_command Server.get_command strtok span same reply
    get_reply
x_request-IsServed = ((cc, omega arith), omega arith, omega arith, omega arith)

refusal_reaches_client :
    (t : Pipe)
    → ((m : ℕ)
        → Server.start_protocol disk (memory 0) 99 zeros base (suc m) (at other_script)
          ≡ Server.start_protocol disk (memory 0) 99 zeros base m t)
    → t.pending ≡ codes "QUIT\r\n\r\n"
    → t.sent ≡ [] ++ refusal
unfolding requests replies Server.parse_command Server.word_command Server.get_command strtok span
    same reply get_reply
refusal_reaches_client t =
    one_reply (codes "GET x") refusal (at other_script) t x_request-IsServed refl refl refl

-- What the connection of a session that has ended has sent.
abbrev session_sent : Run (Pipe × Option Pipe) → Bytes
session_sent (done (s, _)) = s.sent
session_sent fault = []
session_sent unfinished = []

quit_reaches_server :
    (s : Pipe)
    → Client.start_protocol
        (memory 1)
        (memory 2)
        (λ path. some blank)
        99
        zeros
        []
        (codes "x")
        (codes "b")
        (at refusal)
      ≡ done (s, none)
    → s.sent ≡ [] ++ other_script
unfolding Client.start_protocol Client.finish Client.do_get Client.receive Client.parse_answer
    Client.line_answer Client.ok_answer Client.size_field strsep strstr strtol digits_value
    signed_value send_line write_while write_step returned read_until at_blank_line cut_blank_line
    add_byte byte_of same
quit_reaches_server s e = sym (ap session_sent e)

conversation-Refused_example :
    Refused (memory 1) (memory 2) (memory-IsLawful 1) (at refusal) (codes "x") (
      Client.start_protocol
        (memory 1)
        (memory 2)
        (λ path. some blank)
        99
        zeros
        []
        (codes "x")
        (codes "b")
        (at refusal))
    × Serves
        (memory 0)
        (memory-IsLawful 0)
        (at other_script)
        refusal
        []
        (Server.start_protocol disk (memory 0) 99 zeros base 2 (at other_script))
unfolding same
conversation-Refused_example =
    conversation-Refused disk disk-IsFaithful base zeros zeros-IsCalm 99 (memory 0)
      (memory-IsLawful 0) (memory-IsReliable 0) (memory 1) (memory-IsLawful 1) (memory-IsReliable 1)
      (memory 2) (λ path. some blank) (codes "x") (codes "b") (codes "QUIT\r\n\r\n")
      (at other_script) (at refusal) 2
      (record { some_byte = cc; plain = omega arith; token = (refl, tt) }) (omega arith) refl
      (omega arith) (omega arith) (omega arith) refl refusal_reaches_client quit_reaches_server
