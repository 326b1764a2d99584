-- ===== src/FileTransfer/Client/Get.antt =====
-- A whole GET in the client, against the answer that the specification of the server gives.
use iteso_codigos.Common.{
  ℕ, ◌%◌, ◌^◌, ◌<◌, ◌≡◌, ap, ◌∙◌, Option, some, [], ◌∷◌, ◌++◌, append_assoc, length-append, length,
  arith, All, All-append, lt→ltb,
}
use iteso_codigos.Common.Text.{Bytes, codes}
use iteso_codigos.Common.Run.{Run, done}
use iteso_codigos.Libc.Number.{print_u, IsDigit}
use iteso_codigos.Libc.Number.RoundTrip.{print_u-All}
use iteso_codigos.Device.{Device, IsLawful, IsReliable}
use iteso_codigos.FileTransfer.Send.{send_line}
use iteso_codigos.FileTransfer.Send.Laws.{send_line-Sends}
use iteso_codigos.FileTransfer.Receive.{blank_line, read_until}
use iteso_codigos.FileTransfer.Receive.Pattern.{IsCalm, IsPlain}
use iteso_codigos.FileTransfer.Receive.Lines.{IsLine, join_lines, read_until-join_lines}
use iteso_codigos.FileTransfer.Server.Spec.{header}
use iteso_codigos.FileTransfer.Client.{
  get_text, quit_text, receive, do_get, finish, file_size, parse_answer, start_protocol,
}
use iteso_codigos.FileTransfer.Client.Reading.{parse_answer-ok_lines}
use iteso_codigos.FileTransfer.Client.Receive.{receive-Saves}

-- A run of the client that has asked for a file, has it whole in the local file, and has said QUIT.
pub record Gets (D W : Device) (L : IsLawful D) (LW : IsLawful W) (s : D.State) (w : W.State)
    (name content : Bytes) (result : Run (D.State × Option W.State)) : Type 0 where
  pub socket : D.State
  pub file : W.State
  pub returns : result ≡ done (socket, some file)
  pub saves : LW.sent file ≡ LW.sent w ++ content
  pub asks : L.sent socket ≡ L.sent s ++ (get_text name ++ quit_text)
  pub drains : L.pending socket ≡ []

in_range : (n : ℕ) → n < 2 ^ 32 → n % 2 ^ 32 ≡ n
in_range n h = omega arith

size_line : ℕ → Bytes
size_line n = codes "Size: " ++ print_u n

digits-All-IsPlain : (t : Bytes) → All IsDigit t → All IsPlain t
digits-All-IsPlain [] _ = tt
digits-All-IsPlain (c ∷ t) (d, h) = (omega (arith, d), digits-All-IsPlain t h)

ok_lines-IsLine : (n : ℕ) → All IsLine (codes "OK" ∷ size_line n ∷ [])
unfolding size_line
ok_lines-IsLine n = (
  (cc, omega arith),
  (
    (
      cc,
      All-append IsPlain (codes "Size: ") (print_u n) (omega arith)
          (digits-All-IsPlain _ (print_u-All n)),
    ),
    tt,
  ),
)

header-join_lines :
    (n : ℕ) (p : Bytes)
    → header n ++ p ≡ join_lines (codes "OK" ∷ size_line n ∷ []) ++ (blank_line ++ p)
unfolding join_lines size_line
header-join_lines n p = simp append_assoc

module _ (D W : Device) (open_write : Bytes → Option W.State) (fuel : ℕ) (L : IsLawful D)
    (R : IsReliable D) (LW : IsLawful W) (RW : IsReliable W) (front : Bytes → Bytes)
    (calm : IsCalm front) where
  start_protocol_steps :
      (name local cmd : Bytes) (n m size : ℕ) (s s1 s2 s3 s4 : D.State) (w w' : W.State)
      → length (get_text name) < 1024
      → send_line D fuel (get_text name) s ≡ done (n, s1)
      → read_until front D fuel [] s1 ≡ done (cmd, s2)
      → parse_answer cmd ≡ file_size size
      → open_write local ≡ some w
      → receive D W open_write fuel fuel size 0 s2 w ≡ done (s3, w')
      → send_line D fuel quit_text s3 ≡ done (m, s4)
      → start_protocol D W open_write fuel front [] name local s ≡ done (s4, some w')
  unfolding start_protocol finish do_get
  start_protocol_steps name local cmd n m size s s1 s2 s3 s4 w w' room sent got parsed opened saved
        left =
      rw (lt→ltb _ _ room, sent, got, parsed, finish) (rw (opened, do_get) (rw (saved, left)))

  -- Over reliable devices and with fresh memory that is zero: if the server answers with a file below
  -- 4 GB, the name fits the buffer and the local file can be created, the session ends, has asked for
  -- the name and then to quit, and has written exactly the content to the local file.
  pub start_protocol-Gets :
      (name local content : Bytes) (s : D.State) (w : W.State)
      → open_write local ≡ some w
      → L.pending s ≡ header (length content) ++ content
      → length content < 2 ^ 32
      → length (get_text name) < 1024
      → length (get_text name) < fuel
      → length (header (length content) ++ content) < fuel
      → Gets D W L LW s w name content (start_protocol D W open_write fuel front [] name local s)
  start_protocol-Gets name local content s w opened input small room enough fits =
      let size = length content in
      let parts = ap length (header-join_lines size content) in
      let joined =
        length-append (join_lines (codes "OK" ∷ size_line size ∷ [])) (blank_line ++ content) in
      let asked = send_line-Sends D L R (get_text name) (omega arith) fuel s (omega arith) enough in
      let read =
        read_until-join_lines front calm D L R (codes "OK") content (size_line size ∷ []) fuel
          asked.final (ok_lines-IsLine size)
          (asked.reads_nothing ∙ input ∙ header-join_lines size content)
          (omega (arith, fits, parts, joined)) in
      let parsed = parse_answer-ok_lines size ∙ ap file_size (in_range size small) in
      let saved =
        receive-Saves D W open_write fuel L R LW RW fuel size 0 read.final w small
          (rw read.leaves (omega arith)) (rw read.leaves (omega (arith, fits, parts, joined)))
          (rw read.leaves (omega (arith, fits, parts, joined))) in
      let left =
        send_line-Sends D L R quit_text (omega arith) fuel saved.socket (omega arith)
          (omega (arith, enough)) in
      record {
        socket = left.final;
        file = saved.file;
        returns =
            start_protocol_steps name local _ _ _ size s asked.final read.final saved.socket
              left.final w saved.file room asked.returns read.returns
              (unfold join_lines size_line in parsed) opened saved.returns left.returns;
        saves = saved.writes ∙ ap (λ (t : Bytes). LW.sent w ++ t) read.leaves;
        asks =
            left.delivers
            ∙ rw (saved.sends_nothing, read.sends_nothing, asked.delivers)
                (append_assoc (L.sent s) (get_text name) quit_text);
        drains = left.reads_nothing ∙ saved.drains;
      }
