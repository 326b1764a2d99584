-- ===== src/FileTransfer/Receive/Lines.antt =====
-- Messages of the protocol: lines that end in CR LF, and an empty line.
use iteso_codigos.Common.{
  ℕ, ◌+◌, ◌≤◌, ◌≡◌, sym, ◌∙◌, ◌≢◌, List, [], ◌∷◌, ◌++◌, append_assoc, length, arith, All,
}
use iteso_codigos.Common.Text.{Bytes}
use iteso_codigos.Device.{Device, IsLawful, IsReliable}
use iteso_codigos.FileTransfer.Receive.{cr, lf, crlf, blank_line, read_until}
use iteso_codigos.FileTransfer.Receive.Pattern.{
  IsCalm, IsPlain, last_byte, last_byte-append, last_byte-ne-lf, not_at_blank_line,
  not_at_blank_line_crlf,
}
use iteso_codigos.FileTransfer.Receive.Loop.{Quiet, Quiet-append, Reads, read_until-Reads}

-- A line that is not empty, without its end.
abbrev pub IsLine : Bytes → Type 0
IsLine l = (l ≢ []) × All IsPlain l

-- The lines with an end of line between them.
unfoldable pub join_lines : List Bytes → Bytes
join_lines [] = []
join_lines (l ∷ []) = l
join_lines (l ∷ m ∷ ls) = l ++ (crlf ++ join_lines (m ∷ ls))

module _ (front : Bytes → Bytes) (calm : IsCalm front) where
  pub Quiet-plain : (cmd t : Bytes) → All IsPlain t → Quiet front cmd t
  Quiet-plain cmd [] _ = tt
  Quiet-plain cmd (c ∷ t) (p, h) =
      (p.0, not_at_blank_line front calm cmd c p.1, Quiet-plain (cmd ++ c ∷ []) t h)

  pub Quiet-crlf : (cmd : Bytes) → last_byte cmd ≢ lf → Quiet front cmd crlf
  Quiet-crlf cmd h = (
    omega arith,
    not_at_blank_line front calm cmd cr (omega arith),
    (omega arith, not_at_blank_line_crlf front calm cmd h, tt),
  )

  -- A line and its end, behind anything.
  Quiet-line : (cmd l : Bytes) → IsLine l → Quiet front cmd (l ++ crlf)
  Quiet-line cmd l (some_byte, plain) = Quiet-append front cmd l crlf (Quiet-plain cmd l plain) (
      Quiet-crlf (cmd ++ l)
        λ e. last_byte-ne-lf l plain (sym (last_byte-append cmd l some_byte) ∙ e))

  pub Quiet-join_lines :
      (cmd l : Bytes) (ls : List Bytes)
      → All IsLine (l ∷ ls)
      → Quiet front cmd (join_lines (l ∷ ls) ++ cr ∷ lf ∷ cr ∷ [])
  unfolding join_lines
  Quiet-join_lines cmd l [] (h, _) =
      let end_line : Quiet front (cmd ++ (l ++ crlf)) (cr ∷ []) =
        (omega arith, not_at_blank_line front calm _ cr (omega arith), tt) in
      rw (append_assoc l crlf (cr ∷ [])) at
        (Quiet-append front cmd (l ++ crlf) (cr ∷ []) (Quiet-line cmd l h) end_line)
  Quiet-join_lines cmd l (m ∷ ls) (h, hs) =
      let rest = join_lines (m ∷ ls) in
      let regroup : (l ++ crlf) ++ (rest ++ cr ∷ lf ∷ cr ∷ [])
          ≡ (l ++ (crlf ++ rest)) ++ cr ∷ lf ∷ cr ∷ [] =
        simp append_assoc in
      rw regroup at (
        Quiet-append front cmd (l ++ crlf) (rest ++ cr ∷ lf ∷ cr ∷ []) (Quiet-line cmd l h)
          (Quiet-join_lines (cmd ++ (l ++ crlf)) m ls hs))

  -- Over a reliable device, a message of one or more lines is read to the end of its last line, and
  -- what comes behind its empty line stays unread.
  pub read_until-join_lines :
      (D : Device) (L : IsLawful D)
      → IsReliable D
      → (l rest : Bytes) (ls : List Bytes) (fuel : ℕ) (s : D.State) → All IsLine (l ∷ ls)
      → L.pending s ≡ join_lines (l ∷ ls) ++ (blank_line ++ rest)
      → length (join_lines (l ∷ ls)) + 4 ≤ fuel
      → Reads D L s (join_lines (l ∷ ls)) rest (read_until front D fuel [] s)
  read_until-join_lines D L R l rest ls fuel s lines h enough =
      read_until-Reads D L R front (join_lines (l ∷ ls)) rest fuel s
        (Quiet-join_lines [] l ls lines) h enough

  -- A message of one line.
  pub read_until-line :
      (D : Device) (L : IsLawful D)
      → IsReliable D
      → (l rest : Bytes) (fuel : ℕ) (s : D.State) → IsLine l
      → L.pending s ≡ l ++ (blank_line ++ rest)
      → length l + 4 ≤ fuel
      → Reads D L s l rest (read_until front D fuel [] s)
  unfolding join_lines
  read_until-line D L R l rest fuel s line h enough =
      read_until-join_lines D L R l rest [] fuel s (line, tt) h enough
