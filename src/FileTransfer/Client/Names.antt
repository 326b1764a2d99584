-- ===== src/FileTransfer/Client/Names.antt =====
-- `get_list` in the client, against the listing that the specification of the server gives.
use iteso_codigos.Common.{
  ℕ, suc, ◌+◌, ◌≤◌, ◌<◌, ◌≡◌, ◌≢◌, refl, ap, ◌∙◌, false, List, [], ◌∷◌, ◌++◌, append_assoc,
  append-nil, length-append, length, arith, All,
}
use iteso_codigos.Common.Text.{Bytes}
use iteso_codigos.Common.Run.{done}
use iteso_codigos.Device.{Device, IsLawful, IsReliable}
use iteso_codigos.FileTransfer.Send.Laws.{send_line-Sends}
use iteso_codigos.FileTransfer.Receive.{crlf, blank_line, read_until, lf}
use iteso_codigos.FileTransfer.Receive.Pattern.{IsCalm, last_byte}
use iteso_codigos.FileTransfer.Receive.Loop.{read_until-Quiet}
use iteso_codigos.FileTransfer.Receive.Lines.{IsLine, join_lines, read_until-join_lines, Quiet-crlf}
use iteso_codigos.FileTransfer.Server.{is_hidden}
use iteso_codigos.FileTransfer.Server.Spec.{listing}
use iteso_codigos.FileTransfer.Client.{list_text, get_list}

-- A name that is shown is one line of text.
abbrev pub IsShown : Bytes → Type 0
IsShown name = IsLine name × (is_hidden name ≡ false)

listing-cons :
    (name : Bytes) (names : List Bytes)
    → is_hidden name ≡ false
    → listing (name ∷ names) ≡ (name ++ crlf) ++ listing names
unfolding listing
listing-cons name names shown = rw shown

join_lines-cons :
    (l m : Bytes) (ls : List Bytes) → join_lines (l ∷ m ∷ ls) ≡ l ++ (crlf ++ join_lines (m ∷ ls))
unfolding join_lines
join_lines-cons l m ls = refl

one_line : (l : Bytes) → ((l ++ crlf) ++ listing []) ++ crlf ≡ join_lines (l ∷ []) ++ blank_line
unfolding listing join_lines
one_line l = simp (append_assoc, append-nil)

listing-join_lines :
    (name : Bytes) (names : List Bytes)
    → All IsShown (name ∷ names)
    → listing (name ∷ names) ++ crlf ≡ join_lines (name ∷ names) ++ blank_line
listing-join_lines name [] ((_, shown), _) = rw (listing-cons name [] shown) (one_line name)
listing-join_lines name (other ∷ names) ((_, shown), h) =
    rw (listing-cons name (other ∷ names) shown, join_lines-cons name other names)
      (append_assoc (name ++ crlf) (listing (other ∷ names)) crlf
        ∙ ap (λ (t : Bytes). (name ++ crlf) ++ t) (listing-join_lines other names h)
        ∙ simp append_assoc)

shown-IsLine : (names : List Bytes) → All IsShown names → All IsLine names
shown-IsLine [] _ = tt
shown-IsLine (name ∷ names) ((line, _), h) = (line, shown-IsLine names h)

last_byte-nil : last_byte [] ≢ lf
unfolding last_byte
last_byte-nil = omega arith

module _ (D : Device) (L : IsLawful D) (R : IsReliable D) (front : Bytes → Bytes)
    (calm : IsCalm front) (fuel : ℕ) where
  -- Over a reliable socket and with fresh memory that is zero: on the listing of one or more names,
  -- the client ends with the names, has asked for the list, and reads no byte behind the listing.
  pub get_list-Reads :
      (name : Bytes) (names : List Bytes) (rest : Bytes) (s : D.State)
      → All IsShown (name ∷ names)
      → L.pending s ≡ (listing (name ∷ names) ++ crlf) ++ rest
      → 8 < fuel
      → length (listing (name ∷ names)) + 2 ≤ fuel
      → (s' : D.State) × (get_list D fuel front [] s ≡ done (join_lines (name ∷ names), s'))
        × (L.pending s' ≡ rest)
        × (L.sent s' ≡ L.sent s ++ list_text)
  unfolding get_list
  get_list-Reads name names rest s shown input enough fits =
      let whole = listing-join_lines name names shown in
      let len = ap length whole in
      let asked = send_line-Sends D L R list_text (omega arith) fuel s (omega arith) enough in
      let read =
        read_until-join_lines front calm D L R name rest names fuel asked.final
          (shown-IsLine (name ∷ names) shown)
          (asked.reads_nothing
            ∙ input
            ∙ ap (λ (t : Bytes). t ++ rest) whole
            ∙ append_assoc _ blank_line rest)
          (omega (
            arith,
            len,
            length-append (listing (name ∷ names)) crlf,
            length-append (join_lines (name ∷ names)) blank_line,
          )) in
      (read.final, rw asked.returns read.returns, read.leaves, read.sends_nothing ∙ asked.delivers)

  -- Over a reliable socket, the listing of an empty directory is one end of line: when the client has read it, its loop goes
  -- on reading although nothing is left to come.
  pub get_list_empty :
      (s : D.State) (more : ℕ)
      → fuel ≡ suc (suc more)
      → 8 < fuel
      → L.pending s ≡ listing [] ++ crlf
      → (s' : D.State) × (get_list D fuel front [] s ≡ read_until front D more crlf s')
        × (L.pending s' ≡ [])
  unfolding get_list listing
  get_list_empty s more e enough input =
      let asked = send_line-Sends D L R list_text (omega arith) fuel s (omega arith) enough in
      let (s', run, left, _) =
        read_until-Quiet D L R front crlf [] [] more asked.final
          (Quiet-crlf front calm [] last_byte-nil) (asked.reads_nothing ∙ input) in
      let counted : fuel ≡ length crlf + more = omega (arith, e) in
      (
        s',
        rw asked.returns (ap (λ (n : ℕ). read_until front D n [] asked.final) counted ∙ run),
        left,
      )
