-- ===== src/FileTransfer/Transfer/Missing.antt =====
-- The client and the server when the file is not there.
use mathlib.Core.List.{append_cancel_left}
use iteso_codigos.Common.{
  ℕ, suc, ◌+◌, ◌<◌, ◌≡◌, ◌≢◌, refl, sym, ap, ◌∙◌, Option, none, [], ◌++◌, append_assoc, append-nil,
  length-append, length, arith, All, All-append, lt→ltb,
}
use iteso_codigos.Common.Text.{Bytes, codes}
use iteso_codigos.Common.Run.{Run, done}
use iteso_codigos.Device.{Device, IsLawful, IsReliable}
use iteso_codigos.FileTransfer.Send.{send_line}
use iteso_codigos.FileTransfer.Send.Laws.{send_line-Sends}
use iteso_codigos.FileTransfer.Receive.{cr, blank_line, read_until}
use iteso_codigos.FileTransfer.Receive.Pattern.{IsCalm, IsPlain}
use iteso_codigos.FileTransfer.Receive.Lines.{read_until-line}
use iteso_codigos.FileTransfer.Files.{FileSystem, IsFaithful}
use iteso_codigos.FileTransfer.Server
use iteso_codigos.FileTransfer.Server.{get_file, not_found_text}
use iteso_codigos.FileTransfer.Server.Spec.{IsAnswered, reply, get_reply}
use iteso_codigos.FileTransfer.Server.Session.{Serves}
use iteso_codigos.FileTransfer.Client
use iteso_codigos.FileTransfer.Client.{get_text, quit_text, finish, parse_answer, unknown_answer}
use iteso_codigos.FileTransfer.Client.Reading.{parse_answer_not_found}
use iteso_codigos.FileTransfer.Transfer.{IsName, request-IsServed, request-Serves, request_reaches}

abbrev pub not_found_line : Bytes → Bytes
not_found_line name = codes "NOT_FOUND " ++ name

module _ (FS : FileSystem) (F : IsFaithful FS) (base name : Bytes)
    (missing : FS.open_read (base ++ name) ≡ none) where
  reply-not_found : reply FS F base (get_file name) ≡ not_found_text name
  unfolding reply get_reply
  reply-not_found = rw missing

  not_found-IsAnswered : length (not_found_text name) < 256 → IsAnswered FS F base (get_file name)
  not_found-IsAnswered fits = rw missing fits

-- A run of the client that has asked for a file, got none, and has said QUIT.
pub record Refused (D W : Device) (L : IsLawful D) (s : D.State) (name : Bytes)
    (result : Run (D.State × Option W.State)) : Type 0 where
  pub socket : D.State
  pub returns : result ≡ done (socket, none)
  pub asks : L.sent socket ≡ L.sent s ++ (get_text name ++ quit_text)
  pub drains : L.pending socket ≡ []

module _ (FS : FileSystem) (F : IsFaithful FS) (base : Bytes) (front : Bytes → Bytes)
    (calm : IsCalm front) (fuel : ℕ) (S : Device) (LS : IsLawful S) (RS : IsReliable S) (C : Device)
    (LC : IsLawful C) (RC : IsReliable C) (W : Device) (open_write : Bytes → Option W.State) where
  refused_steps :
      (name local cmd : Bytes) (n m : ℕ) (s s1 s2 s3 : C.State)
      → length (get_text name) < 1024
      → send_line C fuel (get_text name) s ≡ done (n, s1)
      → read_until front C fuel [] s1 ≡ done (cmd, s2)
      → parse_answer cmd ≡ unknown_answer
      → send_line C fuel quit_text s2 ≡ done (m, s3)
      → Client.start_protocol C W open_write fuel front [] name local s ≡ done (s3, none)
  unfolding Client.start_protocol finish
  refused_steps name local cmd n m s s1 s2 s3 room sent got parsed left =
      rw (lt→ltb _ _ room, sent, got, parsed) (rw left refl)

  -- Over reliable devices, with a name that is one token and has no carriage return, for which the
  -- server has no file and which fits its buffer, with the memory that the code reads and has not
  -- written zero, or at least not an end of line: the client's request comes in at the server, and
  -- anything behind it. If what the server has sent when it waits for more is what comes in at the
  -- client, and what the client has sent when it ends is what comes in at the server, then the client's
  -- session ends without a local file, having asked and said QUIT, and the server's session sends
  -- NOT_FOUND and the name and ends.
  pub conversation-Refused :
      (name local later : Bytes) (t : S.State) (s : C.State) (rounds : ℕ)
      → IsName name
      → All (λ c. c ≢ cr) name
      → FS.open_read (base ++ name) ≡ none
      → length (not_found_text name) < 256
      → length (not_found_text name) < fuel
      → 1 < rounds
      → LS.pending t ≡ get_text name ++ later
      → ((t1 : S.State)
          → ((n : ℕ)
              → Server.start_protocol FS S fuel front base (suc n) t
                ≡ Server.start_protocol FS S fuel front base n t1)
          → LS.pending t1 ≡ later
          → LS.sent t1 ≡ LS.sent t ++ LC.pending s)
      → ((s' : C.State)
          → Client.start_protocol C W open_write fuel front [] name local s ≡ done (s', none)
          → LC.sent s' ≡ LC.sent s ++ LS.pending t)
      → Refused C W LC s name (Client.start_protocol C W open_write fuel front [] name local s)
        × Serves S LS t
            (not_found_text name)
            []
            (Server.start_protocol FS S fuel front base rounds t)
  conversation-Refused name local later t s rounds word plain missing room enough more asked
        reaches_client reaches_server =
      let told = reply-not_found FS F base name missing in
      let lengths : length (get_text name) + 6 ≡ length (not_found_text name) =
        omega (arith, length-append name blank_line) in
      let served =
        request-IsServed FS F base name fuel word (not_found-IsAnswered FS F base name missing room)
          (omega (arith, lengths)) (rw told enough) in
      let comes_back : LC.pending s ≡ not_found_text name =
        request_reaches FS F base front calm fuel S LS RS name word served later (LC.pending s) t
          asked reaches_client
        ∙ told in
      let sent =
        send_line-Sends C LC RC (get_text name) (omega arith) fuel s (omega (arith, lengths))
          (omega (arith, lengths)) in
      let read =
        read_until-line front calm C LC RC (not_found_line name) [] fuel sent.final
          ((λ e. cc), All-append IsPlain (codes "NOT_FOUND ") name (omega arith) word.plain)
          (sent.reads_nothing ∙ comes_back ∙ simp (append_assoc, append-nil))
          (omega (arith, enough, length-append name blank_line)) in
      let left =
        send_line-Sends C LC RC quit_text (omega arith) fuel read.final (omega arith)
          (omega (arith, lengths)) in
      let returns =
        refused_steps name local (not_found_line name) _ _ s sent.final read.final left.final
          (omega (arith, lengths, room)) sent.returns read.returns
          (parse_answer_not_found name plain) left.returns in
      let asks : LC.sent left.final ≡ LC.sent s ++ (get_text name ++ quit_text) =
        left.delivers
        ∙ rw (read.sends_nothing, sent.delivers)
            (append_assoc (LC.sent s) (get_text name) quit_text) in
      let said : LS.pending t ≡ get_text name ++ quit_text =
        append_cancel_left (LC.sent s) _ _ (sym (reaches_server left.final returns) ∙ asks) in
      let serves =
        request-Serves FS F base front calm fuel S LS RS name word served t rounds
          (omega (arith, lengths)) more said in
      (
        record {
          socket = left.final;
          returns = returns;
          asks = asks;
          drains = left.reads_nothing ∙ read.leaves;
        },
        record {
          final = serves.final;
          returns = serves.returns;
          delivers = serves.delivers ∙ ap (λ (b : Bytes). LS.sent t ++ b) told;
          leaves = serves.leaves;
        },
      )
