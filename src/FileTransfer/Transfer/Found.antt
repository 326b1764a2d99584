-- ===== src/FileTransfer/Transfer/Found.antt =====
-- The client and the server when the file is there.
use mathlib.Core.List.{append_cancel_left}
use iteso_codigos.Common.{
  ℕ, suc, ◌^◌, ◌<◌, ◌≡◌, sym, ap, ◌∙◌, Option, some, [], ◌++◌, length, arith,
}
use iteso_codigos.Common.Text.{Bytes}
use iteso_codigos.Common.Run.{done}
use iteso_codigos.Device.{Device, IsLawful, IsReliable}
use iteso_codigos.FileTransfer.Receive.Pattern.{IsCalm}
use iteso_codigos.FileTransfer.Files.{FileSystem, IsFaithful}
use iteso_codigos.FileTransfer.Server
use iteso_codigos.FileTransfer.Server.{get_file, not_found_text}
use iteso_codigos.FileTransfer.Server.Spec.{IsAnswered, reply, get_reply, header}
use iteso_codigos.FileTransfer.Server.Session.{Serves}
use iteso_codigos.FileTransfer.Client
use iteso_codigos.FileTransfer.Client.{get_text, quit_text, finish, parse_answer, unknown_answer}
use iteso_codigos.FileTransfer.Client.Get.{Gets, start_protocol-Gets}
use iteso_codigos.FileTransfer.Transfer.{IsName, request-IsServed, request-Serves, request_reaches}

module _ (FS : FileSystem) (F : IsFaithful FS) (base name : Bytes) (f : FS.File.State)
    (found : FS.open_read (base ++ name) ≡ some f) where
  reply-get_file : reply FS F base (get_file name) ≡ header (FS.size f) ++ F.lawful.pending f
  unfolding reply get_reply
  reply-get_file = rw found

  get_file-IsAnswered : IsAnswered FS F base (get_file name)
  get_file-IsAnswered = rw found tt

module _ (FS : FileSystem) (F : IsFaithful FS) (base : Bytes) (front : Bytes → Bytes)
    (calm : IsCalm front) (fuel : ℕ) (S : Device) (LS : IsLawful S) (RS : IsReliable S) (C : Device)
    (LC : IsLawful C) (RC : IsReliable C) (W : Device) (LW : IsLawful W) (RW : IsReliable W)
    (open_write : Bytes → Option W.State) where
  -- Over reliable devices, for a file of the server below 4 GB whose name is one token and fits the
  -- client's buffer, with the memory that the code reads and has not written zero, or at least not an
  -- end of line: the client's request comes in at the server, and anything behind it. If what the
  -- server has sent when it waits for more is what comes in at the client, and what the client has
  -- sent when it ends is what comes in at the server, then the client's session ends with exactly the
  -- bytes of the file written to the local file, and the server's session sends its reply and ends.
  pub conversation :
      (name local later : Bytes) (f : FS.File.State) (w : W.State) (t : S.State) (s : C.State)
      (rounds : ℕ)
      → IsName name
      → FS.open_read (base ++ name) ≡ some f
      → open_write local ≡ some w
      → length (F.lawful.pending f) < 2 ^ 32
      → length (get_text name) < 1024
      → length (get_text name) < fuel
      → length (header (FS.size f) ++ F.lawful.pending f) < fuel
      → 1 < rounds
      → LS.pending t ≡ get_text name ++ later
      → ((t1 : S.State)
          → ((n : ℕ)
              → Server.start_protocol FS S fuel front base (suc n) t
                ≡ Server.start_protocol FS S fuel front base n t1)
          → LS.pending t1 ≡ later
          → LS.sent t1 ≡ LS.sent t ++ LC.pending s)
      → ((s' : C.State) (w' : W.State)
          → Client.start_protocol C W open_write fuel front [] name local s ≡ done (s', some w')
          → LC.sent s' ≡ LC.sent s ++ LS.pending t)
      → Serves S LS t
          (reply FS F base (get_file name))
          []
          (Server.start_protocol FS S fuel front base rounds t)
        × Gets C W LC LW s w name
            (F.lawful.pending f)
            (Client.start_protocol C W open_write fuel front [] name local s)
  conversation name local later f w t s rounds word found opened small room enough fits more asked
        reaches_client reaches_server =
      let content = F.lawful.pending f in
      let told = reply-get_file FS F base name f found in
      let served =
        request-IsServed FS F base name fuel word (get_file-IsAnswered FS F base name f found)
          enough (rw told fits) in
      let comes_back : LC.pending s ≡ reply FS F base (get_file name) =
        request_reaches FS F base front calm fuel S LS RS name word served later (LC.pending s) t
          asked reaches_client in
      let head : header (FS.size f) ++ content ≡ header (length content) ++ content =
        ap (λ (n : ℕ). header n ++ content) (F.size-pending (base ++ name) f found) in
      let gets =
        start_protocol-Gets C W open_write fuel LC RC LW RW front calm name local content s w opened
          (comes_back ∙ told ∙ head) small room enough (omega (arith, fits, ap length head)) in
      let said : LS.pending t ≡ get_text name ++ quit_text =
        append_cancel_left (LC.sent s) _ _
          (sym (reaches_server gets.socket gets.file gets.returns) ∙ gets.asks) in
      (
        request-Serves FS F base front calm fuel S LS RS name word served t rounds
            (omega (arith, fits)) more said,
        gets,
      )
