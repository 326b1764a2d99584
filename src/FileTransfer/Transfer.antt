-- ===== src/FileTransfer/Transfer.antt =====
-- Both ends of a transfer: what the client writes is what the server reads, and the other way round.
pub mod Found
pub mod Missing
use mathlib.Core.List.{append_cancel_left}
use iteso_codigos.Common.{
  ℕ, suc, ◌^◌, ◌<◌, ◌≡◌, ◌≢◌, refl, sym, ap, ◌∙◌, Option, some, [], ◌∷◌, ◌++◌, append_assoc,
  append-nil, length-append, length, arith, All, All-append,
}
use iteso_codigos.Common.Text.{Bytes, codes, same}
use iteso_codigos.Libc.Search.{IsToken, strtok-append, strtok-token}
use iteso_codigos.Device.{Device, IsLawful, IsReliable}
use iteso_codigos.Common.Run.{done}
use iteso_codigos.FileTransfer.Receive.{blank_line}
use iteso_codigos.FileTransfer.Receive.Pattern.{IsCalm, IsPlain}
use iteso_codigos.FileTransfer.Files.{FileSystem, IsFaithful}
use iteso_codigos.FileTransfer.Server
use iteso_codigos.FileTransfer.Server.{Command, get_file, parse_command, word_command, get_command}
use iteso_codigos.FileTransfer.Server.Spec.{
  IsAnswered, IsServed, reply, get_reply, requests, replies, header,
}
use iteso_codigos.FileTransfer.Server.Session.{
  Serves, Prompt, quit_line, start_protocol-Prompt, start_protocol-Serves,
}
use iteso_codigos.FileTransfer.Client
use iteso_codigos.FileTransfer.Client.{get_text, quit_text}
use iteso_codigos.FileTransfer.Client.Get.{Gets, start_protocol-Gets}

abbrev pub request : Bytes → Bytes
request name = codes "GET " ++ name

-- A file name that can be asked for: one word.
pub record IsName (name : Bytes) : Type 0 where
  pub some_byte : name ≢ []
  pub plain : All IsPlain name
  pub token : All IsToken name

-- The server understands the request that the client writes.
pub parse_command-request :
    (name : Bytes) → name ≢ [] → All IsToken name → parse_command (request name) ≡ get_file name
unfolding parse_command word_command get_command same
parse_command-request name some_byte token = ground (
  arith,
  strtok-append (codes "GET") name b' ' (cc) (refl, (refl, (refl, tt))) refl,
  strtok-token name some_byte token,
)

asked_requests :
    (FS : FileSystem) (F : IsFaithful FS) (base name : Bytes)
    → get_text name ++ quit_text
      ≡ requests FS F base (request name ∷ []) ++ (quit_line ++ (blank_line ++ []))
unfolding requests
asked_requests FS F base name = simp (append_assoc, append-nil)

replies-request :
    (FS : FileSystem) (F : IsFaithful FS) (base name : Bytes)
    → IsName name
    → replies FS F base (request name ∷ []) ≡ reply FS F base (get_file name)
unfolding replies
replies-request FS F base name word =
    rw (parse_command-request name word.some_byte word.token) (append-nil _)

pub request-IsServed :
    (FS : FileSystem) (F : IsFaithful FS) (base name : Bytes) (fuel : ℕ)
    → IsName name
    → IsAnswered FS F base (get_file name)
    → length (get_text name) < fuel
    → length (reply FS F base (get_file name)) < fuel
    → IsServed FS F base fuel (request name)
request-IsServed FS F base name fuel word answered enough fits = (
  (cc, All-append IsPlain (codes "GET ") name (omega arith) word.plain),
  rw (parse_command-request name word.some_byte word.token) answered,
  omega (arith, enough, length-append (request name) blank_line),
  rw (parse_command-request name word.some_byte word.token) fits,
)

module _ (FS : FileSystem) (F : IsFaithful FS) (base : Bytes) (front : Bytes → Bytes)
    (calm : IsCalm front) (fuel : ℕ) (S : Device) (LS : IsLawful S) (RS : IsReliable S)
    (name : Bytes) (word : IsName name) (served : IsServed FS F base fuel (request name)) where
  -- The whole session of one request.
  pub request-Serves :
      (t : S.State) (rounds : ℕ)
      → 8 < fuel
      → 1 < rounds
      → LS.pending t ≡ get_text name ++ quit_text
      → Serves S LS t
          (reply FS F base (get_file name))
          []
          (Server.start_protocol FS S fuel front base rounds t)
  request-Serves t rounds enough more asked =
      let serves =
        start_protocol-Serves FS F S LS RS fuel front calm base (request name ∷ []) [] rounds t
          (served, tt) enough (omega arith) (asked ∙ asked_requests FS F base name) in
      record {
        final = serves.final;
        returns = serves.returns;
        delivers =
            serves.delivers
            ∙ ap (λ (b : Bytes). LS.sent t ++ b) (replies-request FS F base name word);
        leaves = serves.leaves;
      }

  -- What the session has sent when it waits behind the request, if that is what comes in elsewhere.
  pub request_reaches :
      (later arriving : Bytes) (t : S.State)
      → LS.pending t ≡ get_text name ++ later
      → ((t1 : S.State)
          → ((n : ℕ)
              → Server.start_protocol FS S fuel front base (suc n) t
                ≡ Server.start_protocol FS S fuel front base n t1)
          → LS.pending t1 ≡ later
          → LS.sent t1 ≡ LS.sent t ++ arriving)
      → arriving ≡ reply FS F base (get_file name)
  request_reaches later arriving t asked reaches =
      let p =
        start_protocol-Prompt FS F S LS RS fuel front calm base (request name ∷ []) later t
          (served, tt) (asked ∙ unfold requests in simp append_assoc) in
      let once : (n : ℕ)
          → Server.start_protocol FS S fuel front base (suc n) t
            ≡ Server.start_protocol FS S fuel front base n p.waiting =
        λ n.
          ap (λ (k : ℕ). Server.start_protocol FS S fuel front base k t) (omega arith)
          ∙ p.goes_on n in
      append_cancel_left (LS.sent t) _ _ (sym (reaches p.waiting once p.leaves) ∙ p.delivers)
      ∙ replies-request FS F base name word
