-- ===== src/FileTransfer/Server/Session.antt =====
-- A whole session: `start_protocol` from the first request to QUIT.
use iteso_codigos.Common.{
  ℕ, suc, ◌+◌, ◌-◌, ◌<◌, ◌≡◌, refl, sym, ap, ◌∙◌, List, [], ◌∷◌, ◌++◌, append_assoc, append-nil,
  length, arith, All,
}
use iteso_codigos.Common.Text.{Bytes, codes, same}
use iteso_codigos.Common.Run.{Run, done, fault}
use iteso_codigos.Libc.Search.{strtok, span}
use iteso_codigos.Device.{Device, IsLawful, IsReliable}
use iteso_codigos.FileTransfer.Receive.{blank_line, read_until}
use iteso_codigos.FileTransfer.Receive.Pattern.{IsCalm}
use iteso_codigos.FileTransfer.Receive.Loop.{read_until_end}
use iteso_codigos.FileTransfer.Receive.Lines.{IsLine, read_until-line}
use iteso_codigos.FileTransfer.Files.{FileSystem, IsFaithful}
use iteso_codigos.FileTransfer.Server.{
  Command, quit, no_token, parse_command, word_command, answer, serve, start_protocol,
}
use iteso_codigos.FileTransfer.Server.Spec.{IsAnswered, IsServed, requests, replies}
use iteso_codigos.FileTransfer.Server.Answer.{answer-Answers}

-- A session that returns, with what it sent and what it left unread.
pub record Serves (D : Device) (L : IsLawful D) (s : D.State) (out rest : Bytes)
    (result : Run D.State) : Type 0 where
  pub final : D.State
  pub returns : result ≡ done final
  pub delivers : L.sent final ≡ L.sent s ++ out
  pub leaves : L.pending final ≡ rest

abbrev pub quit_line : Bytes
quit_line = codes "QUIT"

parse_command_quit : parse_command quit_line ≡ quit
unfolding parse_command word_command strtok span same
parse_command_quit = refl

quit_line-IsLine : IsLine quit_line
quit_line-IsLine = (cc, omega arith)

module _ (FS : FileSystem) (F : IsFaithful FS) (D : Device) (L : IsLawful D) (R : IsReliable D)
    (fuel : ℕ) (front : Bytes → Bytes) (calm : IsCalm front) (base : Bytes) where
  serve-answer :
      (c : Command) (s s' : D.State) (next : D.State → Run D.State)
      → IsAnswered FS F base c
      → answer FS D fuel base c s ≡ done s'
      → serve FS D fuel base c s next ≡ next s'
  unfolding serve
  serve-answer quit s s' next never told = absurd never
  serve-answer no_token s s' next never told = absurd never
  serve-answer c s s' next ans told = rw told

  start_protocol_step :
      (r : Bytes) (rounds : ℕ) (s s1 s2 : D.State)
      → IsAnswered FS F base (parse_command r)
      → read_until front D fuel [] s ≡ done (r, s1)
      → answer FS D fuel base (parse_command r) s1 ≡ done s2
      → start_protocol FS D fuel front base (suc rounds) s
        ≡ start_protocol FS D fuel front base rounds s2
  unfolding start_protocol
  start_protocol_step r rounds s s1 s2 ans got told =
      rw got (serve-answer (parse_command r) s1 s2 _ ans told)

  start_protocol_quit :
      (rounds : ℕ) (s s1 : D.State)
      → read_until front D fuel [] s ≡ done (quit_line, s1)
      → start_protocol FS D fuel front base (suc rounds) s ≡ done s1
  unfolding start_protocol serve
  start_protocol_quit rounds s s1 got = rw (got, parse_command_quit)

  -- What the session has done when it waits behind the requests `rs`: for every number of further
  -- rounds it goes on from the state `waiting`.
  pub record Prompt (rs : List Bytes) (s : D.State) (later : Bytes) : Type 0 where
    pub waiting : D.State
    pub goes_on :
        (rounds : ℕ)
        → start_protocol FS D fuel front base (length rs + rounds) s
          ≡ start_protocol FS D fuel front base rounds waiting
    pub delivers : L.sent waiting ≡ L.sent s ++ replies FS F base rs
    pub leaves : L.pending waiting ≡ later

  -- Over a reliable socket, with requests whose commands have a specified reply and whose texts fit
  -- their buffers and the fuel, and whatever comes in behind them: the session has answered each
  -- request by its reply, in the order of the requests, before it reads a byte of what comes behind.
  pub start_protocol-Prompt :
      (rs : List Bytes) (later : Bytes) (s : D.State)
      → All (IsServed FS F base fuel) rs
      → L.pending s ≡ requests FS F base rs ++ later
      → Prompt rs s later
  unfolding requests replies
  start_protocol-Prompt [] later s _ input = record {
    waiting = s;
    goes_on = λ rounds. ap (λ (n : ℕ). start_protocol FS D fuel front base n s) (omega arith);
    delivers = sym (append-nil _);
    leaves = input;
  }
  start_protocol-Prompt (r ∷ rs) later s (served, more) input =
      let (line, answered, short, fits) = served in
      let reads =
        read_until-line front calm D L R r (requests FS F base rs ++ later) fuel s line
          (input ∙ simp append_assoc) (omega arith) in
      let told = answer-Answers FS F D L R fuel base (parse_command r) reads.final answered fits in
      let others =
        start_protocol-Prompt rs later told.final more (told.reads_nothing ∙ reads.leaves) in
      record {
        waiting = others.waiting;
        goes_on = λ rounds.
            ap (λ (n : ℕ). start_protocol FS D fuel front base n s) (omega arith)
            ∙ start_protocol_step r (length rs + rounds) s reads.final told.final answered
                reads.returns told.returns
            ∙ others.goes_on rounds;
        delivers =
            others.delivers ∙ rw (told.delivers, reads.sends_nothing) (append_assoc (L.sent s) _ _);
        leaves = others.leaves;
      }

  -- With rounds for each request and one more.
  start_protocol_within :
      (rs : List Bytes) (rounds : ℕ) (s : D.State) (later : Bytes) (p : Prompt rs s later)
      → length rs < rounds
      → start_protocol FS D fuel front base rounds s
        ≡ start_protocol FS D fuel front base (suc (rounds - length rs - 1)) p.waiting
  start_protocol_within rs rounds s later p h =
      let e : rounds ≡ length rs + suc (rounds - length rs - 1) = omega arith in
      ap (λ (n : ℕ). start_protocol FS D fuel front base n s) e ∙ p.goes_on _

  -- Over a reliable socket, with requests whose commands have a specified reply and whose texts fit
  -- their buffers and the fuel: the session answers each request by its reply, in the order of the
  -- requests, and ends at QUIT with the input behind it unread.
  pub start_protocol-Serves :
      (rs : List Bytes) (rest : Bytes) (rounds : ℕ) (s : D.State)
      → All (IsServed FS F base fuel) rs
      → 8 < fuel
      → length rs < rounds
      → L.pending s ≡ requests FS F base rs ++ (quit_line ++ (blank_line ++ rest))
      → Serves D L s (replies FS F base rs) rest (start_protocol FS D fuel front base rounds s)
  start_protocol-Serves rs rest rounds s served enough h input =
      let p = start_protocol-Prompt rs (quit_line ++ (blank_line ++ rest)) s served input in
      let reads =
        read_until-line front calm D L R quit_line rest fuel p.waiting quit_line-IsLine p.leaves
          (omega arith) in
      record {
        final = reads.final;
        returns =
            start_protocol_within rs rounds s _ p h
            ∙ start_protocol_quit _ p.waiting reads.final reads.returns;
        delivers = reads.sends_nothing ∙ p.delivers;
        leaves = reads.leaves;
      }

  -- At the end of the input the loop finds no token, and passes a null pointer to `strcmp`.
  start_protocol_end :
      (rounds : ℕ) (s : D.State)
      → L.pending s ≡ []
      → 0 < fuel
      → start_protocol FS D fuel front base (suc rounds) s ≡ fault
  unfolding start_protocol parse_command strtok serve answer
  start_protocol_end rounds s input enough =
      let e : fuel ≡ suc (fuel - 1) = omega arith in
      let reads = read_until_end D L R front [] (fuel - 1) s input in
      let got : read_until front D fuel [] s ≡ done ([], reads.final) =
        ap (λ (n : ℕ). read_until front D n [] s) e ∙ reads.returns in
      rw got

  -- Over a reliable socket, with requests whose commands have a specified reply and whose texts fit
  -- their buffers and the fuel: a client that sends these and closes the connection without QUIT gets
  -- all its replies, and from where the session waits behind them, with nothing left to read, it goes
  -- on to hand a null pointer to `strcmp`.
  pub start_protocol_closed :
      (rs : List Bytes) (rounds : ℕ) (s : D.State)
      → All (IsServed FS F base fuel) rs
      → 0 < fuel
      → length rs < rounds
      → L.pending s ≡ requests FS F base rs
      → Prompt rs s [] × (start_protocol FS D fuel front base rounds s ≡ fault)
  start_protocol_closed rs rounds s served enough h input =
      let p = start_protocol-Prompt rs [] s served (input ∙ sym (append-nil _)) in
      (p, start_protocol_within rs rounds s [] p h ∙ start_protocol_end _ p.waiting p.leaves enough)
