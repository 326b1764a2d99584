-- ===== src/FileTransfer/Client/Receive.antt =====
-- The loop of `doGet` in the client: what it writes into the file.
use iteso_codigos.Common.{
  ℕ, zero, suc, ◌+◌, ◌%◌, ◌^◌, ◌≤◌, ◌<◌, ◌≡◌, refl, sym, ap, ◌∙◌, Bool-cases, Option, some, [], ◌∷◌,
  ◌++◌, append_assoc, append-nil, length-append, length-eq-zero, append-eq-nil, length, arith, inl,
  inr, ltb, ltb→lt, not_ltb→le, lt→ltb, le→not_ltb,
}
use iteso_codigos.Common.Text.{Bytes}
use iteso_codigos.Common.Run.{Run, done, unfinished, ◌>>=◌}
use iteso_codigos.Device.{Device, IsLawful, IsReliable}
use iteso_codigos.FileTransfer.Send.{write_while}
use iteso_codigos.FileTransfer.Send.Laws.{write_while-Sends}
use iteso_codigos.FileTransfer.Client.{block_size, receive}

-- A run that returns with all that was pending on the socket written into the file.
pub record Saves (D W : Device) (L : IsLawful D) (LW : IsLawful W) (s : D.State) (w : W.State)
    (result : Run (D.State × W.State)) : Type 0 where
  pub socket : D.State
  pub file : W.State
  pub returns : result ≡ done (socket, file)
  pub writes : LW.sent file ≡ LW.sent w ++ L.pending s
  pub drains : L.pending socket ≡ []
  pub sends_nothing : L.sent socket ≡ L.sent s

module _ (D W : Device) (open_write : Bytes → Option W.State) (fuel : ℕ) where
  receive_over :
      (rounds size total : ℕ) (s : D.State) (w : W.State)
      → size ≤ total
      → receive D W open_write fuel (suc rounds) size total s w ≡ done (s, w)
  unfolding receive
  receive_over rounds size total s w h = rw (le→not_ltb total size h)

  receive_nothing :
      (rounds size total : ℕ) (s : D.State) (w : W.State)
      → total < size
      → (D.read s block_size).0 ≡ some []
      → receive D W open_write fuel (suc rounds) size total s w
        ≡ receive D W open_write fuel rounds size total (D.read s block_size).1 w
  unfolding receive
  receive_nothing rounds size total s w h got = rw (lt→ltb total size h) (ground (arith, got))

  receive_block :
      (rounds size total c : ℕ) (b : Bytes) (s : D.State) (w : W.State)
      → total < size
      → (D.read s block_size).0 ≡ some (c ∷ b)
      → receive D W open_write fuel (suc rounds) size total s w ≡ (
          write_while W fuel (c ∷ b) (0, w) >>= λ r.
          receive D W open_write fuel rounds size
            ((total + length (c ∷ b)) % 2 ^ 64)
            (D.read s block_size).1
            (r.1))
  unfolding receive
  receive_block rounds size total c b s w h got = rw (lt→ltb total size h) (ground (arith, got))

  -- One round in which the whole block went into the file, and the total did not wrap.
  receive_round :
      (rounds size total c n total' : ℕ) (b : Bytes) (s : D.State) (w w' : W.State)
      → total < size
      → (D.read s block_size).0 ≡ some (c ∷ b)
      → write_while W fuel (c ∷ b) (0, w) ≡ done (n, w')
      → (total + length (c ∷ b)) % 2 ^ 64 ≡ total'
      → receive D W open_write fuel (suc rounds) size total s w
        ≡ receive D W open_write fuel rounds size total' (D.read s block_size).1 w'
  receive_round rounds size total c n total' b s w w' h got wrote e =
      receive_block rounds size total c b s w h got ∙ rw (wrote, e)

  module _ (L : IsLawful D) (R : IsReliable D) (LW : IsLawful W) (RW : IsReliable W) where
    -- Over reliable devices: if exactly as many bytes are left to come as are missing from a size
    -- below 4 GB, the loop ends and the file has them all, in order.
    pub receive-Saves :
        (rounds size total : ℕ) (s : D.State) (w : W.State)
        → size < 2 ^ 32
        → total + length (L.pending s) ≡ size
        → length (L.pending s) < rounds
        → length (L.pending s) < fuel
        → Saves D W L LW s w (receive D W open_write fuel rounds size total s w)
    receive-Saves zero size total s w small h enough fits = absurd (omega arith)
    receive-Saves (suc rounds) size total s w small h enough fits =
        elim (Bool-cases (ltb total size)) [
          | inr over ↦
              let empty =
                length-eq-zero (L.pending s) (omega (arith, not_ltb→le total size over)) in
              record {
                socket = s;
                file = w;
                returns = receive_over rounds size total s w (not_ltb→le total size over);
                writes = rw empty (sym (append-nil _));
                drains = empty;
                sends_nothing = refl;
              }
          | inl more ↦
              let (b, got) = R.reads s block_size in
              (elim b
                  as (λ x.
                    (D.read s block_size).0 ≡ some x
                    → Saves D W L LW s w
                        (receive D W open_write fuel (suc rounds) size total s w)) [
                          | [] ↦ λ e. absurd (
                              omega (
                                arith,
                                ltb→lt total size more,
                                h,
                                ap length (L.read-eof s 102399 e),
                              ))
                          | c ∷ b' ↦ λ e.
                              let (_, split) = L.read-some s block_size e in
                              let s' = (D.read s block_size).1 in
                              let len = ap length split ∙ length-append (c ∷ b') (L.pending s') in
                              let block =
                                write_while-Sends W LW RW (c ∷ b') (omega (arith, small)) fuel w
                                  (omega arith) in
                              let exact : (total + length (c ∷ b')) % 2 ^ 64
                                  ≡ total + length (c ∷ b') =
                                omega arith in
                              let rest =
                                receive-Saves rounds size (total + length (c ∷ b')) s' block.final
                                  small (omega arith) (omega arith) (omega arith) in
                              record {
                                socket = rest.socket;
                                file = rest.file;
                                returns =
                                    receive_round rounds size total c _ _ b' s w block.final
                                      (ltb→lt total size more) e block.returns exact
                                    ∙ rest.returns;
                                writes =
                                    rest.writes
                                    ∙ rw (block.delivers, split)
                                        (append_assoc (LW.sent w) (c ∷ b') (L.pending s'));
                                drains = rest.drains;
                                sends_nothing = rest.sends_nothing ∙ L.read_keeps-sent s block_size;
                              }
                        ])
                got
        ]

    -- If nothing more comes while bytes are missing, the loop uses up any number of rounds.
    pub receive_closed :
        (rounds size total : ℕ) (s : D.State) (w : W.State)
        → total < size
        → L.pending s ≡ []
        → receive D W open_write fuel rounds size total s w ≡ unfinished
    unfolding receive
    receive_closed zero size total s w short input = refl
    receive_closed (suc rounds) size total s w short input =
        let (b, got) = R.reads s block_size in
        let (_, split) = L.read-some s block_size got in
        let (nothing, left) = append-eq-nil b _ (sym input ∙ split) in
        receive_nothing rounds size total s w short (got ∙ ap some nothing)
        ∙ receive_closed rounds size total (D.read s block_size).1 w short left
