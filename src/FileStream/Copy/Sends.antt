-- ===== src/FileStream/Copy/Sends.antt =====
-- What the loop of the sender moves.
use iteso_codigos.Common.{
  ℕ, zero, suc, ◌+◌, ◌^◌, ltb, lt→ltb, ◌<◌, ◌≡◌, ◌≢◌, refl, sym, ◌∙◌, some, [], ◌∷◌, ◌++◌,
  append_assoc, append-nil, length, arith, ◌==◌, if◌then◌else◌, ==_ne, ==_iff, ap₂,
}
use iteso_codigos.Common.Text.{Bytes}
use iteso_codigos.Common.Run.{Run, done, fault}
use iteso_codigos.Device.{Device, IsLawful, IsReliable}
use iteso_codigos.Device.Blocks.{read-NextBlock, ended, block}
use iteso_codigos.FileStream.Copy.{
  buffer_size, write_block, Clock, current_time_millis, send_blocks,
}
use iteso_codigos.FileStream.Copy.Writes.{write_block-Answers}

-- Two calls of the clock in a row, before and behind a block, never give the same time.
unfoldable pub Ticks : Clock → Type 0
Ticks clock = (n : ℕ) → current_time_millis clock (n + 1) ≢ current_time_millis clock n

-- A run of the sender that returns with the whole file sent, and nothing read from the connection.
pub record Streams (F D : Device) (LF : IsLawful F) (L : IsLawful D) (f : F.State) (s : D.State)
    (result : Run (F.State × D.State)) : Type 0 where
  pub file : F.State
  pub socket : D.State
  pub returns : result ≡ done (file, socket)
  pub delivers : L.sent socket ≡ L.sent s ++ LF.pending f
  pub reads_nothing : L.pending socket ≡ L.pending s

module _ (F D : Device) (clock : Clock) (fuel : ℕ) where
  send_end :
      (rounds total n start : ℕ) (f : F.State) (s : D.State)
      → (F.read f buffer_size).0 ≡ some []
      → send_blocks F D clock fuel (suc rounds) total n start f s
        ≡ done ((F.read f buffer_size).1, s)
  unfolding send_blocks
  send_end rounds total n start f s got = ground (arith, got)

  -- What follows the block that was sent: the time is taken, the speed printed and the total, which
  -- is `total` then, written.
  after_block : ℕ → ℕ → ℕ → ℕ → F.State → D.State → Run (F.State × D.State)
  after_block rounds total n start f' s' =
      let rest =
        send_blocks F D clock fuel rounds total (n + 2) (current_time_millis clock (n + 1)) f' s' in
      let added = if ltb total (2 ^ 32) then rest else fault in
      if current_time_millis clock n == start then fault else added

  send_round :
      (rounds total n start c : ℕ) (b : Bytes) (f : F.State) (s s' : D.State)
      → (F.read f buffer_size).0 ≡ some (c ∷ b)
      → write_block D fuel (c ∷ b) 0 s ≡ done s'
      → send_blocks F D clock fuel (suc rounds) total n start f s
        ≡ after_block rounds (total + length (c ∷ b)) n start (F.read f buffer_size).1 s'
  unfolding send_blocks after_block
  send_round rounds total n start c b f s s' got wrote = rw (got, send_blocks) (rw wrote refl)

  after_block_ticks :
      (rounds total n : ℕ) (f' : F.State) (s' : D.State)
      → total < 2 ^ 32
      → current_time_millis clock (n + 1) ≢ current_time_millis clock n
      → after_block rounds total (n + 1) (current_time_millis clock n) f' s'
        ≡ send_blocks F D clock fuel rounds total
            (n + 2 + 1)
            (current_time_millis clock (n + 2))
            f'
            s'
  unfolding after_block
  after_block_ticks rounds total n f' s' range other =
      rw (==_ne _ _ other, lt→ltb total (2 ^ 32) range)
        (ap₂
          (λ (i j : ℕ).
            send_blocks F D clock fuel rounds total i (current_time_millis clock j) f' s')
          (omega arith) (omega arith))

  after_block_same :
      (rounds total n start : ℕ) (f' : F.State) (s' : D.State)
      → current_time_millis clock n ≡ start
      → after_block rounds total n start f' s' ≡ fault
  unfolding after_block
  after_block_same rounds total n start f' s' same_time = rw ((==_iff _ _).1 same_time) refl

  module _ (LF : IsLawful F) (RF : IsReliable F) (L : IsLawful D) (R : IsReliable D) where
    -- Over reliable devices, with a clock that ticks between any two calls, fuel above the length of the
    -- file and room for it in the total, the sender ends and has sent the file whole.
    pub send_blocks-Streams :
        (rounds total n : ℕ) (f : F.State) (s : D.State)
        → Ticks clock
        → total + length (LF.pending f) < 2 ^ 32
        → length (LF.pending f) < rounds
        → length (LF.pending f) < fuel
        → Streams F D LF L f s
            (send_blocks F D clock fuel rounds total (n + 1) (current_time_millis clock n) f s)
    unfolding Ticks
    send_blocks-Streams zero total n f s ticks range enough fits = absurd (omega arith)
    send_blocks-Streams (suc rounds) total n f s ticks range enough fits =
        elim (read-NextBlock F LF RF f 102399) [
          | ended got nothing left ↦ record {
            file = (F.read f buffer_size).1;
            socket = s;
            returns = send_end rounds total (n + 1) _ f s got;
            delivers = rw nothing (sym (append-nil _));
            reads_nothing = refl;
          }
          | block c b got split small len ↦
              let f' = (F.read f buffer_size).1 in
              let wrote =
                write_block-Answers D L R (c ∷ b) (omega (arith, small)) fuel s (omega arith) in
              let rest =
                send_blocks-Streams rounds (total + length (c ∷ b)) (n + 2) f' wrote.final ticks
                  (omega arith) (omega arith) (omega arith) in
              record {
                file = rest.file;
                socket = rest.socket;
                returns =
                    send_round rounds total (n + 1) _ c b f s wrote.final got wrote.returns
                    ∙ after_block_ticks rounds (total + length (c ∷ b)) n f' wrote.final
                        (omega arith) (ticks n)
                    ∙ rest.returns;
                delivers =
                    rest.delivers
                    ∙ rw (wrote.delivers, split) (append_assoc (L.sent s) (c ∷ b) (LF.pending f'));
                reads_nothing = rest.reads_nothing ∙ wrote.reads_nothing;
              }
        ]

    -- Over reliable devices and with fuel above the length of the rest of the file, in any round of
    -- the loop: if there is a block left to send, and the clock gives the same time before and behind
    -- it, the loop is a fault, as the code divides by the time between the two.
    pub send_blocks_same_time :
        (rounds total n : ℕ) (f : F.State) (s : D.State)
        → LF.pending f ≢ []
        → current_time_millis clock (n + 1) ≡ current_time_millis clock n
        → length (LF.pending f) < fuel
        → send_blocks F D clock fuel (suc rounds) total (n + 1) (current_time_millis clock n) f s
          ≡ fault
    send_blocks_same_time rounds total n f s some_byte same_time fits =
        elim (read-NextBlock F LF RF f 102399) [
          | ended got nothing left ↦ absurd (some_byte nothing)
          | block c b got split small len ↦
              let wrote =
                write_block-Answers D L R (c ∷ b) (omega (arith, small)) fuel s (omega arith) in
              send_round rounds total (n + 1) _ c b f s wrote.final got wrote.returns
              ∙ after_block_same rounds _ (n + 1) _ _ _ same_time
        ]
