-- ===== src/UdpFileTransfer/Copy.antt =====
-- The datagrams that the copy loop of the UDP server sends.
use iteso_codigos.Common.{
  ℕ, zero, suc, ◌+◌, ◌^◌, ◌≤◌, ◌<◌, ◌≡◌, ◌≢◌, refl, sym, ap, ◌∙◌, Bool-cases, true, false, inl, inr,
  some, List, [], ◌∷◌, ◌++◌, append_assoc, append-nil, length, length-eq-zero, ltb, ltb→lt, lt→ltb,
  All, arith,
}
use iteso_codigos.Common.Text.{Bytes, concat}
use iteso_codigos.Common.Run.{Run, done}
use iteso_codigos.Device.{Device, IsLawful, IsReliable}
use iteso_codigos.Device.Blocks.{read-NextBlock, ended, block}
use iteso_codigos.FileStream.Copy.{write_block}
use iteso_codigos.UdpFileTransfer.Pieces.{Cut, cons-Cut, ReadsFull, full_piece}
use iteso_codigos.UdpFileTransfer.{copy_file}

-- A socket for datagrams to one peer, none of which is lost: `recvfrom` gives one datagram, if it fits,
-- and `sendto` sends its block as one.
pub record IsUdp (D : Device) : Type 0 where
  pub incoming : D.State → List Bytes
  pub outgoing : D.State → List Bytes
  pub read-datagram :
      (s : D.State) (n : ℕ) (m : Bytes) (ms : List Bytes)
      → incoming s ≡ m ∷ ms
      → length m ≤ n
      → ((D.read s n).0 ≡ some m) × (incoming (D.read s n).1 ≡ ms)
  pub read_keeps-outgoing : (s : D.State) (n : ℕ) → outgoing (D.read s n).1 ≡ outgoing s
  pub write-datagram :
      (s : D.State) (b : Bytes)
      → b ≢ []
      → ((D.write s b).0 ≡ some (length b)) × (outgoing (D.write s b).1 ≡ outgoing s ++ b ∷ [])
  pub write_keeps-incoming : (s : D.State) (b : Bytes) → incoming (D.write s b).1 ≡ incoming s

module _ (D : Device) (U : IsUdp D) where
  -- A block that is not empty is one datagram.
  write_block-datagram :
      (fuel c : ℕ) (b : Bytes) (s : D.State)
      → 1 < fuel
      → write_block D fuel (c ∷ b) 0 s ≡ done (D.write s (c ∷ b)).1
  unfolding write_block
  write_block-datagram zero c b s two = absurd (omega arith)
  write_block-datagram (suc zero) c b s two = absurd (omega arith)
  write_block-datagram (suc (suc fuel)) c b s two =
      let (wrote, _) = U.write-datagram s (c ∷ b) (λ e. cc) in ground (arith, wrote)

module _ (F : Device) (LF : IsLawful F) (RF : IsReliable F) (D : Device) (U : IsUdp D)
    (fuel size : ℕ) where
  -- The file was sent in the datagrams `blocks`.
  pub record Copied (f : F.State) (s : D.State) (result : Run (F.State × D.State)) : Type 0 where
    pub file : F.State
    pub socket : D.State
    pub blocks : List Bytes
    pub returns : result ≡ done (file, socket)
    pub sends : U.outgoing socket ≡ U.outgoing s ++ blocks
    pub whole : concat blocks ≡ LF.pending f
    pub fits : All (λ b. length b ≤ 10240) blocks
    pub cut : ReadsFull F LF → Cut 10240 blocks
    pub waits : U.incoming socket ≡ U.incoming s

  copy_over :
      (rounds total : ℕ) (f : F.State) (s : D.State)
      → ltb total (size + 2 ^ 31) ≡ false
      → copy_file F D fuel (suc rounds) size total f s ≡ done (f, s)
  unfolding copy_file
  copy_over rounds total f s over = rw over refl

  copy_round :
      (rounds total : ℕ) (b : Bytes) (f : F.State) (s s' : D.State)
      → ltb total (size + 2 ^ 31) ≡ true
      → (F.read f 10240).0 ≡ some b
      → write_block D fuel b 0 s ≡ done s'
      → ltb (total + length b) (2 ^ 32) ≡ true
      → copy_file F D fuel (suc rounds) size total f s
        ≡ copy_file F D fuel rounds size (total + length b) (F.read f 10240).1 s'
  unfolding copy_file
  copy_round rounds total b f s s' more got wrote small = rw more (rw got (rw (wrote, small) refl))

  -- With the total at its right value: the loop ends, and the file is sent in datagrams of at most
  -- 10240 bytes, in order.
  pub copy_file-Copied :
      (rounds total : ℕ) (f : F.State) (s : D.State)
      → size < 2 ^ 31
      → total + length (LF.pending f) ≡ size + 2 ^ 31
      → length (LF.pending f) < rounds
      → 1 < fuel
      → Copied f s (copy_file F D fuel rounds size total f s)
  copy_file-Copied zero total f s small exact enough two = absurd (omega arith)
  copy_file-Copied (suc rounds) total f s small exact enough two =
      elim (Bool-cases (ltb total (size + 2 ^ 31))) [
        | inr over ↦ record {
          file = f;
          socket = s;
          blocks = [];
          returns = copy_over rounds total f s over;
          sends = sym (append-nil _);
          whole = sym (length-eq-zero (LF.pending f) (ground (arith, over, exact)));
          fits = tt;
          cut = λ full. tt;
          waits = refl;
        }
        | inl more ↦
            let below = ltb→lt total (size + 2 ^ 31) more in
            elim (read-NextBlock F LF RF f 10239) [
              | ended got nothing left ↦ absurd (omega (arith, ap length nothing))
              | block c b got split short len ↦
                  let f' = (F.read f 10240).1 in
                  let s' = (D.write s (c ∷ b)).1 in
                  let (_, out) = U.write-datagram s (c ∷ b) (λ e. cc) in
                  let rest =
                    copy_file-Copied rounds (total + length (c ∷ b)) f' s' small (omega arith)
                      (omega arith) two in
                  record {
                    file = rest.file;
                    socket = rest.socket;
                    blocks = (c ∷ b) ∷ rest.blocks;
                    returns =
                        copy_round rounds total (c ∷ b) f s s' more got
                          (write_block-datagram D U fuel c b s two)
                          (lt→ltb (total + length (c ∷ b)) (2 ^ 32) (omega arith))
                        ∙ rest.returns;
                    sends =
                        rest.sends
                        ∙ ap (λ (x : List Bytes). x ++ rest.blocks) out
                        ∙ append_assoc (U.outgoing s) ((c ∷ b) ∷ []) rest.blocks;
                    whole = ap (λ (x : Bytes). (c ∷ b) ++ x) rest.whole ∙ sym split;
                    fits = (short, rest.fits);
                    cut = λ full.
                        cons-Cut (c ∷ b) rest.blocks (LF.pending f') (omega arith) short
                          (rest.cut full) rest.whole
                          (full_piece (c ∷ b) (LF.pending f) (LF.pending f') split
                            (sym got ∙ full f));
                    waits = rest.waits ∙ U.write_keeps-incoming s (c ∷ b);
                  }
            ]
      ]
