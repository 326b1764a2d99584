-- ===== src/UdpFileTransfer/Client/First.antt =====
-- The loop of the UDP client keeps the position of the inner loop from one datagram to the next, so that
-- it saves the first datagram and skips those that are not longer.
use iteso_codigos.Common.{
  ℕ, zero, suc, ◌+◌, ◌^◌, ◌≤◌, ◌<◌, ◌≡◌, ◌≢◌, refl, sym, ◌∙◌, List, [], ◌∷◌, ◌++◌, lt→ltb,
  le→not_ltb, append-nil, length, length-append, arith,
}
use iteso_codigos.Common.Text.{Bytes, concat}
use iteso_codigos.Common.Run.{Run, done}
use iteso_codigos.Device.{Device, IsLawful, IsReliable}
use iteso_codigos.UdpFileTransfer.Copy.{IsUdp}
use iteso_codigos.UdpFileTransfer.Pieces.{Cut, Cut-cons}
use iteso_codigos.UdpFileTransfer.Client.{int_zero, receive_file}
use iteso_codigos.UdpFileTransfer.Client.Rounds.{
  write_rest_over, write_rest-block, add_int_range, receive_over, receive_round,
}

module _ (D : Device) (U : IsUdp D) (W : Device) (LW : IsLawful W) (RW : IsReliable W)
    (fuel : ℕ) where
  -- A loop that ended with `saved` written to the file, and has read all datagrams but `later`.
  pub record Keeps (s : D.State) (w : W.State) (saved : Bytes) (later : List Bytes)
      (result : Run (D.State × W.State)) : Type 0 where
    pub socket : D.State
    pub file : W.State
    pub returns : result ≡ done (socket, file)
    pub saves : LW.sent file ≡ LW.sent w ++ saved
    pub leaves : U.incoming socket ≡ later
    pub sends_nothing : U.outgoing socket ≡ U.outgoing s

  module _ (n p : ℕ) (range : n + p < 2 ^ 31) (some_byte : 0 < p) (wide : p ≤ 10240)
      (some_fuel : 0 < fuel) (later : List Bytes) where
    -- The pieces behind the first are counted as p bytes each, and none is written.
    receive_file-skips :
        (bs : List Bytes) (rounds t : ℕ) (s : D.State) (w : W.State)
        → U.incoming s ≡ bs ++ later
        → Cut p bs
        → n ≤ t + length (concat bs)
        → (bs ≢ [] → n ≡ t + length (concat bs))
        → length bs < rounds
        → Keeps s w [] later
            (receive_file D W fuel rounds (int_zero + n) (int_zero + t) (int_zero + p) s w)
    receive_file-skips bs zero t s w comes cut whole exact enough = absurd (omega arith)
    receive_file-skips [] (suc rounds) t s w comes cut whole exact enough = record {
      socket = s;
      file = w;
      returns =
          receive_over D W fuel rounds (int_zero + n) (int_zero + t) (int_zero + p) s w
            (le→not_ltb (int_zero + t) (int_zero + n) (omega arith));
      saves = sym (append-nil _);
      leaves = comes;
      sends_nothing = refl;
    }
    receive_file-skips (b ∷ bs) (suc rounds) t s w comes cut whole exact enough =
        let (full, short, rest_cut, middle) = Cut-cons p b bs some_byte cut in
        let sum = length-append b (concat bs) in
        let size = exact (λ e. cc) in
        let (got, left) = U.read-datagram s 10240 b (bs ++ later) comes (omega arith) in
        let rest =
          receive_file-skips bs rounds (t + p) (D.read s 10240).1 w left rest_cut
            (omega (arith, sum)) (λ k. omega (arith, sum, middle k)) (omega arith) in
        record {
          socket = rest.socket;
          file = rest.file;
          returns =
              receive_round D W fuel rounds (int_zero + n) (int_zero + t) (int_zero + p)
                (int_zero + p) (int_zero + (t + p)) b s w w
                (lt→ltb (int_zero + t) (int_zero + n) (omega (arith, sum))) got
                (write_rest_over W LW RW b (omega arith) fuel (int_zero + length b) (int_zero + p) w
                  (omega arith) some_fuel)
                (add_int_range (int_zero + t) (int_zero + p) (int_zero + (t + p)) (omega arith)
                  (omega arith) (omega (arith, sum)))
              ∙ rest.returns;
          saves = rest.saves;
          leaves = rest.leaves;
          sends_nothing = rest.sends_nothing ∙ U.read_keeps-outgoing s 10240;
        }

  -- With writeBytes at 0 before the first datagram, and a size that the pieces make up: the loop ends
  -- behind the last piece, and the file has the first one and nothing else.
  pub receive_file-Keeps :
      (b : Bytes) (bs later : List Bytes) (rounds n : ℕ) (s : D.State) (w : W.State)
      → U.incoming s ≡ b ∷ (bs ++ later)
      → 0 < length b
      → length b ≤ 10240
      → Cut (length b) bs
      → n ≡ length (concat (b ∷ bs))
      → n + length b < 2 ^ 31
      → length bs + 1 < rounds
      → length b < fuel
      → Keeps s w b later (receive_file D W fuel rounds (int_zero + n) int_zero int_zero s w)
  receive_file-Keeps b bs later zero n s w comes full fits cut whole range enough large =
      absurd (omega arith)
  receive_file-Keeps b bs later (suc rounds) n s w comes full fits cut whole range enough large =
      let sum = length-append b (concat bs) in
      let (got, left) = U.read-datagram s 10240 b (bs ++ later) comes fits in
      let (w', wrote, saved) = write_rest-block W LW RW b (omega arith) fuel w large in
      let rest =
        receive_file-skips n (length b) range full fits (omega arith) later bs rounds (length b)
          (D.read s 10240).1 w' left cut (omega (arith, sum)) (λ k. omega (arith, sum))
          (omega arith) in
      record {
        socket = rest.socket;
        file = rest.file;
        returns =
            receive_round D W fuel rounds (int_zero + n) int_zero int_zero (int_zero + length b)
              (int_zero + length b) b s w w' (lt→ltb int_zero (int_zero + n) (omega (arith, sum)))
              got wrote
              (add_int_range int_zero (int_zero + length b) (int_zero + length b) refl (omega arith)
                (omega arith))
            ∙ rest.returns;
        saves = rest.saves ∙ append-nil _ ∙ saved;
        leaves = rest.leaves;
        sends_nothing = rest.sends_nothing ∙ U.read_keeps-outgoing s 10240;
      }
