-- ===== src/TcpPing/Send.antt =====
-- `pingSend` of tcp_ping/ping.c, which sends a message and compares what comes back.
pub mod Receive
pub mod Laws
use iteso_codigos.Common.{
  ℕ, zero, suc, ◌+◌, ◌-◌, ◌*◌, ◌%◌, ◌^◌, Bool, true, false, Option, none, some, List, [], ◌∷◌, ◌++◌,
  if◌then◌else◌, ltb, ◌==◌, length, get_elem?, take, drop, replicate,
}
use iteso_codigos.Common.Text.{Bytes, same}
use iteso_codigos.Common.Run.{Run, done, fault, unfinished, ◌>>=◌}
use iteso_codigos.Device.{Device}
use iteso_codigos.FileTransfer.Send.{write_step}

-- msg_size*1024, as a `u_int`.
unfoldable pub real_size : ℕ → ℕ
real_size msg_size = msg_size * 1024 % 2 ^ 32

-- The loop that fills the buffer, from `i` on, with `n` rounds left.
unfoldable pub letters : ℕ → ℕ → Bytes
letters i zero = []
letters i (suc n) = (i % 26 + 65) ∷ letters (i + 1) n

-- The text of the buffer and the zero that ends it.
abbrev pub message : ℕ → Bytes
message size = letters 0 (size - 1) ++ 0 ∷ []

-- What `read` leaves in a buffer where it was told to put a block.
abbrev pub store : ℕ → Bytes → Bytes → Bytes
store total b buffer = take total buffer ++ (b ++ drop (total + length b) buffer)

module _ (D : Device) where
  -- while(totalBytes < strlen(bufferSend)): the zero is offered to every `write`, but the loop does not
  -- wait for it.
  unfoldable pub send_message : ℕ → Bytes → ℕ × D.State → Run (ℕ × D.State)
  send_message zero text (pos, s) = unfinished
  send_message (suc fuel) text (pos, s) =
      let rest = send_message fuel text (write_step D text (pos, s)) in
      if ltb pos (length text - 1) then rest else done (pos, s)

  -- The loop that reads the answer, into a buffer of `size` + 1 bytes. All numbers are `u_int`, so a
  -- failed read counts as 2^32 - 1 bytes; an index outside of the buffer is a fault.
  unfoldable pub receive_message : ℕ → ℕ → ℕ → Bytes → D.State → Run (Bytes × D.State)
  receive_message zero size total buffer s = unfinished
  receive_message (suc fuel) size total buffer s =
      let (answer, s') = D.read s size in
      let go : ℕ → Bytes → Run (Bytes × D.State) = λ total' buffer'.
        elim (get_elem? buffer' ((total' + 2 ^ 32 - 1) % 2 ^ 32)) [
          | none ↦ fault
          | some c ↦
              let more = receive_message fuel size total' buffer' s' in
              if c == 0 then done (buffer', s') else more
        ] in
      elim answer [
        | none ↦ go ((total + 2 ^ 32 - 1) % 2 ^ 32) buffer
        | some [] ↦ done (buffer, s')
        | some (c ∷ b) ↦
            if ltb (size + 1) (total + length (c ∷ b))
            then fault
            else go (total + length (c ∷ b)) (store total (c ∷ b) buffer)
      ]

  -- The result is that of `memcmp` over `realsize` bytes. With a size of 0 the loop that fills the
  -- buffer runs past its end.
  unfoldable pub ping_send : ℕ → ℕ → D.State → Run (Bool × D.State)
  ping_send fuel msg_size s =
      let size = real_size msg_size in
      let run : Run (Bool × D.State) = (do
        w ← send_message fuel (message size) (0, s)
        r ← receive_message fuel size 0 (replicate (size + 1) 0) (w.1)
        done (same (take size (message size ++ 0 ∷ [])) (take size (r.0)), r.1)) in
      if size == 0 then fault else run
