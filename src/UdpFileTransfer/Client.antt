-- ===== src/UdpFileTransfer/Client.antt =====
-- `main` of UDP_FileTransfer/client.c: it asks for one file and saves what comes in datagrams. A number of
-- type `int` is kept as the number plus 2^31, so that the numbers below 0 are those below 2^31 here.
pub mod Rounds
pub mod First
pub mod Saves
use iteso_codigos.Common.{
  ℕ, zero, suc, ◌+◌, ◌-◌, ◌%◌, ◌^◌, Bool, true, false, ◌||◌, Option, none, some, List, [], ◌∷◌,
  if◌then◌else◌, ltb, length, drop,
}
use iteso_codigos.Common.Text.{Bytes, codes, same}
use iteso_codigos.Common.Run.{Run, done, fault, unfinished, or_fault, ◌>>=◌}
use iteso_codigos.Device.{Device}
use iteso_codigos.Libc.Number.{strtol}
use iteso_codigos.Libc.Search.{strtok_at}
use iteso_codigos.UdpFileTransfer.{ok_text, receive_string}

-- 0 as an `int`.
abbrev pub int_zero : ℕ
int_zero = 2 ^ 31

-- (int) strtol(…): the low 32 bits.
unfoldable pub atoi : Bytes → ℕ
atoi text = (strtol text + 2 ^ 31) % 2 ^ 32

-- The result of `recvfrom`, and the bytes that it left in the block.
abbrev pub received : Option Bytes → ℕ × Bytes
received none = (int_zero - 1, [])
received (some b) = (int_zero + length b, b)

-- totalReadBytes += writeBytes; beyond the range of `int` is a fault.
unfoldable pub add_int : ℕ → ℕ → Option ℕ
add_int x y =
    if ltb (x + y) int_zero || ltb (2 ^ 32 - 1) (x + y - int_zero)
    then none
    else some (x + y - int_zero)

-- How the program ends: it returns 1, -1, -1, or 0 with the socket and the file as they are then.
pub data Exit (S W : Type 0) : Type 0 where
  no_socket cannot_create : Exit S W
  strange_answer : S → Exit S W
  saved : S → W → Exit S W

module _ (W : Device) where
  -- while(writeBytes < readBytes) …, with the position that it starts from. A write from in front of the
  -- block is a fault.
  unfoldable pub write_rest : ℕ → ℕ → Bytes → ℕ → W.State → Run (ℕ × W.State)
  write_rest zero limit b pos w = unfinished
  write_rest (suc fuel) limit b pos w =
      let (answer, w') = W.write w (drop (pos - int_zero) b) in
      let again : Run (ℕ × W.State) = elim answer [
        | none ↦ write_rest fuel limit b (pos - 1) w'
        | some k ↦ write_rest fuel limit b (pos + k) w'
      ] in
      let moved = if ltb pos int_zero then fault else again in
      if ltb pos limit then moved else done (pos, w)

module _ (D W : Device) (fuel : ℕ) where
  -- while(totalReadBytes < fileSize) …. The position `pos` of the inner loop is not set back to 0 for a
  -- new datagram.
  unfoldable pub receive_file : ℕ → ℕ → ℕ → ℕ → D.State → W.State → Run (D.State × W.State)
  receive_file zero size total pos s w = unfinished
  receive_file (suc rounds) size total pos s w =
      let (answer, s') = D.read s 10240 in
      let (limit, b) = received answer in
      let again : Run (D.State × W.State) = (do
        r ← write_rest W fuel limit b pos w
        total' ← or_fault (add_int total (r.0))
        receive_file rounds size total' (r.0) s' (r.1)) in
      if ltb total size then again else done (s, w)

  -- From the call of `sendto` with OK on.
  unfoldable pub save_file : ℕ → ℕ → D.State → W.State → Run (Exit D.State W.State)
  save_file stale size s w = do
    r ← receive_file fuel size int_zero stale (D.write s ok_text).1 w
    bye ← receive_string D (r.0)
    done (saved (bye.1) (r.1))

  -- The second token of the answer is handed to `atoi` also when it is the null pointer.
  unfoldable pub read_size : ℕ → Option W.State → Bytes → D.State → Run (Exit D.State W.State)
  read_size stale local rest s = elim (strtok_at b' ' rest) [
    | none ↦ fault
    | some (token, _) ↦ elim local [
      | none ↦ done cannot_create
      | some w ↦ save_file stale (atoi token) s w
    ]
  ]

  -- The first token is handed to `strcmp` also when it is the null pointer.
  unfoldable pub read_answer : ℕ → Option W.State → Bytes → D.State → Run (Exit D.State W.State)
  read_answer stale local text s = elim (strtok_at b' ' text) [
    | none ↦ fault
    | some (token, rest) ↦
        let run = read_size stale local rest s in
        if same token (codes "READY") then run else done (strange_answer s)
  ]

  -- `create` is the call of `open`, `none` where it fails, and `stale` what writeBytes holds. Without a
  -- name `strlen` follows the null pointer; without a second name `open` fails.
  unfoldable pub main :
      (Bytes → Option W.State) → ℕ → List Bytes → Option D.State → Run (Exit D.State W.State)
  main create stale args none = done no_socket
  main create stale [] (some s) = fault
  main create stale (name ∷ []) (some s) = do
    r ← receive_string D (D.write s name).1
    read_answer stale none (r.0) (r.1)
  main create stale (name ∷ local ∷ args) (some s) = do
    r ← receive_string D (D.write s name).1
    read_answer stale (create local) (r.0) (r.1)
