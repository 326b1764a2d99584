-- ===== src/Packet/Raw/Program.antt =====
-- `main` of raw/main.c: it sends the packet and prints what comes back. The socket is a `Device` whose
-- `write` is `sendto` and whose `read` is `recvfrom`.
pub mod Reply
use iteso_codigos.Common.{
  ℕ, ◌+◌, ◌-◌, Bool, Option, none, some, List, ◌++◌, if◌then◌else◌, length, take, drop, get_or,
  replicate,
}
use iteso_codigos.Common.Text.{Bytes}
use iteso_codigos.Common.Run.{Run, done, fault, ◌>>=◌}
use iteso_codigos.Device.{Device}
use iteso_codigos.Packet.Word.{word, htons}
use iteso_codigos.Packet.Dump.{dump}
use iteso_codigos.Packet.Raw.{total_length, build_packet}

-- The last line that is printed, and the dump behind it.
pub record Answer : Type 0 where
  pub id : ℕ
  pub saddr : Bytes
  pub status : ℕ
  pub text : Bytes

pub data Exit : Type 0 where
  no_socket no_option not_sent : Exit
  replied : Answer → Exit

-- (struct icmp_hd *) buffer+20 stands behind 20 structures of 8 bytes, and the identifier is its last
-- field.
abbrev pub id_at : Bytes → ℕ
id_at buffer = htons (word (get_or buffer 166 0) (get_or buffer 167 0))

module _ (D : Device) where
  -- After a failed `recvfrom` the dump takes -1 for a length of 2^32 - 1 and leaves the buffer.
  unfoldable pub print_reply : D.State → Run Exit
  print_reply s =
      let (answer, _) = D.read s 4096 in
      elim answer [
        | none ↦ fault
        | some b ↦
            let buffer = b ++ replicate (4096 - length b) 0 in
            elim (dump buffer (length b)) [
              | none ↦ fault
              | some text ↦ done (
                  replied (record {
                    id = id_at buffer;
                    saddr = take 4 (drop 12 buffer);
                    status = length b;
                    text = text;
                  }))
            ]
      ]

  unfoldable pub send_packet : Bool → Bytes → D.State → Run Exit
  send_packet option_set packet s =
      let (sent, s') = D.write s packet in
      let next : Run Exit = elim sent [ none ↦ done not_sent | some k ↦ print_reply s' ] in
      if option_set then next else done no_option

  -- The addresses are the results of inet_addr, `socket` is that of `socket` (`none` below 0), and
  -- `option_set` says whether setsockopt succeeded. The packet is dumped before anything is sent.
  unfoldable pub main : Bytes → Bytes → Option D.State → Bool → Run (Bytes × Exit)
  main saddr daddr socket option_set = elim (build_packet saddr daddr) [
    | none ↦ fault
    | some packet ↦ elim (dump packet total_length) [
      | none ↦ fault
      | some text ↦ elim socket [
        | none ↦ done (text, no_socket)
        | some s ↦ do e ← send_packet option_set packet s; done (text, e)
      ]
    ]
  ]
