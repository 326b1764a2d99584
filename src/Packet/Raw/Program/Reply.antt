-- ===== src/Packet/Raw/Program/Reply.antt =====
-- What raw/main.c sends, and what it prints of the reply.
use iteso_codigos.Common.{
  ℕ, zero, suc, ◌-◌, ◌≤◌, ◌≡◌, refl, sym, ap, ◌∙◌, true, some, [], ◌∷◌, ◌++◌, length, take, drop,
  get_or, replicate, All, arith,
}
use iteso_codigos.Common.Text.{Bytes}
use iteso_codigos.Common.Run.{done}
use iteso_codigos.Device.{Device}
use iteso_codigos.Packet.Word.{htons}
use iteso_codigos.Packet.Checksum.{csum}
use iteso_codigos.Packet.Checksum.Laws.{IsByte}
use iteso_codigos.Packet.Dump.{dump}
use iteso_codigos.Packet.Dump.Rows.{rows_from, dump-rows_from}
use iteso_codigos.Packet.Dump.Bounds.{dump_within}
use iteso_codigos.Packet.Raw.{total_length, build_packet}
use iteso_codigos.Packet.Raw.Laws.{build_packet_verifies}
use iteso_codigos.Packet.Raw.Program.{Answer, Exit, replied, id_at, print_reply, send_packet, main}

get_or_zeros : (n i : ℕ) → get_or {A = ℕ} (replicate n 0) i 0 ≡ 0
get_or_zeros zero i = refl
get_or_zeros (suc n) zero = refl
get_or_zeros (suc n) (suc i) = get_or_zeros n i

get_or_behind : (b : Bytes) (n i : ℕ) → length b ≤ i → get_or {A = ℕ} (b ++ replicate n 0) i 0 ≡ 0
get_or_behind [] n i h = get_or_zeros n i
get_or_behind (c ∷ b) n zero h = absurd (omega arith)
get_or_behind (c ∷ b) n (suc i) h = get_or_behind b n i (omega arith)

-- The identifier that is printed stands behind a reply of up to 166 bytes.
id_at_short : (b : Bytes) (n : ℕ) → length b ≤ 166 → id_at (b ++ replicate n 0) ≡ 0
unfolding htons
id_at_short b n short =
    rw (get_or_behind b n 166 short, get_or_behind b n 167 (omega (arith, short))) refl

-- What is printed of a reply.
abbrev pub answer_of : Bytes → Answer
answer_of b = record {
  id = 0;
  saddr = take 4 (drop 12 (b ++ replicate (4096 - length b) 0));
  status = length b;
  text = rows_from [] b;
}

module _ (D : Device) where
  print_reply-answer_of :
      (s : D.State) (b : Bytes)
      → (D.read s 4096).0 ≡ some b
      → length b ≤ 166
      → print_reply D s ≡ done (replied (answer_of b))
  unfolding print_reply
  print_reply-answer_of s b got short =
      rw (got, print_reply)
        (rw (dump_within b (replicate (4096 - length b) 0), id_at_short b (4096 - length b) short)
          refl)

  send_steps :
      (packet : Bytes) (s : D.State) (k : ℕ) (e : Exit)
      → (D.write s packet).0 ≡ some k
      → print_reply D (D.write s packet).1 ≡ done e
      → send_packet D true packet s ≡ done e
  unfolding send_packet
  send_steps packet s k e wrote printed = rw (wrote, send_packet) printed

  main_steps :
      (saddr daddr packet text : Bytes) (s : D.State) (e : Exit)
      → build_packet saddr daddr ≡ some packet
      → dump packet total_length ≡ some text
      → send_packet D true packet s ≡ done e
      → main D saddr daddr (some s) true ≡ done (text, e)
  unfolding main
  main_steps saddr daddr packet text s e built dumped sent =
      rw (built, main) (rw (dumped, main) (rw sent refl))

  -- With addresses of four bytes, a socket and its option, and a system that takes the packet and then
  -- gives a reply of at most 166 bytes: the packet that is sent is the 92 bytes that are dumped first,
  -- with both checksums right, and the reply is dumped whole, with its source address; but the
  -- identifier that is printed is 0, whatever the reply says.
  pub main-answer_of :
      (saddr daddr reply : Bytes) (s : D.State)
      → length saddr ≡ 4
      → length daddr ≡ 4
      → All IsByte saddr
      → All IsByte daddr
      → ((packet : Bytes)
          → build_packet saddr daddr ≡ some packet
          → (k : ℕ) × ((D.write s packet).0 ≡ some k))
      → ((packet : Bytes)
          → build_packet saddr daddr ≡ some packet
          → (D.read (D.write s packet).1 4096).0 ≡ some reply)
      → length reply ≤ 166
      → (packet : Bytes) × (build_packet saddr daddr ≡ some packet)
        × (csum packet 20 ≡ some 0)
        × (csum (drop 20 packet) 72 ≡ some 0)
        × (main D saddr daddr (some s) true ≡ done (rows_from [] packet, replied (answer_of reply)))
  main-answer_of saddr daddr reply s hs hd bs bd sends comes short =
      let (packet, built, size, ip_sum, icmp_sum) = build_packet_verifies saddr daddr hs hd bs bd in
      let (k, wrote) = sends packet built in
      (
        packet,
        built,
        ip_sum,
        icmp_sum,
        main_steps saddr daddr packet (rows_from [] packet) s (replied (answer_of reply)) built
            (ap (dump packet) (sym size) ∙ dump-rows_from packet)
            (send_steps packet s k (replied (answer_of reply)) wrote
              (print_reply-answer_of (D.write s packet).1 reply (comes packet built) short)),
      )
