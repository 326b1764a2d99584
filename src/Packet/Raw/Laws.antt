-- ===== src/Packet/Raw/Laws.antt =====
-- The two checksums of the echo request hold.
use iteso_codigos.Common.{
  ℕ, ◌+◌, ◌≡◌, refl, sym, ap, ap₂, ◌∙◌, Option, none, some, [], ◌∷◌, ◌++◌, length, length-append,
  drop, drop-append, All, All-append, arith,
}
use iteso_codigos.Common.Text.{Bytes}
use iteso_codigos.Packet.Word.{store16, htons}
use iteso_codigos.Packet.Checksum.{fold_sum, csum}
use iteso_codigos.Packet.Checksum.Laws.{
  IsByte, csum_verifies, csum_within, csum-with_field, sum_words,
}
use iteso_codigos.Packet.Raw.{ip_head, icmp_tail, ip_header, icmp_message, build_packet}

ip_head-All : All IsByte ip_head
unfolding ip_head store16 htons
ip_head-All = omega arith

icmp_tail-All : All IsByte icmp_tail
unfolding icmp_tail store16 htons
icmp_tail-All = omega arith

length-icmp_message : (w : ℕ) → length (icmp_message w) ≡ 72
unfolding icmp_message icmp_tail store16
length-icmp_message w = refl

module _ (saddr daddr : Bytes) (hs : length saddr ≡ 4) (hd : length daddr ≡ 4)
    (bs : All IsByte saddr) (bd : All IsByte daddr) where
  length-ip_header : (w : ℕ) → length (ip_header saddr daddr w) ≡ 20
  unfolding ip_header ip_head store16
  length-ip_header w = omega (arith, length-append saddr daddr, hs, hd)

  build_packet_steps :
      (check checksum : ℕ)
      → csum (ip_header saddr daddr 0 ++ icmp_message 0) 20 ≡ some check
      → csum (icmp_message 0) 72 ≡ some checksum
      → build_packet saddr daddr ≡ some (ip_header saddr daddr check ++ icmp_message checksum)
  unfolding build_packet
  build_packet_steps check checksum p q =
      ap₂
        (λ (c d : Option ℕ). elim c [
          | none ↦ none
          | some check ↦ elim d [
            | none ↦ none
            | some checksum ↦ some (ip_header saddr daddr check ++ icmp_message checksum)
          ]
        ])
        p q

  csum-ip_header :
      (w : ℕ) (more : Bytes)
      → csum (ip_header saddr daddr w ++ more) 20
        ≡ csum (ip_header saddr daddr w) (length (ip_header saddr daddr w))
  csum-ip_header w more =
      sym (ap (csum (ip_header saddr daddr w ++ more)) (length-ip_header w))
      ∙ csum_within (ip_header saddr daddr w) more 10 (omega (arith, length-ip_header w))

  some_check :
      (check : ℕ) × (csum (ip_header saddr daddr 0) (length (ip_header saddr daddr 0)) ≡ some check)
  unfolding ip_header
  some_check = (
    _,
    csum-with_field ip_head (saddr ++ daddr) 5 (unfold ip_head store16 in refl) ip_head-All
        (All-append IsByte saddr daddr bs bd)
        (unfold ip_head store16 in omega (arith, length-append saddr daddr)) 0 (omega arith),
  )

  check_verifies :
      (w : ℕ)
      → csum (ip_header saddr daddr 0) (length (ip_header saddr daddr 0)) ≡ some w
      → csum (ip_header saddr daddr w) (length (ip_header saddr daddr w)) ≡ some 0
  unfolding ip_header
  check_verifies w h =
      (csum_verifies ip_head (saddr ++ daddr) 5 (unfold ip_head store16 in refl) ip_head-All
        (All-append IsByte saddr daddr bs bd)
        (unfold ip_head store16 in omega (arith, length-append saddr daddr)) w h).1

plain_checksum :
    csum (icmp_message 0) (length (icmp_message 0))
    ≡ some (fold_sum (0 + (sum_words (8 ∷ 0 ∷ []) + sum_words icmp_tail)))
unfolding icmp_message
plain_checksum =
    csum-with_field (8 ∷ 0 ∷ []) icmp_tail 1 refl (omega arith) icmp_tail-All
      (unfold icmp_tail store16 in omega arith) 0 (omega arith)

some_checksum : (w : ℕ) × (csum (icmp_message 0) 72 ≡ some w)
some_checksum = (_, sym (ap (csum (icmp_message 0)) (length-icmp_message 0)) ∙ plain_checksum)

checksum_verifies : (w : ℕ) → csum (icmp_message 0) 72 ≡ some w → csum (icmp_message w) 72 ≡ some 0
checksum_verifies w h =
    sym (ap (csum (icmp_message w)) (length-icmp_message w))
    ∙ (unfold icmp_message in
        (csum_verifies (8 ∷ 0 ∷ []) icmp_tail 1 refl (omega arith) icmp_tail-All
          (unfold icmp_tail store16 in omega arith) w
          (ap (csum (icmp_message 0)) (length-icmp_message 0) ∙ h)).1)

-- For any two addresses of four bytes, the program builds a packet of 92 bytes, as its header says,
-- whose IP header has the checksum 0 and whose ICMP message has the checksum 0, so that the
-- receiver accepts both.
pub build_packet_verifies :
    (saddr daddr : Bytes)
    → length saddr ≡ 4
    → length daddr ≡ 4
    → All IsByte saddr
    → All IsByte daddr
    → (p : Bytes) × (build_packet saddr daddr ≡ some p)
      × (length p ≡ 92)
      × (csum p 20 ≡ some 0)
      × (csum (drop 20 p) 72 ≡ some 0)
build_packet_verifies saddr daddr hs hd bs bd =
    let (check, p) = some_check saddr daddr hs hd bs bd in
    let (checksum, q) = some_checksum in
    let ip = ip_header saddr daddr check in
    let rest : drop 20 (ip ++ icmp_message checksum) ≡ icmp_message checksum =
      sym (
        ap (λ (n : ℕ). drop n (ip ++ icmp_message checksum))
          (length-ip_header saddr daddr hs hd bs bd check))
      ∙ drop-append ip (icmp_message checksum) in
    (
      ip ++ icmp_message checksum,
      build_packet_steps saddr daddr hs hd bs bd check checksum
          (csum-ip_header saddr daddr hs hd bs bd 0 (icmp_message 0) ∙ p) q,
      omega (
        arith,
        length-append ip (icmp_message checksum),
        length-ip_header saddr daddr hs hd bs bd check,
        length-icmp_message checksum,
      ),
      csum-ip_header saddr daddr hs hd bs bd check (icmp_message checksum)
          ∙ check_verifies saddr daddr hs hd bs bd check p,
      ap (λ (b : Bytes). csum b 72) rest ∙ checksum_verifies checksum q,
    )
