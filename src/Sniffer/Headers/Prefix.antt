-- ===== src/Sniffer/Headers/Prefix.antt =====
-- A decoder reads its own header, and nothing of what follows.
use iteso_codigos.Common.{
  ℕ, zero, suc, ◌+◌, ◌≤◌, ◌<◌, ◌≡◌, refl, ap, ◌∙◌, false, some, [], ◌∷◌, ◌++◌, ltb, length,
  length-append, get_or, take, drop, arith,
}
use iteso_codigos.Common.Text.{Bytes}
use iteso_codigos.Sniffer.Headers.{Tcp, Icmp, decode_ethernet, decode_ip, decode_tcp, decode_icmp}

pub get_or_within : (h more : Bytes) (i : ℕ) → i < length h → get_or (h ++ more) i 0 ≡ get_or h i 0
get_or_within [] more i p = absurd (omega arith)
get_or_within (x ∷ h) more zero p = refl
get_or_within (x ∷ h) more (suc i) p = get_or_within h more i (omega arith)

take_within : (n : ℕ) (h more : Bytes) → n ≤ length h → take n (h ++ more) ≡ take n h
take_within zero h more p = refl
take_within (suc n) [] more p = absurd (omega arith)
take_within (suc n) (x ∷ h) more p = ap (◌∷◌ x) (take_within n h more (omega arith))

take-drop_within :
    (k n : ℕ) (h more : Bytes) → k + n ≤ length h → take k (drop n (h ++ more)) ≡ take k (drop n h)
take-drop_within k zero h more p = take_within k h more (omega arith)
take-drop_within k (suc n) [] more p = absurd (omega arith)
take-drop_within k (suc n) (x ∷ h) more p = take-drop_within k n h more (omega arith)

long_enough : (n : ℕ) (h : Bytes) → n ≤ length h → ltb (length h) n ≡ false
long_enough n h p = ground arith

pub decode_ip_within : (h more : Bytes) → 20 ≤ length h → decode_ip (h ++ more) ≡ decode_ip h
unfolding decode_ip
decode_ip_within h more p =
    let longer : 20 ≤ length (h ++ more) = omega (arith, length-append h more) in
    rw
      (
        long_enough 20 h p,
        long_enough 20 (h ++ more) longer,
        get_or_within h more 0 (omega arith),
        get_or_within h more 4 (omega arith),
        get_or_within h more 5 (omega arith),
        get_or_within h more 8 (omega arith),
        get_or_within h more 9 (omega arith),
        take-drop_within 4 12 h more (omega arith),
        take-drop_within 4 16 h more (omega arith),
      )
      refl

pub decode_ethernet_within :
    (h more : Bytes) → 14 ≤ length h → decode_ethernet (h ++ more) ≡ decode_ethernet h
unfolding decode_ethernet
decode_ethernet_within h more p =
    let longer : 14 ≤ length (h ++ more) = omega (arith, length-append h more) in
    rw
      (
        long_enough 14 h p,
        long_enough 14 (h ++ more) longer,
        get_or_within h more 12 (omega arith),
        get_or_within h more 13 (omega arith),
        take_within 6 h more (omega arith),
        take-drop_within 6 6 h more (omega arith),
      )
      refl

pub decode_tcp_within : (h more : Bytes) → 13 ≤ length h → decode_tcp (h ++ more) ≡ decode_tcp h
unfolding decode_tcp
decode_tcp_within h more p =
    let longer : 13 ≤ length (h ++ more) = omega (arith, length-append h more) in
    rw
      (
        long_enough 13 h p,
        long_enough 13 (h ++ more) longer,
        get_or_within h more 0 (omega arith),
        get_or_within h more 1 (omega arith),
        get_or_within h more 2 (omega arith),
        get_or_within h more 3 (omega arith),
        get_or_within h more 4 (omega arith),
        get_or_within h more 5 (omega arith),
        get_or_within h more 8 (omega arith),
        get_or_within h more 9 (omega arith),
        get_or_within h more 12 (omega arith),
      )
      refl

pub decode_icmp_within : (h more : Bytes) → 2 ≤ length h → decode_icmp (h ++ more) ≡ decode_icmp h
unfolding decode_icmp
decode_icmp_within h more p =
    let longer : 2 ≤ length (h ++ more) = omega (arith, length-append h more) in
    rw
      (
        long_enough 2 h p,
        long_enough 2 (h ++ more) longer,
        get_or_within h more 0 (omega arith),
        get_or_within h more 1 (omega arith),
      )
      refl

decode_icmp_long : (h : Bytes) (r : Icmp × ℕ) → decode_icmp h ≡ some r → 2 ≤ length h
unfolding decode_icmp
decode_icmp_long h r e = ground arith

decode_tcp_long : (h : Bytes) (r : Tcp × ℕ) → decode_tcp h ≡ some r → 13 ≤ length h
unfolding decode_tcp
decode_tcp_long h r e = ground arith

pub decode_icmp_extends :
    (h more : Bytes) (r : Icmp × ℕ) → decode_icmp h ≡ some r → decode_icmp (h ++ more) ≡ some r
decode_icmp_extends h more r e = decode_icmp_within h more (decode_icmp_long h r e) ∙ e

pub decode_tcp_extends :
    (h more : Bytes) (r : Tcp × ℕ) → decode_tcp h ≡ some r → decode_tcp (h ++ more) ≡ some r
decode_tcp_extends h more r e = decode_tcp_within h more (decode_tcp_long h r e) ∙ e
