-- ===== src/Sniffer/Headers.antt =====
-- The decoders of the protocol headers. A result holds the values that are printed, and the length
-- by which the caller moves on; `none` is a read behind the end of the buffer.
pub mod Prefix
use iteso_codigos.Common.{
  ℕ, ◌+◌, ◌-◌, ◌*◌, ◌^◌, ◌/◌, ◌%◌, ◌≤◌, Option, none, some, List, [], ◌∷◌, if◌then◌else◌, ltb, ◌==◌,
  length, get_or, take, drop, arith,
}
use iteso_codigos.Common.Text.{Bytes}
use iteso_codigos.Packet.Word.{word, htons}

-- The `u_int16_t` at an offset, as it stands in memory.
abbrev pub word_at : Bytes → ℕ → ℕ
word_at h i = word (get_or h i 0) (get_or h (i + 1) 0)

pub record Ethernet : Type 0 where
  pub src : Bytes
  pub dst : Bytes
  pub kind : ℕ × ℕ

pub record Ip : Type 0 where
  pub version : ℕ
  pub saddr : Bytes
  pub daddr : Bytes
  pub id : ℕ
  pub ttl : ℕ
  pub protocol : ℕ

pub record Tcp : Type 0 where
  pub sport : ℕ
  pub dport : ℕ
  pub seqn : ℕ
  pub ack : ℕ
  pub offset : ℕ

pub data Echo : Type 0 where
  echo_reply echo_request other : Echo

pub record Icmp : Type 0 where
  pub kind : ℕ
  pub echo : Echo
  pub code : ℕ

-- What is printed of layer 4.
pub data Layer4 : Type 0 where
  icmp : Icmp → Layer4
  tcp : Tcp → Layer4
  udp : Layer4
  unknown : ℕ → Layer4

pub record Report : Type 0 where
  pub ethernet : Ethernet
  pub ip : Ip
  pub layer4 : Layer4
  pub payload : Bytes

infixl 5 ◌>>=◌
abbrev pub ◌>>=◌ : {A B : Type 0} → Option A → (A → Option B) → Option B
none >>= f = none
some a >>= f = f a

-- size-pos, which `dump` takes as an `unsigned int`.
abbrev pub rest_length : ℕ → ℕ → ℕ
rest_length size pos = (size + 2 ^ 32 - pos) % 2 ^ 32

abbrev pub Decoded : Type 0 → Type 0
Decoded A = Option (A × ℕ)

-- The two bytes of the type; linux_raw prints them as one number in the order of the machine.
unfoldable pub decode_ethernet : Bytes → Decoded Ethernet
decode_ethernet h =
    if ltb (length h) 14
    then none
    else some (
      record { src = take 6 (drop 6 h); dst = take 6 h; kind = (get_or h 12 0, get_or h 13 0) },
      14,
    )

-- `ihl` is the low half of the first byte, and `version` the high half.
unfoldable pub decode_ip : Bytes → Decoded Ip
decode_ip h =
    if ltb (length h) 20
    then none
    else some (
      record {
        version = get_or h 0 0 / 16;
        saddr = take 4 (drop 12 h);
        daddr = take 4 (drop 16 h);
        id = htons (word_at h 4);
        ttl = get_or h 8 0;
        protocol = get_or h 9 0;
      },
      get_or h 0 0 % 16 * 4,
    )

-- ntohs(tcp->seqn) cuts the 32-bit number in memory to its first two bytes.
unfoldable pub decode_tcp : Bytes → Decoded Tcp
decode_tcp h =
    if ltb (length h) 13
    then none
    else some (
      record {
        sport = htons (word_at h 0);
        dport = htons (word_at h 2);
        seqn = htons (word_at h 4);
        ack = htons (word_at h 8);
        offset = get_or h 12 0 / 16;
      },
      get_or h 12 0 / 16 * 4,
    )

unfoldable pub echo_of : ℕ → Echo
echo_of t = if t == 0 then echo_reply else if t == 8 then echo_request else other

unfoldable pub decode_icmp : Bytes → Decoded Icmp
decode_icmp h =
    if ltb (length h) 2
    then none
    else some
        (record { kind = get_or h 0 0; echo = echo_of (get_or h 0 0); code = get_or h 1 0 }, 8)
