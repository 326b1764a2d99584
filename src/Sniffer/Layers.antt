-- ===== src/Sniffer/Layers.antt =====
-- Positions in a buffer that is made of the layers of a packet.
use iteso_codigos.Common.{
  ℕ, ◌+◌, ◌^◌, ◌<◌, ◌≡◌, ap, ◌∙◌, ◌++◌, length, drop, drop-append, drop-add, arith,
}
use iteso_codigos.Common.Text.{Bytes}
use iteso_codigos.Sniffer.Headers.{rest_length}

pub drop_twice : (x y rest : Bytes) → drop (length x + length y) (x ++ (y ++ rest)) ≡ rest
drop_twice x y rest =
    drop-add (length x) (length y) (x ++ (y ++ rest))
    ∙ ap (drop (length y)) (drop-append x (y ++ rest))
    ∙ drop-append y rest

pub drop_thrice :
    (x y z rest : Bytes) → drop (length x + length y + length z) (x ++ (y ++ (z ++ rest))) ≡ rest
drop_thrice x y z rest =
    drop-add (length x + length y) (length z) (x ++ (y ++ (z ++ rest)))
    ∙ ap (drop (length z)) (drop_twice x y (z ++ rest))
    ∙ drop-append z rest

pub rest_of :
    (body : Bytes) (size n : ℕ)
    → size ≡ n + length body
    → size < 2 ^ 32
    → rest_length size n ≡ length body
rest_of body size n e h = omega arith
